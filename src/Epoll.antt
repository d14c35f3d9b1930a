-- ===== src/Epoll.antt =====
-- src/vmm/src/epoll_context.rs: the descriptor of epoll and what it watches. The calls of the crate
-- epoll are parameters.
use lumper.Base.{ℕ, Bool, true, Eff, ◌>>=◌, ◌>>◌, pure}

abbrev pub epoll_events_len : ℕ
epoll_events_len = 10

-- `libc::STDIN_FILENO`
abbrev pub stdin_fileno : ℕ
stdin_fileno = 0

-- `Events::EPOLLIN`
abbrev pub epollin : ℕ
epollin = 1

-- The events that are asked for, and the data that comes with them.
pub record Event : Type 0 where
  pub events : ℕ
  pub data_ : ℕ

pub record EpollCalls (World Cause : Type 0) : Type 0 where
  -- `epoll::create`, with the flag that closes the descriptor in a new program.
  pub create : Bool → Eff World Cause ℕ
  -- `epoll::ctl` with `EPOLL_CTL_ADD`: epoll, the descriptor and its event.
  pub ctl_add : ℕ → ℕ → Event → Eff World Cause (Unit {0})

pub record EpollContext : Type 0 where
  pub raw_fd : ℕ

module _ {World Cause : Type 0} (E : EpollCalls World Cause) where
  unfoldable pub new : Eff World Cause EpollContext
  new = do raw_fd ← E.create true; pure (record { raw_fd = raw_fd })

  unfoldable pub add_stdin : EpollContext → Eff World Cause (Unit {0})
  add_stdin context = do
    E.ctl_add context.raw_fd stdin_fileno (record { events = epollin; data_ = stdin_fileno })
    pure tt

  unfoldable pub add_fd : EpollContext → ℕ → Eff World Cause (Unit {0})
  add_fd context fd = do
    E.ctl_add context.raw_fd fd (record { events = epollin; data_ = fd })
    pure tt

abbrev pub as_raw_fd : EpollContext → ℕ
as_raw_fd context = context.raw_fd
