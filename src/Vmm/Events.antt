-- ===== src/Vmm/Events.antt =====
-- `VMM::run` of src/vmm/src/lib.rs, from the terminal on: the loop over the events of epoll, which
-- come from standard input and from the interface (src/vmm/src/epoll_context.rs). The threads of
-- the vCPUs are `run_loop` of `Vcpu/Run`.
use lumper.Base.{
  ℕ, zero, suc, Bool, false, Option, none, some, List, [], ◌∷◌, u32, ◌==◌, if◌then◌else◌, Result,
  ok, err, Eff,
}
use lumper.Memory.{GuestMemory}
use lumper.Epoll.{epoll_events_len, stdin_fileno}
use lumper.Errors.{VmmError, epoll_error, stdin_read, stdin_write, terminal_configure, virtio_net}
use lumper.Net.Frame.{RxQueue, NetError}
use lumper.Net.Device.{Interface, Nic, TapOutcome, process_tap}

-- The terminal, epoll and the serial device. `Errno` is the error of vmm-sys-util.
pub record Terminal (Cause Errno : Type 0) : Type 1 where
  pub World : Type 0
  pub Serial : Type 0
  pub set_raw_mode : Eff World Errno (Unit {0})
  -- `epoll::wait` with room for so many events: the data of those that came.
  pub wait : ℕ → Eff World Cause (List ℕ)
  -- `ErrorKind::Interrupted`
  pub is_interrupted : Cause → Bool
  -- `read_raw` into a buffer of so many bytes: the bytes that were read.
  pub read_raw : ℕ → Eff World Errno (List ℕ)
  -- The number of bytes from the front that the device has taken.
  pub enqueue_raw_bytes : List ℕ → Eff Serial Cause ℕ

-- How far the loop has come.
pub data Turn (S E : Type 0) : Type 0 where
  going : S → Turn S E
  stopped : S → E → Turn S E
  panicked : Turn S E
  out_of_fuel : Turn S E

abbrev pub and_then : {S E : Type 0} → Turn S E → (S → Turn S E) → Turn S E
and_then (going s) f = f s
and_then (stopped s e) f = stopped s e
and_then panicked f = panicked
and_then out_of_fuel f = out_of_fuel

module _ {Cause Errno : Type 0} (C : Terminal Cause Errno) (G : GuestMemory) (R : RxQueue G)
    (I : Interface) (net_cause : NetError G R → Cause) (VcpuError : Type 0) where
  pub record Running : Type 0 where
    pub world : C.World
    pub serial : C.Serial
    pub net : Option (Nic G R I)

  abbrev pub RunError : Type 0
  RunError = VmmError Cause Errno VcpuError

  abbrev pub LoopTurn : Type 0
  LoopTurn = Turn Running RunError

  -- The answer is not looked at.
  abbrev pub enqueued : Running → C.Serial × Result Cause ℕ → LoopTurn
  enqueued r (serial, ok count) = going (record r { serial = serial })
  enqueued r (serial, err e) = stopped (record r { serial = serial }) (stdin_write e)

  abbrev pub after_read : Running → C.World × Result Errno (List ℕ) → LoopTurn
  after_read r (world, ok bytes) =
      enqueued (record r { world = world }) (C.enqueue_raw_bytes bytes r.serial)
  after_read r (world, err e) = stopped (record r { world = world }) (stdin_read e)

  -- The bytes of standard input go to the serial device.
  unfoldable pub read_stdin : Running → LoopTurn
  read_stdin r = after_read r (C.read_raw 64 r.world)

  abbrev pub after_tap : Running → Option (TapOutcome G R I (Unit {0})) → LoopTurn
  after_tap r none = out_of_fuel
  after_tap r (some (nic, ok done)) = going (record r { net = some nic })
  after_tap r (some (nic, err e)) = stopped (record r { net = some nic }) (virtio_net (net_cause e))

  -- `process_tap` on the fuel; no device is the `unwrap` that panics.
  abbrev pub serve_tap : ℕ → Running → Option (Nic G R I) → LoopTurn
  serve_tap fuel r none = panicked
  serve_tap fuel r (some nic) = after_tap r (process_tap G R I fuel nic)

  -- `interface_fd == Some(event_data)`
  abbrev pub is_interface : Option ℕ → ℕ → Bool
  is_interface none event_data = false
  is_interface (some fd) event_data = fd == event_data

  unfoldable pub handle_event : ℕ → Option ℕ → ℕ → Running → LoopTurn
  unfolding read_stdin
  handle_event fuel interface_fd event_data r =
      and_then (if event_data == stdin_fileno then read_stdin r else going r)
        (λ r'. if is_interface interface_fd event_data then serve_tap fuel r' r'.net else going r')

  -- `for event in events.iter().take(num_events)`, with the data of an event cut to a descriptor.
  unfoldable pub handle_events : ℕ → Option ℕ → List ℕ → Running → LoopTurn
  unfolding handle_event
  handle_events fuel interface_fd [] r = going r
  handle_events fuel interface_fd (event ∷ events) r =
      and_then (handle_event fuel interface_fd (u32 event) r)
        (λ r'. handle_events fuel interface_fd events r')

  abbrev pub after_wait : ℕ → Option ℕ → Running → C.World × Result Cause (List ℕ) → LoopTurn
  after_wait fuel interface_fd r (world, ok events) =
      handle_events fuel interface_fd events (record r { world = world })
  after_wait fuel interface_fd r (world, err e) =
      if C.is_interrupted e
      then going (record r { world = world })
      else stopped (record r { world = world }) (epoll_error e)

  -- So many rounds of the loop, which has no end of its own.
  unfoldable pub event_loop : ℕ → ℕ → Option ℕ → Running → LoopTurn
  unfolding handle_events
  event_loop fuel zero interface_fd r = going r
  event_loop fuel (suc rounds) interface_fd r =
      and_then (after_wait fuel interface_fd r (C.wait epoll_events_len r.world))
        (λ r'. event_loop fuel rounds interface_fd r')

  abbrev pub interface_fd_of : (I.Tap → ℕ) → Option (Nic G R I) → Option ℕ
  interface_fd_of raw_fd none = none
  interface_fd_of raw_fd (some nic) = some (raw_fd nic.tap)

  abbrev pub in_raw_mode :
      (I.Tap → ℕ) → ℕ → ℕ → Running → C.World × Result Errno (Unit {0}) → LoopTurn
  in_raw_mode raw_fd fuel rounds r (world, ok done) =
      event_loop fuel rounds (interface_fd_of raw_fd r.net) (record r { world = world })
  in_raw_mode raw_fd fuel rounds r (world, err e) =
      stopped (record r { world = world }) (terminal_configure e)

  unfoldable pub run : (I.Tap → ℕ) → ℕ → ℕ → Running → LoopTurn
  unfolding event_loop
  run raw_fd fuel rounds r = in_raw_mode raw_fd fuel rounds r (C.set_raw_mode r.world)
