-- ===== src/Tests/Loop.antt =====
-- The event loop with a terminal, and the opening of a tap interface.
use lumper.Base.{
  ℕ, ◌+◌, ◌≤◌, ◌<◌, ◌≡◌, refl, ap, ◌⊎◌, false, Option, none, some, List, [], ◌∷◌, ◌++◌, arith,
  length, take, Result, ok, err,
}
use lumper.Memory.Flat.{flat_memory}
use lumper.Net.Device.{Interface, Nic}
use lumper.Net.Process.{Drains}
use lumper.Net.Tap.{invalid_ifname}
use lumper.Net.Open.{TunHost, open_named, returns, name_error}
use lumper.Net.Opened.{Tried, open_named_lem}
use lumper.Vmm.Events.{Terminal, Running, run}
use lumper.Vmm.Tally.{Logs}
use lumper.Vmm.Forwards.{KeepsUp, run-KeepsUp}
use lumper.Tests.Machine.{blank}
use lumper.Tests.Nic.{chains_queue}

-- An interface with at most one frame.
abbrev read_once : Option (List ℕ) → Option (List ℕ) × Result ℕ (List ℕ)
read_once none = (none, err 11)
read_once (some frame) = (none, ok frame)

abbrev pub one_frame : Interface
one_frame = record {
  Tap = Option (List ℕ);
  IoError = ℕ;
  Irq = ℕ;
  read = read_once;
  write = λ packet t. (t, ok (length packet));
  signal = λ n. n + 1;
}

abbrev pub frames_left : Option (List ℕ) → ℕ
frames_left none = 0
frames_left (some frame) = 1

pub one_frame-Drains : Drains flat_memory chains_queue one_frame frames_left
one_frame-Drains none t' bytes e = cc
one_frame-Drains (some frame) none bytes e = omega arith
one_frame-Drains (some frame) (some later) bytes e = cc

pub few_frames : (t : Option (List ℕ)) → frames_left t < 2
few_frames none = omega arith
few_frames (some frame) = omega arith

-- A serial device that takes one byte of a call: what it has taken, and what waits in it.
abbrev Fifo : Type 0
Fifo = List ℕ × List ℕ

abbrev take_one : List ℕ → Fifo → Fifo × Result ℕ ℕ
take_one bytes (log, waiting) = ((log ++ take 1 bytes, waiting ++ take 1 bytes), ok 1)

-- A terminal where `ab` is typed in every round; the bytes that were typed.
abbrev pub terminal : Terminal ℕ ℕ
terminal = record {
  World = List ℕ;
  Serial = Fifo;
  set_raw_mode = λ w. (w, ok tt);
  wait = λ room w. (w, ok (0 ∷ 11 ∷ []));
  is_interrupted = λ e. false;
  read_raw = λ size w. (w ++ (b'a' ∷ b'b' ∷ []), ok (b'a' ∷ b'b' ∷ []));
  enqueue_raw_bytes = take_one;
}

unfoldable pub terminal-Logs : Logs terminal
terminal-Logs = record {
  received = λ w. w;
  queued = λ s. s.0;
  raw_mode = λ w. refl;
  waited = λ room w. refl;
  read = λ size w bytes e. ap (λ l. w ++ l) cc;
  enqueue = λ bytes s count e. ap (λ n. s.0 ++ take n bytes) {x = 1} {y = count} cc;
}

abbrev pub idle_nic : Nic flat_memory chains_queue one_frame
idle_nic = record {
  rx = record { memory = blank; queue = [] };
  tx = [];
  tap = some (1 ∷ 2 ∷ []);
  interrupt_status = 0;
  irq = 0;
}

abbrev pub started : Running terminal flat_memory chains_queue one_frame (λ e. 0) ℕ
started = record { world = []; serial = ([], []); net = some idle_nic }

run-KeepsUp_example :
    KeepsUp terminal terminal-Logs flat_memory chains_queue one_frame
      (λ e. 0)
      ℕ
      []
      ([], [])
      (some 11)
      (run terminal flat_memory chains_queue one_frame (λ e. 0) ℕ (λ t. 11) 2 3 started)
unfolding terminal-Logs
run-KeepsUp_example =
    run-KeepsUp terminal terminal-Logs flat_memory chains_queue one_frame (λ e. 0) ℕ frames_left
      one_frame-Drains 2 few_frames (λ t. 11) 3 started

-- A kernel that grants every interface.
abbrev granting : TunHost
granting = record {
  World = Unit;
  IoError = ℕ;
  open_tun = λ w. (w, ok 11);
  tun_set_iff = λ fd req w. (w, ok req);
  tun_set_offload = λ fd flags w. (w, ok tt);
  tun_set_vnet_hdr_sz = λ fd size w. (w, ok tt);
}

abbrev tap0 : List ℕ
tap0 = b't' ∷ b'a' ∷ b'p' ∷ b'0' ∷ []

open_named_lem_example :
    ((16 ≤ length tap0)
      × (open_named granting tap0 tt ≡ (tt, returns (err (name_error invalid_ifname)))))
    ⊎ ((length tap0 < 16) × Tried granting tap0 tt (open_named granting tap0 tt))
open_named_lem_example = open_named_lem granting tap0 tt
