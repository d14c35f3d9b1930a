-- ===== src/Vmm/Threads/Interleaved.antt =====
-- The exits of the vCPUs beside the main thread, with the locks that they take (src/vmm/src/cpu/mod.rs),
-- and the steps of all the threads in any order.
use lumper.Base.{ℕ, ◌≡◌, Bool, true, false, ◌&&◌, ◌||◌, Option, List, [], ◌∷◌, ◌==◌, if◌then◌else◌}
use lumper.Memory.{GuestMemory}
use lumper.Net.Frame.{RxQueue, NetError}
use lumper.Net.Device.{Interface, Nic}
use lumper.Vcpu.Run.{
  VcpuExit, shutdown, hlt, io_out, io_in, mmio_write, mmio_read, Devices, Board, Outcome, returns,
  exits, panics, is_serial_port, run,
}
use lumper.Vmm.Events.{Terminal}
use lumper.Vmm.Threads.{holds_stdin, spawning, Ports, Threads, main_step}

module _ {Cause Errno : Type 0} (C : Terminal Cause Errno) (G : GuestMemory) (R : RxQueue G)
    (I : Interface) (net_cause : NetError G R → Cause) (VcpuError : Type 0) where
  abbrev pub devices : Ports C G R I net_cause VcpuError → Devices
  devices P = record {
    Serial = C.Serial;
    Manager = Option (Nic G R I);
    serial_write = P.serial_write;
    serial_read = P.serial_read;
    manager_write = P.manager_write;
    manager_read = P.manager_read;
    set_canon_mode = P.set_canon_mode;
  }

  -- The exits of which `run` takes the lock of the serial device, of the manager and of standard input.
  abbrev pub locks_serial : Ports C G R I net_cause VcpuError → VcpuExit → Bool
  locks_serial P (io_out addr bytes) = is_serial_port (devices P) addr
  locks_serial P (io_in addr bytes) = is_serial_port (devices P) addr
  locks_serial P e = false

  abbrev pub locks_manager : VcpuExit → Bool
  locks_manager (mmio_write addr bytes) = true
  locks_manager (mmio_read addr bytes) = true
  locks_manager e = false

  abbrev pub locks_stdin : VcpuExit → Bool
  locks_stdin shutdown = true
  locks_stdin hlt = true
  locks_stdin e = false

  abbrev pub remove : ℕ → List ℕ → List ℕ
  remove index [] = []
  remove index (i ∷ is) = if i == index then remove index is else i ∷ remove index is

  -- A thread that panics leaves the locks that it holds poisoned.
  abbrev pub dies :
      ℕ
      → Bool
      → Bool
      → Bool
      → Threads C G R I net_cause VcpuError
      → Threads C G R I net_cause VcpuError
  dies index serial manager net s = record s {
    live = remove index s.live;
    blocked = remove index s.blocked;
    died = index ∷ s.died;
    serial_poisoned = s.serial_poisoned || serial;
    manager_poisoned = s.manager_poisoned || manager;
    net_poisoned = s.net_poisoned || net;
  }

  unfoldable pub after_exit :
      (P : Ports C G R I net_cause VcpuError)
      → ℕ
      → VcpuExit
      → Threads C G R I net_cause VcpuError
      → Outcome (Board (devices P))
      → Threads C G R I net_cause VcpuError
  after_exit P index e s (returns b bytes) = record s { serial = b.serial; net = b.manager }
  after_exit P index e s exits = record s { exited = true }
  after_exit P index e s panics =
      dies index (locks_serial P e) (locks_manager e) (locks_manager e && P.net_panics e s.net) s

  abbrev pub blocks : ℕ → Threads C G R I net_cause VcpuError → Threads C G R I net_cause VcpuError
  blocks index s = record s { live = remove index s.live; blocked = index ∷ s.blocked }

  -- A vCPU serves an exit; it waits for standard input if the main thread holds its lock. `lock().unwrap()` panics at a poisoned lock.
  unfoldable pub vcpu_step :
      Ports C G R I net_cause VcpuError
      → ℕ
      → VcpuExit
      → Threads C G R I net_cause VcpuError
      → Threads C G R I net_cause VcpuError
  unfolding after_exit
  vcpu_step P index e s =
      if (locks_serial P e && s.serial_poisoned) || (locks_manager e && s.manager_poisoned)
      then dies index false false false s
      else if locks_stdin e && holds_stdin s.progress
      then blocks index s
      else after_exit P index e s
          (run (devices P) e (record { serial = s.serial; manager = s.net }))

  -- A vCPU that has waited for standard input gets its lock.
  unfoldable pub resumed :
      Ports C G R I net_cause VcpuError
      → ℕ
      → Threads C G R I net_cause VcpuError
      → Threads C G R I net_cause VcpuError
  unfolding after_exit
  resumed P index s =
      after_exit P index hlt s (run (devices P) hlt (record { serial = s.serial; manager = s.net }))

  abbrev pub is_live : ℕ → List ℕ → Bool
  is_live index [] = false
  is_live index (i ∷ is) = (i == index) || is_live index is

  -- Any thread may be the next one, until the process has exited; a vCPU may come out of the guest
  -- with any exit.
  pub data Step (P : Ports C G R I net_cause VcpuError) (raw_fd : I.Tap → ℕ) (fuel : ℕ)
      (s : Threads C G R I net_cause VcpuError) : Threads C G R I net_cause VcpuError → Type 0 where
    main_moves :
        (started : Bool)
        → s.exited ≡ false
        → Step P raw_fd fuel s
            (main_step C G R I net_cause VcpuError raw_fd fuel started s.progress s)
    vcpu_moves :
        (index : ℕ) (e : VcpuExit)
        → s.exited ≡ false
        → is_live index s.live ≡ true
        → Step P raw_fd fuel s (vcpu_step P index e s)
    vcpu_resumes :
        (index : ℕ)
        → s.exited ≡ false
        → is_live index s.blocked ≡ true
        → holds_stdin s.progress ≡ false
        → Step P raw_fd fuel s (resumed P index s)

  -- What `run` starts with.
  abbrev pub before_run :
      C.World → C.Serial → Option (Nic G R I) → List ℕ → Threads C G R I net_cause VcpuError
  before_run world serial net vcpus = record {
    world = world;
    serial = serial;
    serial_poisoned = false;
    net = net;
    net_poisoned = false;
    manager_poisoned = false;
    live = [];
    blocked = [];
    died = [];
    exited = false;
    progress = spawning vcpus;
  }

  pub data Reach (P : Ports C G R I net_cause VcpuError) (raw_fd : I.Tap → ℕ) (fuel : ℕ)
      (s : Threads C G R I net_cause VcpuError) : Threads C G R I net_cause VcpuError → Type 0 where
    here : Reach P raw_fd fuel s s
    later :
        {t u : Threads C G R I net_cause VcpuError}
        → Reach P raw_fd fuel s t
        → Step P raw_fd fuel t u
        → Reach P raw_fd fuel s u
