-- ===== src/Vmm/Threads.antt =====
-- The threads of a running machine: what they share, and the main thread in `VMM::run`
-- (src/vmm/src/lib.rs), one step at a time. A step is what the thread does under one lock or in one
-- call. The steps of the vCPUs are in `Vmm/Threads/Interleaved`.
pub mod Interleaved
pub mod Steady
pub mod VcpuSteps
pub mod Calls
pub mod MainSteps
pub mod Reached
use lumper.Base.{
  ℕ, ◌≡◌, Bool, true, false, ◌&&◌, ◌||◌, Option, none, some, List, [], ◌∷◌, ◌++◌, u32, ◌==◌,
  if◌then◌else◌, Result, ok, err,
}
use lumper.Memory.{GuestMemory}
use lumper.Errors.{VmmError, epoll_error, stdin_read, stdin_write, terminal_configure, virtio_net}
use lumper.Net.Frame.{RxQueue, NetError}
use lumper.Net.Device.{Interface, Nic, TapOutcome, process_tap}
use lumper.Vcpu.Run.{
  VcpuExit, io_out, io_in, mmio_write, mmio_read, Devices, Board, Outcome, returns, exits, panics,
  is_serial_port, run,
}
use lumper.Epoll.{epoll_events_len, stdin_fileno}
use lumper.Vmm.Events.{Terminal, is_interface}

-- How far the main thread has come: it starts the vCPUs that are left, then goes around the loop with
-- the descriptor of the interface. `typed` has read bytes and not yet taken the lock of the serial
-- device, `polling` has yet to look at the interface for its event.
pub data Main (E : Type 0) : Type 0 where
  spawning : List ℕ → Main E
  waiting : Option ℕ → Main E
  handling : Option ℕ → List ℕ → Main E
  typed : Option ℕ → List ℕ → ℕ → List ℕ → Main E
  polling : Option ℕ → ℕ → List ℕ → Main E
  failed : E → Main E
  panicked : Main E
  out_of_fuel : Main E

-- `run` keeps the lock of standard input from the raw mode on until it returns.
abbrev pub holds_stdin : {E : Type 0} → Main E → Bool
holds_stdin (spawning vcpus) = false
holds_stdin (failed e) = false
holds_stdin panicked = false
holds_stdin m = true

module _ {Cause Errno : Type 0} (C : Terminal Cause Errno) (G : GuestMemory) (R : RxQueue G)
    (I : Interface) (net_cause : NetError G R → Cause) (VcpuError : Type 0) where
  -- The devices that the threads share: the serial device of vm-superio, and the manager of vm-device
  -- with the network device.
  pub record Ports : Type 0 where
    pub serial_write : ℕ → ℕ → C.Serial → Option C.Serial
    pub serial_read : ℕ → C.Serial → C.Serial × ℕ
    pub manager_write : ℕ → List ℕ → Option (Nic G R I) → Option (Option (Nic G R I))
    pub manager_read : ℕ → List ℕ → Option (Nic G R I) → Option (Option (Nic G R I) × List ℕ)
    pub set_canon_mode : Bool
    -- Of an exit that the manager does not serve: whether the network device has panicked, under its
    -- own lock.
    pub net_panics : VcpuExit → Option (Nic G R I) → Bool

  abbrev pub ThreadError : Type 0
  ThreadError = VmmError Cause Errno VcpuError

  -- `live` are the vCPUs whose threads run, `blocked` those that wait for the lock of standard input,
  -- and `died` those whose threads have panicked.
  pub record Threads : Type 0 where
    pub world : C.World
    pub serial : C.Serial
    pub serial_poisoned : Bool
    pub net : Option (Nic G R I)
    pub net_poisoned : Bool
    pub manager_poisoned : Bool
    pub live : List ℕ
    pub blocked : List ℕ
    pub died : List ℕ
    pub exited : Bool
    pub progress : Main ThreadError

  -- `thread::Builder::spawn`, of which an error is ignored.
  abbrev pub spawned : Bool → ℕ → List ℕ → Threads → Threads
  spawned true index rest s = record s { live = index ∷ s.live; progress = spawning rest }
  spawned false index rest s = record s { progress = spawning rest }

  -- The descriptor of the interface is read under the lock of the network device.
  abbrev pub enters : (I.Tap → ℕ) → Threads → Option (Nic G R I) → Threads
  enters raw_fd s none = record s { progress = waiting none }
  enters raw_fd s (some nic) = record s {
    progress = if s.net_poisoned then panicked else waiting (some (raw_fd nic.tap));
  }

  abbrev pub entered : (I.Tap → ℕ) → Threads → C.World × Result Errno (Unit {0}) → Threads
  entered raw_fd s (world, ok done) = enters raw_fd (record s { world = world }) s.net
  entered raw_fd s (world, err e) = record s {
    world = world;
    progress = failed (terminal_configure e);
  }

  abbrev pub woken : Option ℕ → Threads → C.World × Result Cause (List ℕ) → Threads
  woken fd s (world, ok events) = record s { world = world; progress = handling fd events }
  woken fd s (world, err e) = record s {
    world = world;
    progress = if C.is_interrupted e then waiting fd else failed (epoll_error e);
  }

  abbrev pub has_read : Option ℕ → ℕ → List ℕ → Threads → C.World × Result Errno (List ℕ) → Threads
  has_read fd event_data events s (world, ok bytes) = record s {
    world = world;
    progress = typed fd bytes event_data events;
  }
  has_read fd event_data events s (world, err e) = record s {
    world = world;
    progress = failed (stdin_read e);
  }

  -- The answer, how many bytes were taken, is not looked at.
  abbrev pub has_enqueued :
      Option ℕ → List ℕ → ℕ → List ℕ → Threads → C.Serial × Result Cause ℕ → Threads
  has_enqueued fd bytes event_data events s (serial, ok count) = record s {
    serial = serial;
    progress = polling fd event_data events;
  }
  has_enqueued fd bytes event_data events s (serial, err e) = record s {
    serial = serial;
    progress = failed (stdin_write e);
  }

  abbrev pub has_served :
      Option ℕ → List ℕ → Threads → Option (TapOutcome G R I (Unit {0})) → Threads
  has_served fd events s none = record s { progress = out_of_fuel }
  has_served fd events s (some (nic, ok done)) = record s {
    net = some nic;
    progress = handling fd events;
  }
  has_served fd events s (some (nic, err e)) = record s {
    net = some nic;
    progress = failed (virtio_net (net_cause e));
  }

  abbrev pub serves_tap : ℕ → Option ℕ → List ℕ → Threads → Option (Nic G R I) → Threads
  serves_tap fuel fd events s none = record s { progress = panicked }
  serves_tap fuel fd events s (some nic) =
      if s.net_poisoned
      then record s { progress = panicked }
      else has_served fd events s (process_tap G R I fuel nic)

  -- The next step of the main thread; the test is whether a thread to be started is. It has no step
  -- once it has ended.
  unfoldable pub main_step : (I.Tap → ℕ) → ℕ → Bool → Main ThreadError → Threads → Threads
  main_step raw_fd fuel started (spawning []) s = entered raw_fd s (C.set_raw_mode s.world)
  main_step raw_fd fuel started (spawning (index ∷ rest)) s = spawned started index rest s
  main_step raw_fd fuel started (waiting fd) s = woken fd s (C.wait epoll_events_len s.world)
  main_step raw_fd fuel started (handling fd []) s = record s { progress = waiting fd }
  main_step raw_fd fuel started (handling fd (event ∷ events)) s =
      if u32 event == stdin_fileno
      then has_read fd (u32 event) events s (C.read_raw 64 s.world)
      else record s { progress = polling fd (u32 event) events }
  main_step raw_fd fuel started (typed fd bytes event_data events) s =
      if s.serial_poisoned
      then record s { progress = panicked }
      else has_enqueued fd bytes event_data events s (C.enqueue_raw_bytes bytes s.serial)
  main_step raw_fd fuel started (polling fd event_data events) s =
      if is_interface C G R I net_cause VcpuError fd event_data
      then serves_tap fuel fd events s s.net
      else record s { progress = handling fd events }
  main_step raw_fd fuel started (failed e) s = s
  main_step raw_fd fuel started panicked s = s
  main_step raw_fd fuel started out_of_fuel s = s
