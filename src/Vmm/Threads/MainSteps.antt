-- ===== src/Vmm/Threads/MainSteps.antt =====
-- The main thread keeps what holds of the threads.
use lumper.Base.{
  ℕ, ◌<◌, ◌≡◌, refl, arith, inl, inr, Bool, true, false, Option, none, some, List, [], ◌∷◌, u32,
  ◌==◌, if◌then◌else◌, ok, err,
}
use lumper.Memory.{GuestMemory}
use lumper.Net.Frame.{RxQueue, NetError}
use lumper.Net.Device.{Interface, Nic, TapOutcome}
use lumper.Net.Process.{Drains, process_tap_ends}
use lumper.Epoll.{epoll_events_len, stdin_fileno}
use lumper.Vmm.Tally.{Logs, Tally, Tally-moved}
use lumper.Vmm.Events.{Terminal, is_interface}
use lumper.Vmm.Threads.{
  Main, spawning, waiting, handling, typed, polling, panicked, out_of_fuel, spawned, has_served,
  serves_tap, main_step,
}
use lumper.Vmm.Threads.Steady.{State, Place, Needed, Ready, Causes, Steady, IsThere, Inv, if-Inv}
use lumper.Vmm.Threads.Calls.{goes, entered-Inv, woken-Inv, has_read-Inv, has_enqueued-Inv}

module _ {Cause Errno : Type 0} (C : Terminal Cause Errno) (N : Logs C) (G : GuestMemory)
    (R : RxQueue G) (I : Interface) (net_cause : NetError G R → Cause) (VcpuError : Type 0)
    (w0 : C.World) (s0 : C.Serial) where
  module _ (pending : I.Tap → ℕ) (drains : Drains G R I pending) (fuel : ℕ)
      (enough : (t : I.Tap) → pending t < fuel) where
    has_served-Inv :
        (fd : Option ℕ) (events : List ℕ) (s : State C N G R I net_cause VcpuError)
        (out : TapOutcome G R I (Unit {0}))
        → Tally C (N.received w0) (N.received s.world) (N.queued s0) (N.queued s.serial) []
        → Ready C N G R I net_cause VcpuError s
        → Inv C N G R I net_cause VcpuError w0 s0
            (has_served C G R I net_cause VcpuError fd events s (some out))
    has_served-Inv fd events s (nic, ok done) all h = record {
      accounted = all;
      net = there fd;
      blamed = tt;
      causes = record { by_serial = h.by_serial; by_net = h.by_net; by_manager = h.by_manager };
      quiet = λ e. let r = h.running in cc;
    }
      where
        there : (fd : Option ℕ) → Needed C N G R I net_cause VcpuError fd (some nic)
        there none = tt
        there (some fd) = tt
    has_served-Inv fd events s (nic, err e) all h = record {
      accounted = tt;
      net = tt;
      blamed = tt;
      causes = record { by_serial = h.by_serial; by_net = h.by_net; by_manager = h.by_manager };
      quiet = λ e. let r = h.running in cc;
    }

    serves_tap-Inv :
        (fd : ℕ) (events : List ℕ) (s : State C N G R I net_cause VcpuError)
        (net : Option (Nic G R I))
        → IsThere net
        → Tally C (N.received w0) (N.received s.world) (N.queued s0) (N.queued s.serial) []
        → Ready C N G R I net_cause VcpuError s
        → Inv C N G R I net_cause VcpuError w0 s0
            (serves_tap C G R I net_cause VcpuError fuel (some fd) events s net)
    serves_tap-Inv fd events s none there all h = absurd there
    serves_tap-Inv fd events s (some nic) there all h =
        if-Inv C N G R I net_cause VcpuError w0 s0 s.net_poisoned _ _
          (λ p. goes C N G R I net_cause VcpuError w0 s0 panicked s h tt tt (inr p))
          (λ p.
            let ended =
              process_tap_ends G R I pending drains fuel fuel nic (enough nic.tap) (omega arith) in
            rw (ended.1) (has_served-Inv (some fd) events s ended.0 all h))

    polled-Inv :
        (fd : Option ℕ) (event_data : ℕ) (events : List ℕ) (s : State C N G R I net_cause VcpuError)
        → Needed C N G R I net_cause VcpuError fd s.net
        → Tally C (N.received w0) (N.received s.world) (N.queued s0) (N.queued s.serial) []
        → Ready C N G R I net_cause VcpuError s
        → Inv C N G R I net_cause VcpuError w0 s0 (
            if is_interface C G R I net_cause VcpuError fd event_data
            then serves_tap C G R I net_cause VcpuError fuel fd events s s.net
            else record s { progress = handling fd events })
    polled-Inv none event_data events s net all h =
        goes C N G R I net_cause VcpuError w0 s0 (handling none events) s h all net tt
    polled-Inv (some fd) event_data events s net all h =
        if-Inv C N G R I net_cause VcpuError w0 s0 (fd == event_data) _ _
          (λ p. serves_tap-Inv fd events s s.net net all h)
          (λ p. goes C N G R I net_cause VcpuError w0 s0 (handling (some fd) events) s h all net tt)

    spawned-Inv :
        (started : Bool) (index : ℕ) (rest : List ℕ) (s : State C N G R I net_cause VcpuError)
        → Tally C (N.received w0) (N.received s.world) (N.queued s0) (N.queued s.serial) []
        → Ready C N G R I net_cause VcpuError s
        → Inv C N G R I net_cause VcpuError w0 s0
            (spawned C G R I net_cause VcpuError started index rest s)
    spawned-Inv true index rest s all h = record {
      accounted = all;
      net = tt;
      blamed = tt;
      causes = record { by_serial = h.by_serial; by_net = h.by_net; by_manager = h.by_manager };
      quiet = λ e. let r = h.running in cc;
    }
    spawned-Inv false index rest s all h =
        goes C N G R I net_cause VcpuError w0 s0 (spawning rest) s h all tt tt

    ready :
        (s : State C N G R I net_cause VcpuError)
        → s.exited ≡ false
        → Causes C N G R I net_cause VcpuError s
        → Ready C N G R I net_cause VcpuError s
    ready s running h = record {
      by_serial = h.by_serial;
      by_net = h.by_net;
      by_manager = h.by_manager;
      running = running;
    }

    pub main_step-Inv :
        (raw_fd : I.Tap → ℕ) (started : Bool) (m : Place C N G R I net_cause VcpuError)
        (s : State C N G R I net_cause VcpuError)
        → s.exited ≡ false
        → Inv C N G R I net_cause VcpuError w0 s0 s
        → Steady C N G R I net_cause VcpuError w0 s0 m s
        → Inv C N G R I net_cause VcpuError w0 s0
            (main_step C G R I net_cause VcpuError raw_fd fuel started m s)
    unfolding main_step
    main_step-Inv raw_fd started (spawning []) s running g h =
        entered-Inv C N G R I net_cause VcpuError w0 s0 raw_fd s (C.set_raw_mode s.world)
          (Tally-moved C _ _ _ _ _ [] (N.raw_mode s.world) h.accounted) (ready s running h.causes)
    main_step-Inv raw_fd started (spawning (index ∷ rest)) s running g h =
        spawned-Inv started index rest s h.accounted (ready s running h.causes)
    main_step-Inv raw_fd started (waiting fd) s running g h =
        woken-Inv C N G R I net_cause VcpuError w0 s0 fd s (C.wait epoll_events_len s.world)
          (Tally-moved C _ _ _ _ _ [] (N.waited epoll_events_len s.world) h.accounted) h.net
          (ready s running h.causes)
    main_step-Inv raw_fd started (handling fd []) s running g h =
        goes C N G R I net_cause VcpuError w0 s0 (waiting fd) s (ready s running h.causes)
          h.accounted h.net tt
    main_step-Inv raw_fd started (handling fd (event ∷ events)) s running g h =
        if-Inv C N G R I net_cause VcpuError w0 s0 (u32 event == stdin_fileno) _ _
          (λ p.
            has_read-Inv C N G R I net_cause VcpuError w0 s0 fd (u32 event) events s
              (C.read_raw 64 s.world) refl h.accounted h.net (ready s running h.causes))
          (λ p.
            goes C N G R I net_cause VcpuError w0 s0 (polling fd (u32 event) events) s
              (ready s running h.causes) h.accounted h.net tt)
    main_step-Inv raw_fd started (typed fd bytes event_data events) s running g h =
        if-Inv C N G R I net_cause VcpuError w0 s0 s.serial_poisoned _ _
          (λ p.
            goes C N G R I net_cause VcpuError w0 s0 panicked s (ready s running h.causes) tt tt
              (inl p))
          (λ p.
            has_enqueued-Inv C N G R I net_cause VcpuError w0 s0 fd bytes event_data events s
              (C.enqueue_raw_bytes bytes s.serial) refl h.accounted h.net
              (ready s running h.causes))
    main_step-Inv raw_fd started (polling fd event_data events) s running g h =
        polled-Inv fd event_data events s h.net h.accounted (ready s running h.causes)
    main_step-Inv raw_fd started (Main.failed e) s running g h = g
    main_step-Inv raw_fd started panicked s running g h = g
    main_step-Inv raw_fd started out_of_fuel s running g h = g
