-- ===== src/Vmm/Threads/Calls.antt =====
-- The calls of the main thread that reach the terminal and the serial device keep what holds of the
-- threads.
use lumper.Base.{
  ℕ, ◌≡◌, [], refl, ◌∙◌, sym, ap, subst, inr, Bool, true, false, Option, none, some, List,
  if◌then◌else◌, Result, ok, err,
}
use lumper.Errors.{epoll_error, stdin_read, terminal_configure}
use lumper.Memory.{GuestMemory}
use lumper.Net.Frame.{RxQueue, NetError}
use lumper.Net.Device.{Interface, Nic}
use lumper.Vmm.Tally.{Logs, Tally, Tally-read, Tally-enqueued}
use lumper.Vmm.Events.{Terminal}
use lumper.Vmm.Threads.{
  Main, waiting, handling, typed, panicked, enters, entered, woken, has_read, has_enqueued,
}
use lumper.Vmm.Threads.Steady.{State, Place, Needed, fd_of, Blamed, Accounted, Ready, IsThere, Inv}

module _ {Cause Errno : Type 0} (C : Terminal Cause Errno) (N : Logs C) (G : GuestMemory)
    (R : RxQueue G) (I : Interface) (net_cause : NetError G R → Cause) (VcpuError : Type 0)
    (w0 : C.World) (s0 : C.Serial) where
  abbrev T : Type 0
  T = State C N G R I net_cause VcpuError

  pub goes :
      (m : Place C N G R I net_cause VcpuError) (s : T)
      → Ready C N G R I net_cause VcpuError s
      → Accounted C N G R I net_cause VcpuError
          (N.received w0)
          (N.received s.world)
          (N.queued s0)
          (N.queued s.serial)
          m
      → Needed C N G R I net_cause VcpuError (fd_of C N G R I net_cause VcpuError m) s.net
      → Blamed C N G R I net_cause VcpuError s.serial_poisoned s.net_poisoned m
      → Inv C N G R I net_cause VcpuError w0 s0 (record s { progress = m })
  goes m s h accounted net blamed = record {
    accounted = accounted;
    net = net;
    blamed = blamed;
    causes = record { by_serial = h.by_serial; by_net = h.by_net; by_manager = h.by_manager };
    quiet = λ e. let r = h.running in cc;
  }

  at_net_lock :
      (b : Bool) (m : Place C N G R I net_cause VcpuError) (s : T)
      → s.net_poisoned ≡ b
      → Ready C N G R I net_cause VcpuError s
      → Inv C N G R I net_cause VcpuError w0 s0 (record s { progress = m })
      → Inv C N G R I net_cause VcpuError w0 s0 (record s { progress = if b then panicked else m })
  at_net_lock true m s p h k = goes panicked s h tt tt (inr p)
  at_net_lock false m s p h k = k

  enters-Inv :
      (raw_fd : I.Tap → ℕ) (s : T) (net : Option (Nic G R I))
      → s.net ≡ net
      → Tally C (N.received w0) (N.received s.world) (N.queued s0) (N.queued s.serial) []
      → Ready C N G R I net_cause VcpuError s
      → Inv C N G R I net_cause VcpuError w0 s0 (enters C G R I net_cause VcpuError raw_fd s net)
  enters-Inv raw_fd s none e all h = goes (waiting none) s h all tt tt
  enters-Inv raw_fd s (some nic) e all h =
      at_net_lock s.net_poisoned (waiting (some (raw_fd nic.tap))) s refl h
        (goes (waiting (some (raw_fd nic.tap))) s h all (subst IsThere (sym e) tt) tt)

  elsewhere :
      (world : C.World) (s : T)
      → Ready C N G R I net_cause VcpuError s
      → Ready C N G R I net_cause VcpuError (record s { world = world })
  elsewhere world s h = record {
    running = h.running;
    by_serial = h.by_serial;
    by_net = h.by_net;
    by_manager = h.by_manager;
  }

  pub entered-Inv :
      (raw_fd : I.Tap → ℕ) (s : T) (p : C.World × Result Errno (Unit {0}))
      → Tally C (N.received w0) (N.received p.0) (N.queued s0) (N.queued s.serial) []
      → Ready C N G R I net_cause VcpuError s
      → Inv C N G R I net_cause VcpuError w0 s0 (entered C G R I net_cause VcpuError raw_fd s p)
  entered-Inv raw_fd s (world, ok done) all h =
      enters-Inv raw_fd (record s { world = world }) s.net refl all (elsewhere world s h)
  entered-Inv raw_fd s (world, err e) all h =
      goes (Main.failed (terminal_configure e)) (record s { world = world }) (elsewhere world s h)
        tt tt tt

  pub woken-Inv :
      (fd : Option ℕ) (s : T) (p : C.World × Result Cause (List ℕ))
      → Tally C (N.received w0) (N.received p.0) (N.queued s0) (N.queued s.serial) []
      → Needed C N G R I net_cause VcpuError fd s.net
      → Ready C N G R I net_cause VcpuError s
      → Inv C N G R I net_cause VcpuError w0 s0 (woken C G R I net_cause VcpuError fd s p)
  woken-Inv fd s (world, ok events) all net h =
      goes (handling fd events) (record s { world = world }) (elsewhere world s h) all net tt
  woken-Inv fd s (world, err e) all net h = interrupted (C.is_interrupted e)
    where
      interrupted :
          (b : Bool)
          → Inv C N G R I net_cause VcpuError w0 s0 (record s {
            world = world;
            progress = if b then waiting fd else Main.failed (epoll_error e);
          })
      interrupted true =
          goes (waiting fd) (record s { world = world }) (elsewhere world s h) all net tt
      interrupted false =
          goes (Main.failed (epoll_error e)) (record s { world = world }) (elsewhere world s h) tt
            tt tt

  pub has_read-Inv :
      (fd : Option ℕ) (event_data : ℕ) (events : List ℕ) (s : T)
      (p : C.World × Result Errno (List ℕ))
      → C.read_raw 64 s.world ≡ p
      → Tally C (N.received w0) (N.received s.world) (N.queued s0) (N.queued s.serial) []
      → Needed C N G R I net_cause VcpuError fd s.net
      → Ready C N G R I net_cause VcpuError s
      → Inv C N G R I net_cause VcpuError w0 s0
          (has_read C G R I net_cause VcpuError fd event_data events s p)
  has_read-Inv fd event_data events s (world, ok bytes) e all net h =
      goes (typed fd bytes event_data events) (record s { world = world }) (elsewhere world s h)
        (Tally-read C (N.received w0) (N.received s.world) (N.received world) (N.queued s0)
          (N.queued s.serial) bytes
          (ap (λ p. N.received p.0) (sym e) ∙ N.read 64 s.world bytes (ap (λ p. p.1) e)) all)
        net tt
  has_read-Inv fd event_data events s (world, err e) f all net h =
      goes (Main.failed (stdin_read e)) (record s { world = world }) (elsewhere world s h) tt tt tt

  pub has_enqueued-Inv :
      (fd : Option ℕ) (bytes : List ℕ) (event_data : ℕ) (events : List ℕ) (s : T)
      (p : C.Serial × Result Cause ℕ)
      → C.enqueue_raw_bytes bytes s.serial ≡ p
      → Tally C (N.received w0) (N.received s.world) (N.queued s0) (N.queued s.serial) bytes
      → Needed C N G R I net_cause VcpuError fd s.net
      → Ready C N G R I net_cause VcpuError s
      → Inv C N G R I net_cause VcpuError w0 s0
          (has_enqueued C G R I net_cause VcpuError fd bytes event_data events s p)
  has_enqueued-Inv fd bytes event_data events s (serial, ok count) e all net h = record {
    accounted =
        Tally-enqueued C (N.received w0) (N.received s.world) (N.queued s0) (N.queued s.serial)
          (N.queued serial) bytes count s.serial (ap (λ p. p.1) e)
          (ap (λ p. N.queued p.0) (sym e) ∙ N.enqueue bytes s.serial count (ap (λ p. p.1) e)) all;
    net = net;
    blamed = tt;
    causes = record { by_serial = h.by_serial; by_net = h.by_net; by_manager = h.by_manager };
    quiet = λ e. let r = h.running in cc;
  }
  has_enqueued-Inv fd bytes event_data events s (serial, err x) e all net h = record {
    accounted = tt;
    net = tt;
    blamed = tt;
    causes = record { by_serial = h.by_serial; by_net = h.by_net; by_manager = h.by_manager };
    quiet = λ e. let r = h.running in cc;
  }
