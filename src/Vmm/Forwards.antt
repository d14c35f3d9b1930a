-- ===== src/Vmm/Forwards.antt =====
-- What is typed is put into the serial device, in its order.
use lumper.Base.{
  ℕ, zero, suc, ◌≡◌, refl, ◌∙◌, sym, ap, ◌<◌, arith, Bool, true, false, Option, none, some, List,
  [], ◌∷◌, u32, ◌==◌, if◌then◌else◌, Result, ok, err,
}
use lumper.Memory.{GuestMemory}
use lumper.Net.Frame.{RxQueue, NetError}
use lumper.Net.Device.{Interface, Nic, TapOutcome}
use lumper.Net.Process.{Drains, process_tap_ends}
use lumper.Epoll.{epoll_events_len, stdin_fileno}
use lumper.Vmm.Tally.{Logs, Tally, start-Tally, Tally-moved, Tally-read, Tally-enqueued}
use lumper.Vmm.Events.{
  Terminal, going, stopped, panicked, out_of_fuel, and_then, Running, RunError, LoopTurn, enqueued,
  after_read, read_stdin, after_tap, serve_tap, is_interface, handle_event, handle_events,
  after_wait, event_loop, interface_fd_of, in_raw_mode, run,
}

module _ {Cause Errno : Type 0} (C : Terminal Cause Errno) (L : Logs C) (G : GuestMemory)
    (R : RxQueue G) (I : Interface) (net_cause : NetError G R → Cause) (VcpuError : Type 0)
    (w0 : C.World) (s0 : C.Serial) where
  abbrev State : Type 0
  State = Running C G R I net_cause VcpuError

  abbrev Now : Type 0
  Now = LoopTurn C G R I net_cause VcpuError

  -- The device is there if its descriptor is.
  abbrev pub HasNet : Option ℕ → Option (Nic G R I) → Type 0
  HasNet none net = Unit
  HasNet (some fd) none = ⊥
  HasNet (some fd) (some nic) = Unit

  -- The bytes that were read were all put into the serial device.
  abbrev pub Even : C.World → C.Serial → Type 0
  Even w s = Tally C (L.received w0) (L.received w) (L.queued s0) (L.queued s) []

  pub record Forwards (interface_fd : Option ℕ) (r : State) : Type 0 where
    pub all : Even r.world r.serial
    pub net : HasNet interface_fd r.net

  -- The loop goes on like that, or an error has stopped it.
  abbrev pub KeepsUp : Option ℕ → Now → Type 0
  KeepsUp interface_fd (going r) = Forwards interface_fd r
  KeepsUp interface_fd (stopped r e) = Unit
  KeepsUp interface_fd panicked = ⊥
  KeepsUp interface_fd out_of_fuel = ⊥

  and_then-KeepsUp :
      (fd : Option ℕ) (t : Now) (f : State → Now)
      → KeepsUp fd t
      → ((r : State) → Forwards fd r → KeepsUp fd (f r))
      → KeepsUp fd (and_then t f)
  and_then-KeepsUp fd (going r) f k rest = rest r k
  and_then-KeepsUp fd (stopped r e) f k rest = tt
  and_then-KeepsUp fd panicked f k rest = k
  and_then-KeepsUp fd out_of_fuel f k rest = k

  enqueued-KeepsUp :
      (fd : Option ℕ) (bytes : List ℕ) (r : State) (p : C.Serial × Result Cause ℕ)
      → C.enqueue_raw_bytes bytes r.serial ≡ p
      → Tally C (L.received w0) (L.received r.world) (L.queued s0) (L.queued r.serial) bytes
      → HasNet fd r.net
      → KeepsUp fd (enqueued C G R I net_cause VcpuError r p)
  enqueued-KeepsUp fd bytes r (serial, ok count) e all net =
      let answer = ap (λ p. p.1) e in
      record {
        all =
            Tally-enqueued C (L.received w0) (L.received r.world) (L.queued s0) (L.queued r.serial)
              (L.queued serial) bytes count r.serial answer
              (ap (λ p. L.queued p.0) (sym e) ∙ L.enqueue bytes r.serial count answer) all;
        net = net;
      }
  enqueued-KeepsUp fd bytes r (serial, err x) e all net = tt

  after_read-KeepsUp :
      (fd : Option ℕ) (r : State) (p : C.World × Result Errno (List ℕ))
      → C.read_raw 64 r.world ≡ p
      → Forwards fd r
      → KeepsUp fd (after_read C G R I net_cause VcpuError r p)
  after_read-KeepsUp fd r (world, ok bytes) e f =
      enqueued-KeepsUp fd bytes (record r { world = world }) (C.enqueue_raw_bytes bytes r.serial)
        refl
        (Tally-read C (L.received w0) (L.received r.world) (L.received world) (L.queued s0)
          (L.queued r.serial) bytes
          (ap (λ p. L.received p.0) (sym e) ∙ L.read 64 r.world bytes (ap (λ p. p.1) e)) f.all)
        f.net
  after_read-KeepsUp fd r (world, err x) e f = tt

  module _ (pending : I.Tap → ℕ) (drains : Drains G R I pending) (fuel : ℕ)
      (enough : (t : I.Tap) → pending t < fuel) where
    after_tap-KeepsUp :
        (fd : Option ℕ) (r : State) (out : TapOutcome G R I (Unit {0}))
        → Forwards fd r
        → KeepsUp fd (after_tap C G R I net_cause VcpuError r (some out))
    after_tap-KeepsUp none r (nic, ok done) f = record { all = f.all; net = tt }
    after_tap-KeepsUp (some fd) r (nic, ok done) f = record { all = f.all; net = tt }
    after_tap-KeepsUp fd r (nic, err e) f = tt

    serve_tap-KeepsUp :
        (fd : ℕ) (r : State) (net : Option (Nic G R I))
        → HasNet (some fd) net
        → Forwards (some fd) r
        → KeepsUp (some fd) (serve_tap C G R I net_cause VcpuError fuel r net)
    serve_tap-KeepsUp fd r none h f = h
    serve_tap-KeepsUp fd r (some nic) h f =
        let ended =
          process_tap_ends G R I pending drains fuel fuel nic (enough nic.tap) (omega arith) in
        rw (ended.1) (after_tap-KeepsUp (some fd) r ended.0 f)

    at_interface :
        (b : Bool) (fd : ℕ) (r : State)
        → Forwards (some fd) r
        → KeepsUp
            (some fd)
            (if b then serve_tap C G R I net_cause VcpuError fuel r r.net else going r)
    at_interface true fd r f = serve_tap-KeepsUp fd r r.net f.net f
    at_interface false fd r f = f

    interface-KeepsUp :
        (fd : Option ℕ) (event_data : ℕ) (r : State)
        → Forwards fd r
        → KeepsUp fd (
            if is_interface C G R I net_cause VcpuError fd event_data
            then serve_tap C G R I net_cause VcpuError fuel r r.net
            else going r)
    interface-KeepsUp none event_data r f = f
    interface-KeepsUp (some fd) event_data r f = at_interface (fd == event_data) fd r f

    at_stdin :
        (b : Bool) (fd : Option ℕ) (r : State)
        → Forwards fd r
        → KeepsUp fd (if b then read_stdin C G R I net_cause VcpuError r else going r)
    unfolding read_stdin
    at_stdin true fd r f = after_read-KeepsUp fd r (C.read_raw 64 r.world) refl f
    at_stdin false fd r f = f

    handle_events-KeepsUp :
        (fd : Option ℕ) (events : List ℕ) (r : State)
        → Forwards fd r
        → KeepsUp fd (handle_events C G R I net_cause VcpuError fuel fd events r)
    unfolding handle_events handle_event
    handle_events-KeepsUp fd [] r f = f
    handle_events-KeepsUp fd (event ∷ events) r f =
        and_then-KeepsUp fd (handle_event C G R I net_cause VcpuError fuel fd (u32 event) r)
          (handle_events C G R I net_cause VcpuError fuel fd events)
          (and_then-KeepsUp fd _ _ (at_stdin (u32 event == stdin_fileno) fd r f)
            (λ r' f'. interface-KeepsUp fd (u32 event) r' f'))
          (λ r' f'. handle_events-KeepsUp fd events r' f')

    after_error :
        (b : Bool) (fd : Option ℕ) (r : State) (e : RunError C G R I net_cause VcpuError)
        → Forwards fd r
        → KeepsUp fd (if b then going r else stopped r e)
    after_error true fd r e f = f
    after_error false fd r e f = tt

    after_wait-KeepsUp :
        (fd : Option ℕ) (r : State) (p : C.World × Result Cause (List ℕ))
        → L.received p.0 ≡ L.received r.world
        → Forwards fd r
        → KeepsUp fd (after_wait C G R I net_cause VcpuError fuel fd r p)
    after_wait-KeepsUp fd r (world, ok events) e f =
        handle_events-KeepsUp fd events (record r { world = world })
          (record { all = Tally-moved C _ _ _ _ _ [] e f.all; net = f.net })
    after_wait-KeepsUp fd r (world, err x) e f =
        after_error (C.is_interrupted x) fd (record r { world = world }) _
          (record { all = Tally-moved C _ _ _ _ _ [] e f.all; net = f.net })

    event_loop-KeepsUp :
        (rounds : ℕ) (fd : Option ℕ) (r : State)
        → Forwards fd r
        → KeepsUp fd (event_loop C G R I net_cause VcpuError fuel rounds fd r)
    unfolding event_loop
    event_loop-KeepsUp zero fd r f = f
    event_loop-KeepsUp (suc rounds) fd r f =
        and_then-KeepsUp fd _ _
          (after_wait-KeepsUp fd r (C.wait epoll_events_len r.world)
            (L.waited epoll_events_len r.world) f)
          (λ r' f'. event_loop-KeepsUp rounds fd r' f')

    net-HasNet :
        (raw_fd : I.Tap → ℕ) (net : Option (Nic G R I))
        → HasNet (interface_fd_of C G R I net_cause VcpuError raw_fd net) net
    net-HasNet raw_fd none = tt
    net-HasNet raw_fd (some nic) = tt

    pub in_raw_mode-KeepsUp :
        (raw_fd : I.Tap → ℕ) (rounds : ℕ) (r : State) (p : C.World × Result Errno (Unit {0}))
        → Even p.0 r.serial
        → KeepsUp
            (interface_fd_of C G R I net_cause VcpuError raw_fd r.net)
            (in_raw_mode C G R I net_cause VcpuError raw_fd fuel rounds r p)
    in_raw_mode-KeepsUp raw_fd rounds r (world, ok done) all =
        event_loop-KeepsUp rounds (interface_fd_of C G R I net_cause VcpuError raw_fd r.net)
          (record r { world = world }) (record { all = all; net = net-HasNet raw_fd r.net })
    in_raw_mode-KeepsUp raw_fd rounds r (world, err x) all = tt

module _ {Cause Errno : Type 0} (C : Terminal Cause Errno) (L : Logs C) (G : GuestMemory)
    (R : RxQueue G) (I : Interface) (net_cause : NetError G R → Cause) (VcpuError : Type 0)
    (pending : I.Tap → ℕ) (drains : Drains G R I pending) (fuel : ℕ)
    (enough : (t : I.Tap) → pending t < fuel) where
  -- On an interface that holds fewer frames than the fuel, of which every read takes one, `run` either
  -- goes on through all its rounds or is stopped by an error: it never panics at a missing device.
  -- As long as it goes on, the bytes that were read from the terminal since its start have all been put
  -- into the serial device, in their order, by calls of `enqueue_raw_bytes`, and the serial device has
  -- got of each call the bytes from its front that it answered to have taken, and no others. Where the
  -- device takes fewer bytes than it is given, the rest of that call is lost.
  pub run-KeepsUp :
      (raw_fd : I.Tap → ℕ) (rounds : ℕ) (r : Running C G R I net_cause VcpuError)
      → KeepsUp C L G R I net_cause VcpuError r.world r.serial
          (interface_fd_of C G R I net_cause VcpuError raw_fd r.net)
          (run C G R I net_cause VcpuError raw_fd fuel rounds r)
  unfolding run
  run-KeepsUp raw_fd rounds r =
      in_raw_mode-KeepsUp C L G R I net_cause VcpuError r.world r.serial pending drains fuel enough
        raw_fd rounds r (C.set_raw_mode r.world)
        (Tally-moved C _ _ _ _ _ [] (L.raw_mode r.world)
          (start-Tally C (L.received r.world) (L.queued r.serial)))
