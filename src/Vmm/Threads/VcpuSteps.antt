-- ===== src/Vmm/Threads/VcpuSteps.antt =====
-- A vCPU that serves an exit keeps what holds of the threads.
use lumper.Base.{
  sym, subst, ◌&&◌, ℕ, ◌≡◌, refl, arith, Bool, true, false, Option, none, some, List, [], ◌∷◌,
  if◌then◌else◌,
}
use lumper.Memory.{GuestMemory}
use lumper.Net.Frame.{RxQueue, NetError}
use lumper.Net.Device.{Interface, Nic}
use lumper.Vcpu.Run.{
  VcpuExit, shutdown, hlt, other, failed, io_out, io_in, mmio_write, mmio_read, Board, Outcome,
  returns, exits, panics, Devices, is_serial_port, register_offset, wrote_serial, out_to_serial,
  in_from_serial, wrote_manager, read_manager, run,
}
use lumper.Vmm.Tally.{Logs}
use lumper.Vmm.Events.{Terminal}
use lumper.Vmm.Threads.{holds_stdin, Ports}
use lumper.Vmm.Threads.Interleaved.{
  locks_stdin, blocks, resumed, devices, locks_manager, after_exit, vcpu_step,
}
use lumper.Vmm.Threads.Steady.{
  State, KeepsNet, KeepsQueued, Accounted, Needed, fd_of, Inv, if-Inv, dies-Inv,
}

module _ {Cause Errno : Type 0} (C : Terminal Cause Errno) (N : Logs C) (G : GuestMemory)
    (R : RxQueue G) (I : Interface) (net_cause : NetError G R → Cause) (VcpuError : Type 0)
    (w0 : C.World) (s0 : C.Serial) where
  -- What a served exit leaves of the network device.
  module _ (P : Ports C G R I net_cause VcpuError) (K : KeepsNet C N G R I net_cause VcpuError P)
      (Q : KeepsQueued C N G R I net_cause VcpuError P) where
    abbrev D : Devices
    D = devices C G R I net_cause VcpuError P

    abbrev Kept : List ℕ → Bool → Option ℕ → Outcome (Board D) → Type 0
    Kept q stop fd (returns b bytes) =
        Needed C N G R I net_cause VcpuError fd b.manager × (N.queued b.serial ≡ q)
    Kept q stop fd exits = stop ≡ true
    Kept q stop fd panics = Unit

    wrote_serial-Kept :
        (stop : Bool) (fd : Option ℕ) (b : Board D) (bytes : List ℕ) (offset value : ℕ)
        (o : Option C.Serial)
        → P.serial_write offset value b.serial ≡ o
        → Needed C N G R I net_cause VcpuError fd b.manager
        → Kept (N.queued b.serial) stop fd (wrote_serial D b bytes o)
    wrote_serial-Kept stop fd b bytes offset value none e h = tt
    wrote_serial-Kept stop fd b bytes offset value (some serial) e h =
        (h, Q.write offset value b.serial serial e)

    out_to_serial-Kept :
        (stop : Bool) (fd : Option ℕ) (b : Board D) (bytes : List ℕ) (o : Option ℕ)
        → Needed C N G R I net_cause VcpuError fd b.manager
        → Kept (N.queued b.serial) stop fd (out_to_serial D b bytes o)
    out_to_serial-Kept stop fd b bytes none h = tt
    out_to_serial-Kept stop fd b [] (some offset) h = tt
    out_to_serial-Kept stop fd b (value ∷ bytes) (some offset) h =
        wrote_serial-Kept stop fd b (value ∷ bytes) offset value
          (P.serial_write offset value b.serial) refl h

    in_from_serial-Kept :
        (stop : Bool) (fd : Option ℕ) (b : Board D) (bytes : List ℕ) (o : Option ℕ)
        → Needed C N G R I net_cause VcpuError fd b.manager
        → Kept (N.queued b.serial) stop fd (in_from_serial D b bytes o)
    in_from_serial-Kept stop fd b bytes none h = tt
    in_from_serial-Kept stop fd b [] (some offset) h = tt
    in_from_serial-Kept stop fd b (value ∷ bytes) (some offset) h = (h, Q.read offset b.serial)

    at_port :
        (q : List ℕ) (stop : Bool) (fd : Option ℕ) (t : Bool) (o p : Outcome (Board D))
        → Kept q stop fd o
        → Kept q stop fd p
        → Kept q stop fd (if t then o else p)
    at_port q stop fd true o p h k = h
    at_port q stop fd false o p h k = k

    written-Kept :
        (stop : Bool) (fd : Option ℕ) (addr : ℕ) (bytes : List ℕ) (b : Board D)
        (net : Option (Nic G R I)) (o : Option (Option (Nic G R I)))
        → P.manager_write addr bytes net ≡ o
        → Needed C N G R I net_cause VcpuError fd net
        → Kept (N.queued b.serial) stop fd (wrote_manager D b bytes o)
    written-Kept stop fd addr bytes b net none e h = tt
    written-Kept stop none addr bytes b net (some net') e h = (tt, refl)
    written-Kept stop (some fd) addr bytes b (some nic) (some net') e h =
        (K.write addr bytes nic net' e, refl)
    written-Kept stop (some fd) addr bytes b none (some net') e h = absurd h

    got-Kept :
        (stop : Bool) (fd : Option ℕ) (addr : ℕ) (bytes : List ℕ) (b : Board D)
        (net : Option (Nic G R I)) (o : Option (Option (Nic G R I) × List ℕ))
        → P.manager_read addr bytes net ≡ o
        → Needed C N G R I net_cause VcpuError fd net
        → Kept (N.queued b.serial) stop fd (read_manager D b o)
    got-Kept stop fd addr bytes b net none e h = tt
    got-Kept stop none addr bytes b net (some (net', got)) e h = (tt, refl)
    got-Kept stop (some fd) addr bytes b (some nic) (some (net', got)) e h =
        (K.read addr bytes nic (net', got) e, refl)
    got-Kept stop (some fd) addr bytes b none (some (net', got)) e h = absurd h

    run-Kept :
        (fd : Option ℕ) (e : VcpuExit) (b : Board D)
        → Needed C N G R I net_cause VcpuError fd b.manager
        → Kept (N.queued b.serial) (locks_stdin C G R I net_cause VcpuError e) fd (run D e b)
    unfolding run
    run-Kept fd shutdown b h = at_port (N.queued b.serial) true fd P.set_canon_mode _ _ refl tt
    run-Kept fd hlt b h = at_port (N.queued b.serial) true fd P.set_canon_mode _ _ refl tt
    run-Kept fd other b h = (h, refl)
    run-Kept fd failed b h = (h, refl)
    run-Kept fd (io_out addr bytes) b h =
        at_port (N.queued b.serial) false fd (is_serial_port D addr) _ _
          (out_to_serial-Kept false fd b bytes (register_offset D addr) h) (h, refl)
    run-Kept fd (io_in addr bytes) b h =
        at_port (N.queued b.serial) false fd (is_serial_port D addr) _ _
          (in_from_serial-Kept false fd b bytes (register_offset D addr) h) (h, refl)
    run-Kept fd (mmio_write addr bytes) b h =
        written-Kept false fd addr bytes b b.manager (P.manager_write addr bytes b.manager) refl h
    run-Kept fd (mmio_read addr bytes) b h =
        got-Kept false fd addr bytes b b.manager (P.manager_read addr bytes b.manager) refl h

    after_exit-Inv :
        (index : ℕ) (e : VcpuExit) (s : State C N G R I net_cause VcpuError) (o : Outcome (Board D))
        → Kept
            (N.queued s.serial)
            (locks_stdin C G R I net_cause VcpuError e)
            (fd_of C N G R I net_cause VcpuError s.progress)
            o
        → (locks_stdin C G R I net_cause VcpuError e ≡ true → holds_stdin s.progress ≡ false)
        → Inv C N G R I net_cause VcpuError w0 s0 s
        → Inv C N G R I net_cause VcpuError w0 s0
            (after_exit C G R I net_cause VcpuError P index e s o)
    unfolding after_exit
    after_exit-Inv index e s (returns b bytes) k free h = record {
      accounted =
          subst
            (λ q.
              Accounted C N G R I net_cause VcpuError (N.received w0) (N.received s.world)
                (N.queued s0) q s.progress)
            (sym k.1) h.accounted;
      net = k.0;
      blamed = h.blamed;
      causes = record {
        by_serial = h.causes.by_serial;
        by_net = h.causes.by_net;
        by_manager = h.causes.by_manager;
      };
      quiet = h.quiet;
    }
    after_exit-Inv index e s exits k free h = record {
      accounted = h.accounted;
      net = h.net;
      blamed = h.blamed;
      causes = record {
        by_serial = h.causes.by_serial;
        by_net = h.causes.by_net;
        by_manager = h.causes.by_manager;
      };
      quiet = λ e. free k;
    }
    after_exit-Inv index e s panics k free h =
        dies-Inv C N G R I net_cause VcpuError w0 s0 index _
          (locks_manager C G R I net_cause VcpuError e) _ s (λ q. ground arith) h

    not_both : (a b : Bool) → (a && b) ≡ false → a ≡ true → b ≡ false
    not_both a b h k = ground arith

    blocks-Inv :
        (index : ℕ) (s : State C N G R I net_cause VcpuError)
        → Inv C N G R I net_cause VcpuError w0 s0 s
        → Inv C N G R I net_cause VcpuError w0 s0 (blocks C G R I net_cause VcpuError index s)
    blocks-Inv index s h = record {
      accounted = h.accounted;
      net = h.net;
      blamed = h.blamed;
      causes = record {
        by_serial = h.causes.by_serial;
        by_net = h.causes.by_net;
        by_manager = h.causes.by_manager;
      };
      quiet = h.quiet;
    }

    served-Inv :
        (index : ℕ) (e : VcpuExit) (s : State C N G R I net_cause VcpuError)
        → (locks_stdin C G R I net_cause VcpuError e ≡ true → holds_stdin s.progress ≡ false)
        → Inv C N G R I net_cause VcpuError w0 s0 s
        → Inv C N G R I net_cause VcpuError w0 s0 (
            after_exit C G R I net_cause VcpuError P index e s
              (run D e (record { serial = s.serial; manager = s.net })))
    served-Inv index e s free h =
        after_exit-Inv index e s _
          (run-Kept (fd_of C N G R I net_cause VcpuError s.progress) e
            (record { serial = s.serial; manager = s.net }) h.net)
          free h

    pub vcpu_step-Inv :
        (index : ℕ) (e : VcpuExit) (s : State C N G R I net_cause VcpuError)
        → Inv C N G R I net_cause VcpuError w0 s0 s
        → Inv C N G R I net_cause VcpuError w0 s0
            (vcpu_step C G R I net_cause VcpuError P index e s)
    unfolding vcpu_step
    vcpu_step-Inv index e s h =
        if-Inv C N G R I net_cause VcpuError w0 s0 _ _ _
          (λ t. dies-Inv C N G R I net_cause VcpuError w0 s0 index false false false s (λ q. q) h)
          (λ t.
            if-Inv C N G R I net_cause VcpuError w0 s0 _ _ _ (λ u. blocks-Inv index s h)
              (λ u. served-Inv index e s (λ stop. not_both _ _ u stop) h))

    pub resumed-Inv :
        (index : ℕ) (s : State C N G R I net_cause VcpuError)
        → holds_stdin s.progress ≡ false
        → Inv C N G R I net_cause VcpuError w0 s0 s
        → Inv C N G R I net_cause VcpuError w0 s0 (resumed C G R I net_cause VcpuError P index s)
    unfolding resumed
    resumed-Inv index s free h = served-Inv index hlt s (λ stop. free) h
