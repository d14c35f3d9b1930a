-- ===== src/Vmm/Threads/Steady.antt =====
-- What holds however the threads of a machine are interleaved, and whatever the guest does.
use lumper.Base.{
  ℕ, ◌≡◌, refl, arith, ◌⊎◌, Bool, true, false, ◌||◌, Option, none, some, List, [], if◌then◌else◌,
}
use lumper.Memory.{GuestMemory}
use lumper.Net.Frame.{RxQueue, NetError}
use lumper.Net.Device.{Interface, Nic}
use lumper.Vmm.Tally.{Logs, Tally}
use lumper.Vmm.Events.{Terminal}
use lumper.Vmm.Threads.{
  holds_stdin, Main, spawning, waiting, handling, typed, polling, panicked, out_of_fuel, Ports,
  ThreadError, Threads,
}
use lumper.Vmm.Threads.Interleaved.{dies}

-- A device that is there.
abbrev pub IsThere : {A : Type 0} → Option A → Type 0
IsThere none = ⊥
IsThere (some a) = Unit

module _ {Cause Errno : Type 0} (C : Terminal Cause Errno) (N : Logs C) (G : GuestMemory)
    (R : RxQueue G) (I : Interface) (net_cause : NetError G R → Cause) (VcpuError : Type 0) where
  abbrev pub State : Type 0
  State = Threads C G R I net_cause VcpuError

  abbrev pub Place : Type 0
  Place = Main (ThreadError C G R I net_cause VcpuError)

  -- The manager keeps its device.
  pub record KeepsNet (P : Ports C G R I net_cause VcpuError) : Type 0 where
    pub write :
        (addr : ℕ) (bytes : List ℕ) (nic : Nic G R I) (net : Option (Nic G R I))
        → P.manager_write addr bytes (some nic) ≡ some net
        → IsThere net
    pub read :
        (addr : ℕ) (bytes : List ℕ) (nic : Nic G R I) (got : Option (Nic G R I) × List ℕ)
        → P.manager_read addr bytes (some nic) ≡ some got
        → IsThere got.0

  -- What the guest does to the serial device is no answer to `enqueue_raw_bytes`.
  pub record KeepsQueued (P : Ports C G R I net_cause VcpuError) : Type 0 where
    pub write :
        (offset value : ℕ) (s s' : C.Serial)
        → P.serial_write offset value s ≡ some s'
        → N.queued s' ≡ N.queued s
    pub read : (offset : ℕ) (s : C.Serial) → N.queued (P.serial_read offset s).0 ≡ N.queued s

  -- With a descriptor there is a device.
  abbrev pub Needed : Option ℕ → Option (Nic G R I) → Type 0
  Needed none net = Unit
  Needed (some fd) net = IsThere net

  abbrev pub fd_of : Place → Option ℕ
  fd_of (waiting fd) = fd
  fd_of (handling fd events) = fd
  fd_of (typed fd bytes event_data events) = fd
  fd_of (polling fd event_data events) = fd
  fd_of m = none

  -- All that was read was put into the serial device, but for what the main thread still holds.
  abbrev pub Accounted : List ℕ → List ℕ → List ℕ → List ℕ → Place → Type 0
  Accounted r0 r q0 q (Main.failed e) = Unit
  Accounted r0 r q0 q panicked = Unit
  Accounted r0 r q0 q (typed fd bytes event_data events) = Tally C r0 r q0 q bytes
  Accounted r0 r q0 q m = Tally C r0 r q0 q []

  -- Why the main thread has panicked.
  abbrev pub Blamed : Bool → Bool → Place → Type 0
  Blamed serial net panicked = (serial ≡ true) ⊎ (net ≡ true)
  Blamed serial net out_of_fuel = ⊥
  Blamed serial net m = Unit

  -- Only a vCPU that panicked has left a lock poisoned; with the lock of the network device, that of
  -- the manager, under which it was taken.
  pub record Causes (s : State) : Type 0 where
    pub by_serial : s.serial_poisoned ≡ true → s.died ≡ [] → ⊥
    pub by_net : s.net_poisoned ≡ true → s.manager_poisoned ≡ true
    pub by_manager : s.manager_poisoned ≡ true → s.died ≡ [] → ⊥

  pub record Steady (w0 : C.World) (s0 : C.Serial) (m : Place) (s : State) : Type 0 where
    pub accounted :
        Accounted (N.received w0) (N.received s.world) (N.queued s0) (N.queued s.serial) m
    pub net : Needed (fd_of m) s.net
    pub blamed : Blamed s.serial_poisoned s.net_poisoned m
    pub causes : Causes s
    pub quiet : s.exited ≡ true → holds_stdin m ≡ false

  -- The same of threads in a process that has not exited.
  pub record Ready (s : State) : Type 0 where
    pub by_serial : s.serial_poisoned ≡ true → s.died ≡ [] → ⊥
    pub by_net : s.net_poisoned ≡ true → s.manager_poisoned ≡ true
    pub by_manager : s.manager_poisoned ≡ true → s.died ≡ [] → ⊥
    pub running : s.exited ≡ false

  module _ (w0 : C.World) (s0 : C.Serial) where
    abbrev pub Inv : State → Type 0
    Inv s = Steady w0 s0 s.progress s

    pub if-Inv :
        (b : Bool) (s t : State)
        → (b ≡ true → Inv s)
        → (b ≡ false → Inv t)
        → Inv (if b then s else t)
    if-Inv true s t f g = f refl
    if-Inv false s t f g = g refl

    Blamed-or : (a b x y : Bool) (m : Place) → Blamed a b m → Blamed (a || x) (b || y) m
    Blamed-or a b x y (spawning is) h = tt
    Blamed-or a b x y (waiting fd) h = tt
    Blamed-or a b x y (handling fd es) h = tt
    Blamed-or a b x y (typed fd bytes e es) h = tt
    Blamed-or a b x y (polling fd e es) h = tt
    Blamed-or a b x y (Main.failed e) h = tt
    Blamed-or a b x y panicked h = ground arith
    Blamed-or a b x y out_of_fuel h = h

    pub dies-Inv :
        (index : ℕ) (serial manager net : Bool) (s : State)
        → (net ≡ true → manager ≡ true)
        → Inv s
        → Inv (dies C G R I net_cause VcpuError index serial manager net s)
    dies-Inv index serial manager net s implies h = record {
      accounted = h.accounted;
      net = h.net;
      blamed = Blamed-or s.serial_poisoned s.net_poisoned serial net s.progress h.blamed;
      causes = record {
        by_serial = λ e none_died. cc;
        by_net = λ e. let k = h.causes.by_net in ground arith;
        by_manager = λ e none_died. cc;
      };
      quiet = h.quiet;
    }
