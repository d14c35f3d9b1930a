-- ===== src/Main.antt =====
-- src/main.rs: the program, from the options that clap has parsed on. The level of verbosity is
-- not used.
pub mod Runs
use lumper.Base.{◌⊎◌, inl, inr, ℕ, Option, none, some, List, Result, ok, err}
use lumper.Memory.{GuestMemory}
use lumper.Errors.{VmmError, panic}
use lumper.Kernel.Setup.{Loader}
use lumper.Net.Frame.{RxQueue, NetError}
use lumper.Net.Device.{Interface, Nic}
use lumper.Vcpu.{Kvm, VcpuError}
use lumper.Vmm.{KvmVm, MachineError}
use lumper.Vmm.Host.{Host, Vmm}
use lumper.Vmm.Configure.{configure}
use lumper.Vmm.New
use lumper.Vmm.New.{Creates}
use lumper.Vmm.Events
use lumper.Vmm.Events.{Terminal, Running, LoopTurn, Turn, going, stopped, panicked, out_of_fuel}

-- `VMMOpts`
pub record VmmOpts (FilePath : Type 0) : Type 0 where
  pub kernel : FilePath
  pub initramfs : Option FilePath
  pub cpus : ℕ
  pub memory : ℕ
  pub console : Option FilePath
  pub net : Option (List ℕ)

-- `Error`
pub data Error (E : Type 0) : Type 0 where
  vmm_new : E → Error E
  vmm_configure : E → Error E
  vmm_run : E → Error E

module _ {Cause : Type 0} {G : GuestMemory} (K : Kvm) (V : KvmVm K) {Ld : Loader G Cause}
    (H : Host G Cause Ld) (C : Terminal Cause K.KvmError) (R : RxQueue G) (I : Interface)
    (net_cause : NetError G R → Cause) where
  abbrev pub Loop : Type 0
  Loop = Running C G R I net_cause (VcpuError G K)

  -- The parts of the machine that the loop works on.
  abbrev pub Wiring : Type 0
  Wiring = Vmm K V H → Loop

  abbrev pub MainTurn : Type 0
  MainTurn = Turn Loop (Error (MachineError Cause G K V))

  -- `.map_err(Error::VmmRun)`
  abbrev pub ran : LoopTurn C G R I net_cause (VcpuError G K) → MainTurn
  ran (going r) = going r
  ran (stopped r e) = stopped r (vmm_run e)
  ran panicked = panicked
  ran out_of_fuel = out_of_fuel

  module _ (wiring : Wiring) (raw_fd : I.Tap → ℕ) (fuel rounds : ℕ) (default_cmdline : List ℕ)
      (opts : VmmOpts Ld.FilePath) where
    abbrev pub after_configure : Vmm K V H × Result (MachineError Cause G K V) (Unit {0}) → MainTurn
    after_configure (vmm, ok done) =
        ran (Events.run C G R I net_cause (VcpuError G K) raw_fd fuel rounds (wiring vmm))
    after_configure (vmm, err panic) = panicked
    after_configure (vmm, err e) = stopped (wiring vmm) (vmm_configure e)

    -- Before there is a machine an error leaves none.
    abbrev pub after_new :
        H.World × Result (MachineError Cause G K V) (Vmm K V H)
        → MainTurn ⊎ Error (MachineError Cause G K V)
    after_new (w, ok vmm) = inl (
        after_configure (
          configure K V H default_cmdline opts.cpus opts.memory opts.kernel opts.console
            opts.initramfs opts.net vmm))
    after_new (w, err e) = inr (vmm_new e)

    unfoldable pub main : Creates K V H → H.World → MainTurn ⊎ Error (MachineError Cause G K V)
    main host w = after_new (New.new K V H host w)
