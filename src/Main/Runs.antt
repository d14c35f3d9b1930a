-- ===== src/Main/Runs.antt =====
-- The whole program on a host that serves every call.
use lumper.Base.{ℕ, ◌*◌, ◌^◌, ◌≡◌, ◌⊎◌, inl, true, List, ok}
use lumper.Memory.{GuestMemory, IsLawful}
use lumper.Epoll
use lumper.Kernel.Setup.{Loader}
use lumper.Net.Frame.{RxQueue, NetError}
use lumper.Net.Device.{Interface}
use lumper.Vcpu.{Kvm, VcpuError}
use lumper.Vmm.{KvmVm, MachineError}
use lumper.Vmm.Host.{Host, Vmm}
use lumper.Vmm.Configure.{configure}
use lumper.Vmm.Configured.{Obliges}
use lumper.Vmm.Ready.{Provides}
use lumper.Vmm.Serving.{Prepares, Hosts}
use lumper.Vmm.Boot.{Runnable}
use lumper.Vmm.New
use lumper.Vmm.New.{Creates}
use lumper.Vmm.Events
use lumper.Vmm.Events.{Terminal, LoopTurn, interface_fd_of}
use lumper.Vmm.Forwards.{KeepsUp}
use lumper.Vmm.Tally.{Logs}
use lumper.Main.{VmmOpts, Error, Wiring, MainTurn, ran}

-- What a new machine takes from the host is given. A new epoll does not watch standard input yet.
pub record Gives {Cause : Type 0} {G : GuestMemory} {K : Kvm} {V : KvmVm K} {Ld : Loader G Cause}
    {H : Host G Cause Ld} (C : Creates K V H) (Unwatched : ℕ → ℕ → H.World → Type 0) : Type 0 where
  pub kvm_made : (w : H.World) → (fd : C.KvmFd) × ((C.kvm_new w).1 ≡ ok fd)
  pub vm_made : (fd : C.KvmFd) (w : H.World) → (vm : V.Vm) × ((C.create_vm fd w).1 ≡ ok vm)
  pub epoll_made :
      (w : H.World)
      → (fd : ℕ) × ((H.epoll_calls.create true w).1 ≡ ok fd)
        × Unwatched fd 0 (H.epoll_calls.create true w).0
  pub allocator_made : C.id_allocator_new 5 23 ≡ ok tt
  pub line : Ld.Cmdline
  pub line_made : Ld.cmdline_new 4096 ≡ ok line

module _ {Cause : Type 0} {G : GuestMemory} (L : IsLawful G) (K : Kvm) (O : Obliges K) (V : KvmVm K)
    (P : Provides K V) (A : Prepares K V) {Ld : Loader G Cause} (H : Host G Cause Ld)
    {Unwatched : ℕ → ℕ → H.World → Type 0} (host : Creates K V H) (opts : VmmOpts Ld.FilePath)
    (S : Hosts H Unwatched host.no_devices (opts.memory * 2 ^ 20) opts.console opts.net)
    (C : Terminal Cause K.KvmError) (Lg : Logs C) (R : RxQueue G) (I : Interface)
    (net_cause : NetError G R → Cause) (wiring : Wiring K V H C R I net_cause) where
  -- The program comes to its loop with a machine that is ready to run, and keeps up with what is
  -- typed from then on.
  pub record Runs (outcome : MainTurn K V H C R I net_cause ⊎ Error (MachineError Cause G K V))
      (raw_fd : I.Tap → ℕ) (fuel rounds : ℕ) (default_cmdline : List ℕ) (w : H.World) : Type 0 where
    pub fresh : Vmm K V H
    pub created : New.new K V H host w ≡ (fresh.world, ok fresh)
    pub machine :
        Runnable L K O V P A H opts.memory S
          (configure K V H default_cmdline opts.cpus opts.memory opts.kernel opts.console
            opts.initramfs opts.net fresh)
          opts.cpus
    pub turn : LoopTurn C G R I net_cause (VcpuError G K)
    pub looped :
        Events.run C G R I net_cause (VcpuError G K) raw_fd fuel rounds (wiring machine.final)
        ≡ turn
    pub comes_to : outcome ≡ inl (ran K V H C R I net_cause turn)
    pub keeps_up :
        KeepsUp C Lg G R I net_cause
          (VcpuError G K)
          (wiring machine.final).world
          (wiring machine.final).serial
          (interface_fd_of C G R I net_cause (VcpuError G K) raw_fd (wiring machine.final).net)
          turn
