-- ===== src/Vmm.antt =====
-- src/vmm/src/lib.rs: the virtual machine and its vCPUs. The ioctls of `VmFd` and of `Kvm` are the
-- fields of `KvmVm`.
pub mod Vcpus
pub mod Indices
pub mod Booted
pub mod Configured
pub mod Ready
pub mod Host
pub mod Configure
pub mod Serving
pub mod Stages
pub mod Boot
pub mod Events
pub mod Tally
pub mod Threads
pub mod Forwards
pub mod New
pub mod MemoryMap
pub mod Wired
pub mod Watched
use lumper.Base.{ℕ, Bool, List, Eff, Result, ok, err}
use lumper.Memory.{GuestMemory}
use lumper.Cpuid.{CpuidEntry}
use lumper.Errors.{VmmError, kvm_ioctl, vcpu}
use lumper.Vcpu
use lumper.Vcpu.{Kvm, VcpuError}

-- `kvm_userspace_memory_region`; the flags are always 0.
pub record MemoryRegion : Type 0 where
  pub slot : ℕ
  pub guest_phys_addr : ℕ
  pub memory_size : ℕ
  pub userspace_addr : ℕ

-- The descriptor of KVM and the one of the machine, with what stands behind them. A vCPU is created
-- with its own state.
pub record KvmVm (K : Kvm) : Type 1 where
  pub Vm : Type 0
  pub get_supported_cpuid : Eff Vm K.KvmError (List CpuidEntry)
  -- `check_extension(TscDeadlineTimer)`
  pub tsc_deadline_timer : Vm → Bool
  pub create_vcpu : ℕ → Eff Vm K.KvmError K.State
  pub set_user_memory_region : MemoryRegion → Eff Vm K.KvmError (Unit {0})
  pub create_irq_chip : Eff Vm K.KvmError (Unit {0})
  -- The descriptor of the event and the line of the interrupt.
  pub register_irqfd : ℕ → ℕ → Eff Vm K.KvmError (Unit {0})

-- `Vcpu`, by its index and the state behind its descriptor.
pub record VcpuHandle (K : Kvm) : Type 0 where
  pub index : ℕ
  pub state : K.State

module _ (Cause : Type 0) (G : GuestMemory) (K : Kvm) (V : KvmVm K) where
  -- The fields `guest_memory`, `vm_fd` with `kvm`, and `vcpus` of `VMM`.
  pub record Machine : Type 0 where
    pub memory : G.State
    pub vm : V.Vm
    pub vcpus : List (VcpuHandle K)

  abbrev pub MachineError : Type 0
  MachineError = VmmError Cause K.KvmError (VcpuError G K)

  abbrev pub with_vm :
      {A : Type 0} → Machine → V.Vm × Result K.KvmError A → Machine × Result MachineError A
  with_vm m (vm, ok a) = (record m { vm = vm }, ok a)
  with_vm m (vm, err e) = (record m { vm = vm }, err (kvm_ioctl e))

  -- A call with `.map_err(Error::KvmIoctl)`.
  abbrev pub on_vm : {A : Type 0} → Eff V.Vm K.KvmError A → Eff Machine MachineError A
  on_vm p m = with_vm m (p m.vm)
