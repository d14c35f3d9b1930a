-- ===== src/Vmm/New.antt =====
-- `VMM::new` of src/vmm/src/lib.rs.
use lumper.Base.{ℕ, ◌+◌, none, [], Result, ok, Eff, ◌>>=◌, ◌>>◌, tried, map_err}
use lumper.Memory.{GuestMemory}
use lumper.Errors.{kvm_ioctl, epoll_error, serial_creation, allocator, cmdline}
use lumper.Epoll
use lumper.Epoll.{add_stdin}
use lumper.Kernel.Setup.{Loader}
use lumper.Vcpu.{Kvm}
use lumper.Vmm.{KvmVm, MachineError}
use lumper.Vmm.Host.{Host, Vmm}
use lumper.Vmm.Configure.{serial1_irq}

abbrev pub cmdline_max_size : ℕ
cmdline_max_size = 4096

abbrev ioapic_max_irq : ℕ
ioapic_max_irq = 23

abbrev x86_irq_base : ℕ
x86_irq_base = serial1_irq + 1

module _ {Cause : Type 0} {G : GuestMemory} (K : Kvm) (V : KvmVm K) {Ld : Loader G Cause}
    (H : Host G Cause Ld) where
  -- What the host gives to a new machine. An interrupt allocator is not used after it is made.
  pub record Creates : Type 1 where
    pub KvmFd : Type 0
    pub kvm_new : Eff H.World K.KvmError KvmFd
    pub create_vm : KvmFd → Eff H.World K.KvmError V.Vm
    pub stdout : Ld.File
    -- `GuestMemoryMmap::default()` and `IoManager::new()`
    pub no_memory : G.State
    pub no_devices : H.Manager
    pub id_allocator_new : ℕ → ℕ → Result Cause (Unit {0})

  unfoldable pub new : Creates → Eff H.World (MachineError Cause G K V) (Vmm K V H)
  unfolding Epoll.new add_stdin
  new C = do
    kvm ← map_err C.kvm_new kvm_ioctl
    vm ← map_err (C.create_vm kvm) kvm_ioctl
    epoll ← map_err (Epoll.new H.epoll_calls) epoll_error
    map_err (add_stdin H.epoll_calls epoll) epoll_error
    serial ← map_err (H.serial_new C.stdout) serial_creation
    tried (C.id_allocator_new x86_irq_base ioapic_max_irq) allocator
    line ← tried (Ld.cmdline_new cmdline_max_size) cmdline
    (λ w. (
      w,
      ok (record {
        machine = record { memory = C.no_memory; vm = vm; vcpus = [] };
        serial = serial;
        virtio_manager = C.no_devices;
        virtio_net = none;
        cmdline = line;
        epoll = epoll;
        world = w;
      }),
    ))
