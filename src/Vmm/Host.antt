-- ===== src/Vmm/Host.antt =====
-- The fields of `VMM` of src/vmm/src/lib.rs, with what the host and the other crates give to it.
use lumper.Base.{ℕ, List, Option, Eff, Result, ok, err}
use lumper.Memory.{GuestMemory}
use lumper.Epoll.{EpollCalls, EpollContext}
use lumper.Kernel.Setup.{Loader}
use lumper.Vcpu.{Kvm}
use lumper.Vmm.{KvmVm, Machine, MachineError}

-- A region of guest memory, by its first address and its length.
pub record Region : Type 0 where
  pub start : ℕ
  pub len : ℕ

-- Descriptors of the host are numbers. `World` is all that the calls change on the host.
pub record Host (G : GuestMemory) (Cause : Type 0) (Ld : Loader G Cause) : Type 1 where
  pub World : Type 0
  -- `GuestMemoryMmap::from_ranges`, its iterator, and the host address of the start of a region.
  pub from_ranges : List Region → Result Cause G.State
  pub regions : G.State → List Region
  pub host_address : G.State → ℕ → ℕ
  -- `EventFd::new`
  pub eventfd_new : Eff World Cause ℕ
  -- `File::create`, and `LumperSerial` with its event.
  pub Serial : Type 0
  pub create_file : Ld.FilePath → Eff World Cause Ld.File
  pub serial_new : Ld.File → Eff World Cause Serial
  pub serial_eventfd : Serial → Eff World Cause ℕ
  -- `VirtioNet`, made of guest memory, the descriptor of its interrupt and the name of the interface.
  pub Net : Type 0
  pub net_new : G.State → ℕ → List ℕ → Eff World Cause Net
  pub net_fd : Net → ℕ
  pub guest_irq_fd : Net → ℕ
  pub epoll_calls : EpollCalls World Cause
  -- `IoManager::register_mmio_resources`: device, base, size and line.
  pub Manager : Type 0
  pub register_mmio : Net → ℕ → ℕ → ℕ → Eff Manager Cause (Unit {0})
  -- `Cmdline::add_virtio_mmio_device`: size, address and line.
  pub add_virtio_mmio_device : ℕ → ℕ → ℕ → Ld.Cmdline → Result Cause Ld.Cmdline

module _ {Cause : Type 0} {G : GuestMemory} (K : Kvm) (V : KvmVm K) {Ld : Loader G Cause}
    (H : Host G Cause Ld) where
  pub record Vmm : Type 0 where
    pub machine : Machine Cause G K V
    pub serial : H.Serial
    pub virtio_manager : H.Manager
    pub virtio_net : Option H.Net
    pub cmdline : Ld.Cmdline
    pub epoll : EpollContext
    pub world : H.World

  abbrev pub VmmEff : Type 0 → Type 0
  VmmEff A = Eff Vmm (MachineError Cause G K V) A

  abbrev with_machine :
      {A : Type 0}
      → Vmm
      → Machine Cause G K V × Result (MachineError Cause G K V) A
      → Vmm × Result (MachineError Cause G K V) A
  with_machine v (m, r) = (record v { machine = m }, r)

  abbrev pub with_world :
      {A : Type 0}
      → (Cause → MachineError Cause G K V)
      → Vmm
      → H.World × Result Cause A
      → Vmm × Result (MachineError Cause G K V) A
  with_world e v (w, ok a) = (record v { world = w }, ok a)
  with_world e v (w, err x) = (record v { world = w }, err (e x))

  abbrev pub with_manager :
      {A : Type 0}
      → (Cause → MachineError Cause G K V)
      → Vmm
      → H.Manager × Result Cause A
      → Vmm × Result (MachineError Cause G K V) A
  with_manager e v (w, ok a) = (record v { virtio_manager = w }, ok a)
  with_manager e v (w, err x) = (record v { virtio_manager = w }, err (e x))

  abbrev with_memory :
      {A : Type 0}
      → Vmm
      → G.State × Result (MachineError Cause G K V) A
      → Vmm × Result (MachineError Cause G K V) A
  with_memory v (m, r) = (record v { machine = record (v.machine) { memory = m } }, r)

  abbrev pub on_machine :
      {A : Type 0} → Eff (Machine Cause G K V) (MachineError Cause G K V) A → VmmEff A
  on_machine p v = with_machine v (p v.machine)

  abbrev pub on_world :
      {A : Type 0} → Eff H.World Cause A → (Cause → MachineError Cause G K V) → VmmEff A
  on_world p e v = with_world e v (p v.world)

  abbrev pub on_manager :
      {A : Type 0} → Eff H.Manager Cause A → (Cause → MachineError Cause G K V) → VmmEff A
  on_manager p e v = with_manager e v (p v.virtio_manager)

  abbrev pub on_guest_memory : {A : Type 0} → Eff G.State (MachineError Cause G K V) A → VmmEff A
  on_guest_memory p v = with_memory v (p v.machine.memory)

  -- An assignment to the fields.
  abbrev pub modify : (Vmm → Vmm) → VmmEff (Unit {0})
  modify f v = (f v, ok tt)
