-- ===== src/Vmm/Stages.antt =====
-- The operations before the vCPUs, on a host that serves every call.
use lumper.Base.{
  ℕ, ◌*◌, ◌^◌, ◌<◌, ◌≡◌, refl, ◌∙◌, sym, ap, Option, none, some, List, [], ◌∷◌, arith, u64, ◌<<<◌,
  Result, ok, Eff,
}
use lumper.Memory.{GuestMemory, Covers}
use lumper.Epoll.{add_fd, epollin}
use lumper.Kernel.Setup.{Loader}
use lumper.Vcpu.{Kvm}
use lumper.Vmm.{KvmVm, MemoryRegion, MachineError, on_vm}
use lumper.Vmm.Host.{Host, Vmm, on_machine, on_world}
use lumper.Vmm.Configured.{returned}
use lumper.Vmm.Configure.{
  register_regions, configure_memory, configure_console, configure_net, register_net_irq,
  configure_io,
}
use lumper.Vmm.Serving.{Prepares, Hosts, WithDevice}

module _ {Cause : Type 0} {G : GuestMemory} (K : Kvm) (V : KvmVm K) {Ld : Loader G Cause}
    (H : Host G Cause Ld) {Unwatched : ℕ → ℕ → H.World → Type 0} {no_devices : H.Manager}
    {bytes : ℕ} {console : Option Ld.FilePath} {if_name : Option (List ℕ)}
    (S : Hosts H Unwatched no_devices bytes console if_name) (A : Prepares K V) where
  -- An operation that succeeds and leaves memory and the vCPUs as they are.
  pub record Passes (outcome : Vmm K V H × Result (MachineError Cause G K V) (Unit {0}))
      (v : Vmm K V H) : Type 0 where
    pub final : Vmm K V H
    pub returns : outcome ≡ (final, ok tt)
    pub memory : final.machine.memory ≡ v.machine.memory
    pub vcpus : final.machine.vcpus ≡ v.machine.vcpus

  on_vm_ok :
      (p : Eff V.Vm K.KvmError (Unit {0})) (v : Vmm K V H)
      → (p v.machine.vm).1 ≡ ok tt
      → on_machine K V H (on_vm Cause G K V p) v
        ≡ (record v { machine = record (v.machine) { vm = (p v.machine.vm).0 } }, ok tt)
  on_vm_ok p v h = rw (returned (p v.machine.vm) tt h) refl

  on_world_ok :
      {B : Type 0} (p : Eff H.World Cause B) (e : Cause → MachineError Cause G K V) (v : Vmm K V H)
      (b : B)
      → (p v.world).1 ≡ ok b
      → on_world K V H p e v ≡ (record v { world = (p v.world).0 }, ok b)
  on_world_ok p e v b h = rw (returned (p v.world) b h) refl

  -- The command line and the devices stay.
  pub configure_console_ok :
      (path : Option Ld.FilePath) (v : Vmm K V H)
      → console ≡ path
      → (p : Passes (configure_console K V H path v) v) × (p.final.cmdline ≡ v.cmdline)
        × (p.final.virtio_manager ≡ v.virtio_manager)
  unfolding configure_console
  configure_console_ok none v asked =
      (record { final = v; returns = refl; memory = refl; vcpus = refl }, refl, refl)
  configure_console_ok (some path) v asked = (
    record {
      final = record after_file {
        serial = serial.0;
        world = (H.serial_new file.0 after_file.world).0;
      };
      returns =
          rw
            (
              returned (H.create_file path v.world) file.0 file.1,
              returned (H.serial_new file.0 after_file.world) serial.0 serial.1,
            )
            refl;
      memory = refl;
      vcpus = refl;
    },
    refl,
    refl,
  )
    where
      file : (f : Ld.File) × ((H.create_file path v.world).1 ≡ ok f)
      file = S.file_created path v.world asked

      after_file : Vmm K V H
      after_file = record v { world = (H.create_file path v.world).0 }

      serial : (s : H.Serial) × ((H.serial_new file.0 after_file.world).1 ≡ ok s)
      serial = S.serial_made file.0 after_file.world

  -- The device is the first one; the command line is then the one that names it.
  pub configure_net_ok :
      (name : Option (List ℕ)) (v : Vmm K V H) (line : Ld.Cmdline)
      → if_name ≡ name
      → v.virtio_manager ≡ no_devices
      → WithDevice H name v.cmdline line
      → (p : Passes (configure_net K V H name v) v) × (p.final.cmdline ≡ line)
  unfolding configure_net add_fd
  configure_net_ok none v line asked first same =
      (record { final = v; returns = refl; memory = refl; vcpus = refl }, sym same)
  configure_net_ok (some name) v line asked first named = (
    record {
      final = record v {
        world = w3;
        virtio_net = some net.0;
        virtio_manager = (H.register_mmio net.0 0xd000_0000 0x1000 5 v.virtio_manager).0;
        cmdline = line;
      };
      returns =
          rw
            (
              returned (H.eventfd_new v.world) irq.0 irq.1,
              returned (H.net_new v.machine.memory irq.0 name w1) net.0 net.1,
              returned
                  (H.epoll_calls.ctl_add v.epoll.raw_fd (H.net_fd net.0)
                    (record { events = epollin; data_ = H.net_fd net.0 }) w2)
                  tt (S.epoll_added _ _ _ _ (net.2 v.epoll.raw_fd)),
              returned (H.register_mmio net.0 0xd000_0000 0x1000 5 v.virtio_manager) tt registered,
              named,
            )
            refl;
      memory = refl;
      vcpus = refl;
    },
    refl,
  )
    where
      irq : (fd : ℕ) × ((H.eventfd_new v.world).1 ≡ ok fd)
      irq = S.eventfd_made v.world

      w1 : H.World
      w1 = (H.eventfd_new v.world).0

      net :
          (n : H.Net) × ((H.net_new v.machine.memory irq.0 name w1).1 ≡ ok n)
          × ((epoll : ℕ)
              → Unwatched epoll (H.net_fd n) (H.net_new v.machine.memory irq.0 name w1).0)
      net = S.net_made v.machine.memory irq.0 name w1 asked

      w2 : H.World
      w2 = (H.net_new v.machine.memory irq.0 name w1).0

      w3 : H.World
      w3 =
          (H.epoll_calls.ctl_add v.epoll.raw_fd (H.net_fd net.0)
            (record { events = epollin; data_ = H.net_fd net.0 }) w2).0

      registered : (H.register_mmio net.0 0xd000_0000 0x1000 5 v.virtio_manager).1 ≡ ok tt
      registered =
          ap (λ g. (H.register_mmio net.0 0xd000_0000 0x1000 5 g).1) first ∙ S.mmio_registered net.0

  register_net_irq_ok :
      (net : Option H.Net) (v : Vmm K V H) → Passes (register_net_irq K V H net v) v
  unfolding register_net_irq
  register_net_irq_ok none v = record { final = v; returns = refl; memory = refl; vcpus = refl }
  register_net_irq_ok (some net) v = record {
    final = record v {
      machine = record (v.machine) {
        vm = (V.register_irqfd (H.guest_irq_fd net) 5 v.machine.vm).0;
      };
    };
    returns = on_vm_ok (V.register_irqfd (H.guest_irq_fd net) 5) v (A.irqfd _ _ _);
    memory = refl;
    vcpus = refl;
  }

  pub configure_io_ok : (v : Vmm K V H) → Passes (configure_io K V H v) v
  unfolding configure_io
  configure_io_ok v = record {
    final = last.final;
    returns =
        rw
          (
            returned (V.create_irq_chip v.machine.vm) tt (A.irq_chip _),
            returned (H.serial_eventfd v.serial v.world) fd.0 fd.1,
            returned (V.register_irqfd fd.0 4 vm1) tt (A.irqfd _ _ _),
          )
          last.returns;
    memory = last.memory;
    vcpus = last.vcpus;
  }
    where
      vm1 : V.Vm
      vm1 = (V.create_irq_chip v.machine.vm).0

      fd : (n : ℕ) × ((H.serial_eventfd v.serial v.world).1 ≡ ok n)
      fd = S.serial_event v.serial v.world

      ready : Vmm K V H
      ready = record v {
        machine = record (v.machine) { vm = (V.register_irqfd fd.0 4 vm1).0 };
        world = (H.serial_eventfd v.serial v.world).0;
      }

      last : Passes (register_net_irq K V H v.virtio_net ready) ready
      last = register_net_irq_ok v.virtio_net ready

  -- `configure_memory` succeeds with one region that covers so many megabytes, and keeps the
  -- command line and the devices.
  pub configure_memory_ok :
      (mem_size_mb : ℕ) (v : Vmm K V H)
      → mem_size_mb < 2 ^ 32
      → mem_size_mb * 2 ^ 20 ≡ bytes
      → (final : Vmm K V H) × (configure_memory K V H mem_size_mb v ≡ (final, ok tt))
        × Covers G final.machine.memory 0 (mem_size_mb * 2 ^ 20)
        × (final.machine.vcpus ≡ v.machine.vcpus)
        × (final.cmdline ≡ v.cmdline)
        × (final.virtio_manager ≡ v.virtio_manager)
  unfolding configure_memory register_regions
  configure_memory_ok mem_size_mb v few is = (
    record v {
      machine = record (v.machine) {
        memory = made.0;
        vm = (V.set_user_memory_region region v.machine.vm).0;
      };
    },
    rw
        (
          size,
          made.1,
          made.2,
          returned (V.set_user_memory_region region v.machine.vm) tt (A.region_set _ _),
        )
        refl,
    λ i h. made.3 i (omega arith),
    refl,
    refl,
    refl,
  )
    where
      n : ℕ
      n = bytes

      size : u64 (mem_size_mb <<< 20) ≡ n
      size = omega arith

      made :
          (m : G.State) × (H.from_ranges (record { start = 0; len = n } ∷ []) ≡ ok m)
          × (H.regions m ≡ record { start = 0; len = n } ∷ [])
          × Covers G m 0 n
      made = S.ranges_made

      region : MemoryRegion
      region = record {
        slot = 0;
        guest_phys_addr = 0;
        memory_size = n;
        userspace_addr = H.host_address made.0 0;
      }
