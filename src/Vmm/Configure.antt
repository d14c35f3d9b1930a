-- ===== src/Vmm/Configure.antt =====
-- `configure` of `VMM` and the operations that it calls, in src/vmm/src/lib.rs.
use lumper.Base.{
  ℕ, ◌+◌, ◌<<<◌, Option, none, some, List, [], ◌∷◌, u32, u64, ◌>>=◌, ◌>>◌, pure, tried,
}
use lumper.Memory.{GuestMemory}
use lumper.Errors.{
  cmdline, memory, serial_creation, irq_register, epoll_error, console_error, virtio_net,
  io_manager,
}
use lumper.Epoll.{add_fd}
use lumper.Kernel.Setup.{Loader, kernel_setup}
use lumper.Vcpu.{Kvm, VcpuError}
use lumper.Vmm.{KvmVm, on_vm}
use lumper.Vmm.Host.{
  Region, Host, VmmEff, on_machine, on_world, on_manager, on_guest_memory, modify,
}
use lumper.Vmm.Vcpus.{configure_vcpus}

abbrev pub serial1_irq : ℕ
serial1_irq = 4

-- `DEFAULT_CMDLINE` of src/vmm/src/kernel.rs is an argument, the bytes of the text.
module _ {Cause : Type 0} {G : GuestMemory} (K : Kvm) (V : KvmVm K) {Ld : Loader G Cause}
    (H : Host G Cause Ld) where
  -- `for (index, region) in guest_memory.iter().enumerate()`
  unfoldable pub register_regions : G.State → ℕ → List Region → VmmEff K V H (Unit {0})
  register_regions guest_memory index [] = pure tt
  register_regions guest_memory index (region ∷ rest) = do
    on_machine K V H (
        on_vm Cause G K V (
          V.set_user_memory_region (record {
            slot = u32 index;
            guest_phys_addr = region.start;
            memory_size = region.len;
            userspace_addr = H.host_address guest_memory region.start;
          })))
    register_regions guest_memory (index + 1) rest

  unfoldable pub configure_memory : ℕ → VmmEff K V H (Unit {0})
  unfolding register_regions
  configure_memory mem_size_mb = do
    guest_memory ←
        tried (H.from_ranges (record { start = 0; len = u64 (mem_size_mb <<< 20) } ∷ [])) memory
    register_regions guest_memory 0 (H.regions guest_memory)
    modify K V H (λ v. record v { machine = record (v.machine) { memory = guest_memory } })

  unfoldable pub load_default_cmdline : List ℕ → VmmEff K V H (Unit {0})
  load_default_cmdline default_cmdline = do
    line ← (λ v. tried (Ld.insert_str default_cmdline v.cmdline) cmdline v)
    modify K V H (λ v. record v { cmdline = line })

  unfoldable pub configure_console : Option Ld.FilePath → VmmEff K V H (Unit {0})
  configure_console none = pure tt
  configure_console (some console_path) = do
    file ← on_world K V H (H.create_file console_path) console_error
    serial ← on_world K V H (H.serial_new file) serial_creation
    modify K V H (λ v. record v { serial = serial })

  unfoldable pub configure_net : Option (List ℕ) → VmmEff K V H (Unit {0})
  configure_net none = pure tt
  configure_net (some if_name) = do
    irq_fd ← on_world K V H H.eventfd_new irq_register
    net ← (λ v. on_world K V H (H.net_new v.machine.memory irq_fd if_name) virtio_net v)
    (λ v. on_world K V H (add_fd H.epoll_calls v.epoll (H.net_fd net)) epoll_error v)
    modify K V H (λ v. record v { virtio_net = some net })
    on_manager K V H (H.register_mmio net 0xd000_0000 0x1000 5) io_manager
    line ← (λ v. tried (H.add_virtio_mmio_device 0x1000 0xd000_0000 5 v.cmdline) cmdline v)
    modify K V H (λ v. record v { cmdline = line })

  unfoldable pub register_net_irq : Option H.Net → VmmEff K V H (Unit {0})
  register_net_irq none = pure tt
  register_net_irq (some net) =
      on_machine K V H (on_vm Cause G K V (V.register_irqfd (H.guest_irq_fd net) 5))

  unfoldable pub configure_io : VmmEff K V H (Unit {0})
  unfolding register_net_irq
  configure_io = do
    on_machine K V H (on_vm Cause G K V V.create_irq_chip)
    fd ← (λ v. on_world K V H (H.serial_eventfd v.serial) irq_register v)
    on_machine K V H (on_vm Cause G K V (V.register_irqfd fd serial1_irq))
    (λ v. register_net_irq v.virtio_net v)

  unfoldable pub configure :
      List ℕ
      → ℕ
      → ℕ
      → Ld.FilePath
      → Option Ld.FilePath
      → Option Ld.FilePath
      → Option (List ℕ)
      → VmmEff K V H (Unit {0})
  configure default_cmdline num_vcpus mem_size_mb kernel_path console initramfs_path if_name = do
    configure_console console
    configure_memory mem_size_mb
    load_default_cmdline default_cmdline
    configure_net if_name
    loaded ← (λ v.
        on_guest_memory K V H
          (kernel_setup G Ld K.KvmError (VcpuError G K) kernel_path initramfs_path v.cmdline) v)
    configure_io
    on_machine K V H (configure_vcpus Cause G K V num_vcpus loaded.kernel_load)
