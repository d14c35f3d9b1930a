-- ===== src/Vmm/Boot.antt =====
-- `configure` from an empty machine to vCPUs that are ready to run, on a host that serves every call.
use lumper.Base.{
  ℕ, ◌+◌, ◌*◌, ◌^◌, ◌≤◌, ◌<◌, ◌≡◌, refl, ◌∙◌, sym, ap, subst, Option, List, [], arith, length,
  Result, ok,
}
use lumper.Memory.{GuestMemory, Covers, IsLawful}
use lumper.Memory.Laws.{Covers-part}
use lumper.Memory.Read.{Holds}
use lumper.Kernel.Served.{Succeeds, FitsText, Serves, kernel_setup_served}
use lumper.Kernel.Setup.{Loader, kernel_setup}
use lumper.Mptable.{mptable_start, max_supported_cpus, compute_mp_size}
use lumper.Mptable.Image.{mptable_image}
use lumper.Mptable.Correct.{compute_mp_size-eq}
use lumper.Vcpu.{Kvm, VcpuError}
use lumper.Vcpu.BootState.{HasBootMemory}
use lumper.Vmm.{KvmVm, MachineError}
use lumper.Vmm.Host.{Host, Vmm}
use lumper.Vmm.Vcpus.{configure_vcpus}
use lumper.Vmm.Indices.{indices, count_up}
use lumper.Vmm.Configured.{Obliges}
use lumper.Vmm.Ready.{Provides, BootsAll, configure_vcpus-Boots}
use lumper.Vmm.Configure.{
  configure_memory, load_default_cmdline, configure_console, configure_net, configure_io, configure,
}
use lumper.Vmm.Serving.{Prepares, Hosts, FitsLine}
use lumper.Vmm.Stages.{
  Passes, configure_console_ok, configure_net_ok, configure_io_ok, configure_memory_ok,
}

module _ {Cause : Type 0} {G : GuestMemory} (L : IsLawful G) (K : Kvm) (O : Obliges K) (V : KvmVm K)
    (P : Provides K V) (A : Prepares K V) {Ld : Loader G Cause} (H : Host G Cause Ld)
    {Unwatched : ℕ → ℕ → H.World → Type 0} {no_devices : H.Manager} (mem_size_mb : ℕ)
    {console : Option Ld.FilePath} {if_name : Option (List ℕ)}
    (S : Hosts H Unwatched no_devices (mem_size_mb * 2 ^ 20) console if_name) where
  -- The machine as it is run: all vCPUs, the MP table for them and what they boot from.
  pub record Runnable (outcome : Vmm K V H × Result (MachineError Cause G K V) (Unit {0}))
      (num_vcpus : ℕ) : Type 0 where
    pub final : Vmm K V H
    pub returns : outcome ≡ (final, ok tt)
    pub vcpus : indices final.machine.vcpus ≡ count_up num_vcpus 0
    pub table : Holds G final.machine.memory mptable_start (mptable_image num_vcpus)
    pub ready : HasBootMemory G final.machine.memory

  -- On a host and a KVM that serve every call, with files and a loader that fit into the memory, a
  -- command line that takes the default text and the network device, and default boot parameters
  -- whose empty map has room for 2 to 255 entries, `configure` of a machine with no vCPUs and no
  -- devices, for 1 to 254 vCPUs and at least two megabytes, less than 2 ^ 32 of them, succeeds. The
  -- vCPUs are then all there, and guest memory holds the MP table, the GDT, the IDT and the page
  -- tables.
  pub configure-Runnable :
      (default_cmdline : List ℕ) (num_vcpus : ℕ) (kernel_path : Ld.FilePath)
      (initramfs_path : Option Ld.FilePath) (v : Vmm K V H)
      → 0 < num_vcpus
      → num_vcpus ≤ max_supported_cpus
      → 1 < mem_size_mb
      → mem_size_mb < 2 ^ 32
      → v.machine.vcpus ≡ []
      → v.virtio_manager ≡ no_devices
      → Ld.default.e820_entries ≡ 0
      → 2 ≤ length Ld.default.e820_table
      → length Ld.default.e820_table < 256
      → Serves G Ld (mem_size_mb * 2 ^ 20) kernel_path initramfs_path
      → FitsLine H default_cmdline if_name (mem_size_mb * 2 ^ 20) v.cmdline
      → Runnable
          (configure K V H default_cmdline num_vcpus mem_size_mb kernel_path console initramfs_path
            if_name v)
          num_vcpus
  unfolding configure load_default_cmdline
  configure-Runnable default_cmdline num_vcpus kernel_path initramfs_path v pos few some_mb few_mb
        none_yet no_device empty_map room small_map serves fits =
      record {
        final = record io.final { machine = booted.final };
        returns =
            rw
              (
                screen.0.returns, memory.1, text_taken, net.0.returns, loaded.1, io.returns,
                booted.returns,
              )
              refl;
        vcpus = booted.vcpus;
        table = booted.table;
        ready = booted.ready;
      }
    where
      screen :
          (p : Passes K V H S A (configure_console K V H console v) v) × (p.final.cmdline
            ≡ v.cmdline)
          × (p.final.virtio_manager ≡ v.virtio_manager)
      screen = configure_console_ok K V H S A console v refl

      memory :
          (w : Vmm K V H) × (configure_memory K V H mem_size_mb screen.0.final ≡ (w, ok tt))
          × Covers G w.machine.memory 0 (mem_size_mb * 2 ^ 20)
          × (w.machine.vcpus ≡ screen.0.final.machine.vcpus)
          × (w.cmdline ≡ screen.0.final.cmdline)
          × (w.virtio_manager ≡ screen.0.final.virtio_manager)
      memory = configure_memory_ok K V H S A mem_size_mb screen.0.final few_mb refl

      text_taken : Ld.insert_str default_cmdline memory.0.cmdline ≡ ok fits.with_text
      text_taken = ap (Ld.insert_str default_cmdline) (memory.4 ∙ screen.1) ∙ fits.text_taken

      with_line : Vmm K V H
      with_line = record (memory.0) { cmdline = fits.with_text }

      net :
          (p : Passes K V H S A (configure_net K V H if_name with_line) with_line)
          × (p.final.cmdline ≡ fits.final)
      net =
          configure_net_ok K V H S A if_name with_line fits.final refl
            (memory.5 ∙ screen.2 ∙ no_device) fits.device_taken

      line_fits : FitsText G Ld (mem_size_mb * 2 ^ 20) net.0.final.cmdline
      line_fits = subst (FitsText G Ld (mem_size_mb * 2 ^ 20)) (sym net.1) fits.fits

      net_covers : Covers G net.0.final.machine.memory 0 (mem_size_mb * 2 ^ 20)
      net_covers = λ i h. ap (λ m. G.address_in_range m (0 + i)) net.0.memory ∙ memory.2 i h

      loaded :
          Succeeds G
            (kernel_setup G Ld K.KvmError
              (VcpuError G K)
              kernel_path
              initramfs_path
              net.0.final.cmdline)
            net.0.final.machine.memory
            serves.kernel
      loaded =
          kernel_setup_served G Ld K.KvmError (VcpuError G K) (mem_size_mb * 2 ^ 20) kernel_path
            initramfs_path net.0.final.cmdline net.0.final.machine.memory L empty_map room small_map
            (omega arith) net_covers serves line_fits

      with_kernel : Vmm K V H
      with_kernel = record (net.0.final) {
        machine = record (net.0.final.machine) { memory = loaded.0 };
      }

      io : Passes K V H S A (configure_io K V H with_kernel) with_kernel
      io = configure_io_ok K V H S A with_kernel

      covers : Covers G io.final.machine.memory 0 (mem_size_mb * 2 ^ 20)
      covers = λ i h.
          ap (λ m. G.address_in_range m (0 + i)) io.memory ∙ loaded.2 (0 + i) ∙ net_covers i h

      booted :
          BootsAll Cause G L K O V P
            (configure_vcpus Cause G K V num_vcpus serves.kernel.kernel_load io.final.machine)
            io.final.machine.memory
            num_vcpus
      booted =
          configure_vcpus-Boots Cause G L K O V P num_vcpus serves.kernel.kernel_load
            io.final.machine pos few (io.vcpus ∙ net.0.vcpus ∙ memory.3 ∙ screen.0.vcpus ∙ none_yet)
            (Covers-part G _ 0 _ 0 0xc000 covers (omega arith) (omega arith))
            (Covers-part G _ 0 _ mptable_start (compute_mp_size num_vcpus) covers (omega arith)
              (omega (arith, compute_mp_size-eq num_vcpus)))
