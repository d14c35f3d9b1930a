-- ===== src/Kernel/Served.antt =====
-- `kernel_setup` on files and a loader that serve every call.
use lumper.Base.{
  ℕ, ◌+◌, ◌^◌, ◌≤◌, ◌<◌, ◌≡◌, refl, ◌∙◌, Option, none, some, List, length, ok, Eff, ◌-◌,
}
use lumper.Memory.{GuestMemory, Covers, IsLawful}
use lumper.Kernel.{SetupHeader, BootParams, himem_start}
use lumper.Kernel.Setup.{Loader, KernelLoaderResult, kernel_setup}
use lumper.Kernel.Loaded.{header_of, LoadsRamdisk, Loads, Hands, kernel_setup-Hands}

-- A call that succeeds and leaves the ranges of guest memory.
abbrev pub Succeeds : {E A : Type 0} (G : GuestMemory) → Eff G.State E A → G.State → A → Type 0
Succeeds G p m a =
    (m' : G.State) × (p m ≡ (m', ok a))
    × ((j : ℕ) → G.address_in_range m' j ≡ G.address_in_range m j)

module _ (G : GuestMemory) {Cause : Type 0} (Ld : Loader G Cause) where
  -- In memory of so many bytes a file can be read to the address.
  abbrev pub FitsRamdisk : ℕ → ℕ → Option Ld.FilePath → Type 0
  FitsRamdisk size address none = Unit
  FitsRamdisk size address (some path) =
      (file : Ld.File) × (Ld.open_file path ≡ ok file)
      × (bytes : ℕ) × (Ld.file_len file ≡ some bytes)
      × (bytes < 2 ^ 32)
      × ((m : G.State)
          → Covers G m 0 size
          → (count : ℕ) × Succeeds G (Ld.read_file address file bytes) m count)

  -- A text of less than 4 GiB that fits into a command line of its length, which in memory of so
  -- many bytes can be loaded.
  abbrev pub FitsText : ℕ → Ld.Cmdline → Type 0
  FitsText size line =
      (bytes : List ℕ) × (Ld.as_cstring line ≡ ok bytes)
      × (text : List ℕ) × (Ld.into_string bytes ≡ ok text)
      × (length text + 1 < 2 ^ 32)
      × (empty : Ld.Cmdline) × (Ld.cmdline_new (length text + 1) ≡ ok empty)
      × (shrinked : Ld.Cmdline) × (Ld.insert_str text empty ≡ ok shrinked)
      × ((m : G.State) → Covers G m 0 size → Succeeds G (Ld.load_cmdline 0x2_0000 shrinked) m tt)

  -- A kernel and its ramdisk that fit into memory of so many bytes, with the boot parameters.
  pub record Serves (size : ℕ) (path : Ld.FilePath) (initramfs : Option Ld.FilePath) : Type 0 where
    pub image : Ld.File
    pub opened : Ld.open_file path ≡ ok image
    pub kernel : KernelLoaderResult
    pub below_4g : kernel.kernel_end + 1 < 2 ^ 32
    pub elf_loaded :
        (m : G.State) → Covers G m 0 size → Succeeds G (Ld.elf_load image himem_start) m kernel
    pub ramdisk : FitsRamdisk size (kernel.kernel_end + 1) initramfs
    pub params_written :
        (params : BootParams Ld.Rest) (m : G.State)
        → Covers G m 0 size
        → Succeeds G (Ld.write_bootparams params 0x7000) m tt

  ramdisk_loads :
      (initramfs : Option Ld.FilePath) (size kernel_end : ℕ) (m : G.State)
      → kernel_end + 1 < 2 ^ 32
      → Covers G m 0 size
      → FitsRamdisk size (kernel_end + 1) initramfs
      → (ramdisk : Option (ℕ × ℕ)) × (m' : G.State) × LoadsRamdisk G Ld initramfs kernel_end m
          ramdisk m'
        × ((j : ℕ) → G.address_in_range m' j ≡ G.address_in_range m j)
  ramdisk_loads none size kernel_end m low covers fits = (none, m, (refl, refl), λ j. refl)
  ramdisk_loads (some path) size kernel_end m low covers (file, opened, bytes, sized, short, fits) =
      let read = fits m covers in
      (
        some (kernel_end + 1, bytes),
        read.1.0,
        (file, opened, bytes, sized, read.0, read.1.1, refl, low, short),
        read.1.2,
      )

  -- Where every call is served and high memory starts within the memory, the kernel is set up.
  pub kernel_setup_served :
      (KvmError VcpuError : Type 0) (size : ℕ) (path : Ld.FilePath) (initramfs : Option Ld.FilePath)
      (line : Ld.Cmdline) (m : G.State)
      → IsLawful G
      → Ld.default.e820_entries ≡ 0
      → 2 ≤ length Ld.default.e820_table
      → length Ld.default.e820_table < 256
      → himem_start < size
      → Covers G m 0 size
      → (s : Serves size path initramfs) → FitsText size line
      → Succeeds G (kernel_setup G Ld KvmError VcpuError path initramfs line) m s.kernel
  kernel_setup_served KvmError VcpuError size path initramfs line m L none_yet low few room covers s
        text =
      (
        written.0,
        handed.returns ∙ rw (written.1) refl,
        λ j. written.2 j ∙ lined.2 j ∙ disk.3 j ∙ kernel.2 j,
      )
    where
      kernel : Succeeds G (Ld.elf_load s.image himem_start) m s.kernel
      kernel = s.elf_loaded m covers

      disk :
          (ramdisk : Option (ℕ × ℕ)) × (m' : G.State) × LoadsRamdisk G Ld initramfs
            s.kernel.kernel_end kernel.0 ramdisk m'
          × ((j : ℕ) → G.address_in_range m' j ≡ G.address_in_range kernel.0 j)
      disk =
          ramdisk_loads initramfs size s.kernel.kernel_end kernel.0 s.below_4g
            (λ i h. kernel.2 (0 + i) ∙ covers i h) s.ramdisk

      lined : Succeeds G (Ld.load_cmdline 0x2_0000 text.7) disk.1 tt
      lined = text.9 disk.1 (λ i h. disk.3 (0 + i) ∙ kernel.2 (0 + i) ∙ covers i h)

      calls : Loads G Ld path initramfs line m
      calls = record {
        image = s.image;
        opened = s.opened;
        kernel = s.kernel;
        with_kernel = kernel.0;
        elf_loaded = kernel.1;
        enough =
            L.last_addr_last kernel.0 himem_start
              (kernel.2 (0 + himem_start) ∙ covers himem_start room);
        bytes = text.0;
        as_bytes = text.1;
        text = text.2;
        as_text = text.3;
        short = text.4;
        empty = text.5;
        made = text.6;
        shrinked = text.7;
        inserted = text.8;
        ramdisk = disk.0;
        with_ramdisk = disk.1;
        ramdisk_loaded = disk.2;
        with_line = lined.0;
        line_loaded = lined.1;
      }

      header : SetupHeader
      header = header_of Ld.default.hdr (length text.2) disk.0

      handed :
          Hands G Ld
            (kernel_setup G Ld KvmError VcpuError path initramfs line m)
            lined.0
            s.kernel
            header
            (G.last_addr kernel.0 - himem_start)
      handed =
          kernel_setup-Hands G Ld KvmError VcpuError path initramfs line m L none_yet low few calls

      written : Succeeds G (Ld.write_bootparams handed.params 0x7000) lined.0 tt
      written =
          s.params_written handed.params lined.0
            (λ i h. lined.2 (0 + i) ∙ disk.3 (0 + i) ∙ kernel.2 (0 + i) ∙ covers i h)
