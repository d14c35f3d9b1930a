-- ===== src/Kernel/Loaded.antt =====
-- What `kernel_setup` hands to the guest: the boot parameters in the zero page, with the command line
-- and the initial ramdisk.
use lumper.Base.{
  ℕ, ◌+◌, ◌-◌, ◌^◌, ◌≤◌, ◌<◌, ◌≡◌, refl, ◌∙◌, sym, ap, ap₂, Option, none, some, List, arith, length,
  get_elem?, u32, u64, Result, ok, ◌>>◌, pure, map_err,
}
use lumper.Memory.{GuestMemory, IsLawful}
use lumper.Errors.{VmmError, boot_configure}
use lumper.Kernel.{SetupHeader, BootParams, build_bootparams, himem_start, ebda_start, e820_ram}
use lumper.Kernel.Bootparams.{build_bootparams_lem}
use lumper.Kernel.Setup.{
  Loader, KernelLoaderResult, Params, kernel_setup, load_initramfs, shrink_cmdline, with_cmdline,
  with_ramdisk,
}

-- The header of a kernel with a command line of so many bytes, and with the address and the size
-- of its ramdisk, if it has one.
abbrev pub header_of : SetupHeader → ℕ → Option (ℕ × ℕ) → SetupHeader
header_of h size none = record h {
  boot_flag = 0xaa55;
  header = 0x5372_6448;
  kernel_alignment = 0x0100_0000;
  type_of_loader = 0xff;
  cmd_line_ptr = 0x2_0000;
  cmdline_size = size + 1;
}
header_of h size (some (address, bytes)) = record h {
  boot_flag = 0xaa55;
  header = 0x5372_6448;
  kernel_alignment = 0x0100_0000;
  type_of_loader = 0xff;
  cmd_line_ptr = 0x2_0000;
  cmdline_size = size + 1;
  ramdisk_image = address;
  ramdisk_size = bytes;
}

module _ (G : GuestMemory) {Cause : Type 0} (Ld : Loader G Cause) where
  -- The ramdisk that is asked for is read to the address behind the kernel. That address and the size
  -- of the ramdisk are less than 2 ^ 32, since the header keeps 32 bits of them.
  abbrev pub LoadsRamdisk : Option Ld.FilePath → ℕ → G.State → Option (ℕ × ℕ) → G.State → Type 0
  LoadsRamdisk none kernel_end m ramdisk m' = (ramdisk ≡ none) × (m' ≡ m)
  LoadsRamdisk (some path) kernel_end m ramdisk m' =
      (file : Ld.File) × (Ld.open_file path ≡ ok file)
      × (size : ℕ) × (Ld.file_len file ≡ some size)
      × (count : ℕ) × (Ld.read_file (kernel_end + 1) file size m ≡ (m', ok count))
      × (ramdisk ≡ some (kernel_end + 1, size))
      × (kernel_end + 1 < 2 ^ 32)
      × (size < 2 ^ 32)

  -- The calls that `kernel_setup` makes before the last one, and their results.
  pub record Loads (path : Ld.FilePath) (initramfs : Option Ld.FilePath) (line : Ld.Cmdline)
      (m : G.State) : Type 0 where
    pub image : Ld.File
    pub opened : Ld.open_file path ≡ ok image
    pub kernel : KernelLoaderResult
    pub with_kernel : G.State
    pub elf_loaded : Ld.elf_load image himem_start m ≡ (with_kernel, ok kernel)
    pub enough : himem_start ≤ G.last_addr with_kernel
    pub bytes : List ℕ
    pub as_bytes : Ld.as_cstring line ≡ ok bytes
    pub text : List ℕ
    pub as_text : Ld.into_string bytes ≡ ok text
    pub short : length text + 1 < 2 ^ 32
    pub empty : Ld.Cmdline
    pub made : Ld.cmdline_new (length text + 1) ≡ ok empty
    pub shrinked : Ld.Cmdline
    pub inserted : Ld.insert_str text empty ≡ ok shrinked
    pub ramdisk : Option (ℕ × ℕ)
    pub with_ramdisk : G.State
    pub ramdisk_loaded : LoadsRamdisk initramfs kernel.kernel_end with_kernel ramdisk with_ramdisk
    pub with_line : G.State
    pub line_loaded : Ld.load_cmdline 0x2_0000 shrinked with_ramdisk ≡ (with_line, ok tt)

  -- The outcome is the call that writes these parameters to the zero page.
  pub record Hands {KvmError VcpuError : Type 0}
      (outcome : G.State × Result (VmmError Cause KvmError VcpuError) KernelLoaderResult)
      (m : G.State) (kernel : KernelLoaderResult) (header : SetupHeader) (high_ram : ℕ)
      : Type 0 where
    pub params : BootParams Ld.Rest
    pub returns :
        outcome ≡ (map_err (Ld.write_bootparams params 0x7000) boot_configure >> pure kernel) m
    pub hdr : params.hdr ≡ header
    pub two_entries : params.e820_entries ≡ 2
    pub low : get_elem? params.e820_table 0 ≡ some (record { addr = 0; size = 0x9_fc00; type_ = 1 })
    pub high :
        get_elem? params.e820_table 1
        ≡ some (record { addr = 0x10_0000; size = high_ram; type_ = 1 })

module _ (G : GuestMemory) {Cause : Type 0} (Ld : Loader G Cause)
    (KvmError VcpuError : Type 0) where
  -- The parameters with the ramdisk.
  load_initramfs_ok :
      (initramfs : Option Ld.FilePath) (kernel_end : ℕ) (m m' : G.State) (ramdisk : Option (ℕ × ℕ))
      (size : ℕ) (params : Params G Ld KvmError VcpuError) (h : SetupHeader)
      → LoadsRamdisk G Ld initramfs kernel_end m ramdisk m'
      → params.hdr ≡ header_of h size none
      → (params' : Params G Ld KvmError VcpuError) × (load_initramfs G Ld KvmError VcpuError
            initramfs kernel_end params m
          ≡ (m', ok params'))
        × (params'.hdr ≡ header_of h size ramdisk)
        × (params'.e820_entries ≡ params.e820_entries)
        × (params'.e820_table ≡ params.e820_table)
  unfolding load_initramfs
  load_initramfs_ok none kernel_end m m' ramdisk size params h (absent, same) e = (
    params,
    ap (λ s. (s, ok params)) (sym same),
    e ∙ ap (header_of h size) (sym absent),
    refl,
    refl,
  )
  load_initramfs_ok (some path) kernel_end m m' ramdisk size params h
        (file, opened, bytes, sized, count, read, found, low, short) e =
      (
        with_ramdisk G Ld KvmError VcpuError (u64 (kernel_end + 1)) bytes params,
        rw (opened, sized, fits, read) refl,
        ap
              (λ (x : SetupHeader). record x {
                ramdisk_image = u32 (u64 (kernel_end + 1));
                ramdisk_size = u32 bytes;
              })
              e
            ∙ ap₂ (λ a b. header_of h size (some (a, b))) {x = u32 (u64 (kernel_end + 1))}
                {y = kernel_end + 1} (omega arith) (omega arith)
            ∙ ap (header_of h size) (sym found),
        refl,
        refl,
      )
    where
      fits : u64 (kernel_end + 1) ≡ kernel_end + 1
      fits = omega arith

  -- The conditions are that every call before the last one succeeds; that the map of the default
  -- parameters has no entries yet, and room for 2 to 255 of them; that high memory starts within
  -- guest memory; that the text of the command line, with its final zero, is shorter than 2 ^ 32
  -- bytes; and that, if a ramdisk is asked for, the address behind the kernel and the size of the
  -- ramdisk are less than 2 ^ 32, so that the 32-bit fields of the header do not cut them off. Then
  -- `kernel_setup` comes to the call that writes the zero page. The parameters have the two entries
  -- of RAM, the magic numbers, the place and the size of the command line with its final zero, and
  -- the address and the size of the ramdisk, if one is asked for; the other fields of the default
  -- header are kept. What `kernel_setup` returns is the result of the loader.
  pub kernel_setup-Hands :
      (path : Ld.FilePath) (initramfs : Option Ld.FilePath) (line : Ld.Cmdline) (m : G.State)
      → IsLawful G
      → Ld.default.e820_entries ≡ 0
      → 2 ≤ length Ld.default.e820_table
      → length Ld.default.e820_table < 256
      → (l : Loads G Ld path initramfs line m)
      → Hands G Ld
          (kernel_setup G Ld KvmError VcpuError path initramfs line m)
          l.with_line
          l.kernel
          (header_of Ld.default.hdr (length l.text) l.ramdisk)
          (G.last_addr l.with_kernel - himem_start)
  unfolding kernel_setup shrink_cmdline
  kernel_setup-Hands path initramfs line m L none_yet low few l = record {
    params = params'.0;
    returns =
        rw
          (
            l.opened, l.elf_loaded, built.1, l.as_bytes, l.as_text, cut, l.made, l.inserted,
            params'.1, l.line_loaded,
          )
          refl;
    hdr = params'.2;
    two_entries = params'.3 ∙ built.2;
    low = ap (λ t. get_elem? t 0) params'.4 ∙ built.3;
    high = ap (λ t. get_elem? t 1) params'.4 ∙ built.4;
  }
    where
      built :
          (params : BootParams Ld.Rest) × (build_bootparams G Ld.default l.with_kernel himem_start
            ≡ ok params)
          × (params.e820_entries ≡ 2)
          × (get_elem? params.e820_table 0
              ≡ some (record { addr = 0; size = ebda_start; type_ = e820_ram }))
          × (get_elem? params.e820_table 1
              ≡ some (record {
                addr = himem_start;
                size = G.last_addr l.with_kernel - himem_start;
                type_ = e820_ram;
              }))
          × (params.hdr ≡ record Ld.default.hdr {
            boot_flag = 0xaa55;
            header = 0x5372_6448;
            kernel_alignment = 0x0100_0000;
            type_of_loader = 0xff;
          })
      built =
          build_bootparams_lem G Ld.default l.with_kernel himem_start L none_yet low few l.enough

      cut : u32 (length l.text) ≡ length l.text
      cut = let short : length l.text + 1 < 2 ^ 32 = l.short in omega arith

      wrapped : length l.text + 1 < 2 ^ 32 → u32 (length l.text + 1) ≡ length l.text + 1
      wrapped h = omega arith

      lined :
          (with_cmdline G Ld KvmError VcpuError (length l.text) built.0).hdr
          ≡ header_of Ld.default.hdr (length l.text) none
      lined =
          ap₂ (λ (x : SetupHeader) (k : ℕ). record x { cmd_line_ptr = 0x2_0000; cmdline_size = k })
            built.5 (wrapped l.short)

      params' :
          (p : Params G Ld KvmError VcpuError) × (load_initramfs G Ld KvmError VcpuError initramfs
              l.kernel.kernel_end
              (with_cmdline G Ld KvmError VcpuError (length l.text) built.0)
              l.with_kernel
            ≡ (l.with_ramdisk, ok p))
          × (p.hdr ≡ header_of Ld.default.hdr (length l.text) l.ramdisk)
          × (p.e820_entries ≡ built.0.e820_entries)
          × (p.e820_table ≡ built.0.e820_table)
      params' =
          load_initramfs_ok initramfs l.kernel.kernel_end l.with_kernel l.with_ramdisk l.ramdisk
            (length l.text) (with_cmdline G Ld KvmError VcpuError (length l.text) built.0)
            Ld.default.hdr l.ramdisk_loaded lined
