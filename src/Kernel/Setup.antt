-- ===== src/Kernel/Setup.antt =====
-- `kernel_setup` of src/vmm/src/kernel.rs. The files, linux-loader and the command line are the
-- fields of `Loader`. The ramdisk goes to the address behind the kernel, which wraps around as `u64`,
-- where a debug build panics. Its size is that of the metadata, which are unwrapped_len.
use lumper.Base.{
  ℕ, ◌+◌, Option, none, some, List, length, u32, u64, fail, Result, Eff, ◌>>=◌, ◌>>◌, pure, map_err,
  tried,
}
use lumper.Memory.{GuestMemory}
use lumper.Errors.{
  VmmError, boot_configure, cmdline, kernel_load, initramfs_load, bootparams, io, into_string_error,
  panic,
}
use lumper.Kernel.{BootParams, build_bootparams, himem_start}
use lumper.Vcpu.{zeropg_start}

abbrev pub cmdline_start : ℕ
cmdline_start = 0x0002_0000

-- `KernelLoaderResult`, by the start address and the last address of the kernel.
pub record KernelLoaderResult : Type 0 where
  pub kernel_load : ℕ
  pub kernel_end : ℕ

pub record Loader (G : GuestMemory) (Cause : Type 0) : Type 1 where
  pub FilePath : Type 0
  pub File : Type 0
  pub Cmdline : Type 0
  pub Rest : Type 0
  -- `boot_params::default()`
  pub default : BootParams Rest
  pub open_file : FilePath → Result Cause File
  -- `metadata`, by the length; none where it is refused.
  pub file_len : File → Option ℕ
  -- `Elf::load`, with the start of high memory.
  pub elf_load : File → ℕ → Eff G.State Cause KernelLoaderResult
  -- `read_from` a file: address, file and size.
  pub read_file : ℕ → File → ℕ → Eff G.State G.MemoryError ℕ
  pub as_cstring : Cmdline → Result Cause (List ℕ)
  pub into_string : List ℕ → Result Cause (List ℕ)
  pub cmdline_new : ℕ → Result Cause Cmdline
  pub insert_str : List ℕ → Cmdline → Result Cause Cmdline
  pub load_cmdline : ℕ → Cmdline → Eff G.State Cause (Unit {0})
  pub write_bootparams : BootParams Rest → ℕ → Eff G.State Cause (Unit {0})

module _ (G : GuestMemory) {Cause : Type 0} (Ld : Loader G Cause)
    (KvmError VcpuError : Type 0) where
  abbrev pub Params : Type 0
  Params = BootParams Ld.Rest

  abbrev Setup : Type 0 → Type 0
  Setup A = Eff G.State (VmmError Cause KvmError VcpuError) A

  abbrev pub with_cmdline : ℕ → Params → Params
  with_cmdline size params = record params {
    hdr = record params.hdr { cmd_line_ptr = u32 cmdline_start; cmdline_size = u32 (size + 1) };
  }

  abbrev pub with_ramdisk : ℕ → ℕ → Params → Params
  with_ramdisk address size params = record params {
    hdr = record params.hdr { ramdisk_image = u32 address; ramdisk_size = u32 size };
  }

  -- `unwrap`
  abbrev pub unwrapped_len : Option ℕ → Setup ℕ
  unwrapped_len none = fail panic
  unwrapped_len (some size) = pure size

  unfoldable pub load_initramfs : Option Ld.FilePath → ℕ → Params → Setup Params
  load_initramfs none kernel_end params = pure params
  load_initramfs (some path) kernel_end params = do
    file ← tried (Ld.open_file path) io
    size ← unwrapped_len (Ld.file_len file)
    read ← map_err (Ld.read_file (u64 (kernel_end + 1)) file size) (λ _. initramfs_load)
    pure (with_ramdisk (u64 (kernel_end + 1)) size params)

  -- `cmdline_str.len() as u32`, and the command line of just that size.
  unfoldable pub shrink_cmdline : List ℕ → Setup Ld.Cmdline
  shrink_cmdline text = do
    empty ← tried (Ld.cmdline_new (u32 (length text) + 1)) cmdline
    tried (Ld.insert_str text empty) cmdline

  unfoldable pub kernel_setup :
      Ld.FilePath → Option Ld.FilePath → Ld.Cmdline → Setup KernelLoaderResult
  unfolding load_initramfs shrink_cmdline
  kernel_setup kernel_path initramfs_path line = do
    kernel_image ← tried (Ld.open_file kernel_path) io
    loaded ← map_err (Ld.elf_load kernel_image himem_start) kernel_load
    params ← (λ m. tried (build_bootparams G Ld.default m himem_start) bootparams m)
    bytes ← tried (Ld.as_cstring line) cmdline
    text ← tried (Ld.into_string bytes) into_string_error
    shrinked ← shrink_cmdline text
    params' ←
        load_initramfs initramfs_path loaded.kernel_end (with_cmdline (u32 (length text)) params)
    map_err (Ld.load_cmdline cmdline_start shrinked) kernel_load
    map_err (Ld.write_bootparams params' zeropg_start) boot_configure
    pure loaded
