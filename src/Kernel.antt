-- ===== src/Kernel.antt =====
-- src/vmm/src/kernel.rs: the boot parameters of the zero page. `boot_params` is a type of
-- linux-loader; it is kept by the fields that the code uses, with what it does not touch in
-- `rest`, and its default is an argument.
pub mod Bootparams
pub mod Setup
pub mod Loaded
pub mod Served
use lumper.Base.{
  ℕ, ◌+◌, ◌-◌, Option, none, some, List, set, length, u8, leb, if◌then◌else◌, Result, ok, err, Eff,
  ◌>>=◌, ◌>>◌, pure,
}
use lumper.Memory.{GuestMemory}

abbrev pub kernel_boot_flag_magic : ℕ
kernel_boot_flag_magic = 0xaa55

abbrev pub kernel_hdr_magic : ℕ
kernel_hdr_magic = 0x5372_6448

abbrev pub kernel_loader_other : ℕ
kernel_loader_other = 0xff

abbrev pub kernel_min_alignment_bytes : ℕ
kernel_min_alignment_bytes = 0x0100_0000

abbrev pub ebda_start : ℕ
ebda_start = 0x0009_fc00

abbrev pub e820_ram : ℕ
e820_ram = 1

abbrev pub himem_start : ℕ
himem_start = 0x0010_0000

-- The errors of `crate::Error` that the boot parameters can end in.
pub data Error : Type 0 where
  e820_configuration himem_start_past_mem_end : Error

pub record E820Entry : Type 0 where
  pub addr : ℕ
  pub size : ℕ
  pub type_ : ℕ

-- `boot_params.hdr`
pub record SetupHeader : Type 0 where
  pub boot_flag : ℕ
  pub header : ℕ
  pub kernel_alignment : ℕ
  pub type_of_loader : ℕ
  pub cmd_line_ptr : ℕ
  pub cmdline_size : ℕ
  pub ramdisk_image : ℕ
  pub ramdisk_size : ℕ

pub record BootParams (Rest : Type 0) : Type 0 where
  pub hdr : SetupHeader
  pub e820_entries : ℕ
  pub e820_table : List E820Entry
  pub rest : Rest

module _ {Rest : Type 0} where
  -- The parameters are changed in place. The length of the table is cut to `u8`, so an index that
  -- passes the test is in range.
  unfoldable pub add_e820_entry : ℕ → ℕ → ℕ → Eff (BootParams Rest) Error (Unit {0})
  add_e820_entry addr size mem_type params =
      if leb (u8 (length params.e820_table)) params.e820_entries
      then (params, err e820_configuration)
      else (
        record params {
          e820_table =
              set params.e820_table params.e820_entries
                (record { addr = addr; size = size; type_ = mem_type });
          e820_entries = params.e820_entries + 1;
        },
        ok tt,
      )

  unfoldable pub with_header : BootParams Rest → BootParams Rest
  with_header params = record params {
    hdr = record params.hdr {
      boot_flag = kernel_boot_flag_magic;
      header = kernel_hdr_magic;
      kernel_alignment = kernel_min_alignment_bytes;
      type_of_loader = kernel_loader_other;
    };
  }

  -- `ok_or(Error::HimemStartPastMemEnd)`
  abbrev pub offset_or_error : Option ℕ → Eff (BootParams Rest) Error ℕ
  offset_or_error none params = (params, err himem_start_past_mem_end)
  offset_or_error (some size) params = (params, ok size)

  abbrev returned : BootParams Rest × Result Error (Unit {0}) → Result Error (BootParams Rest)
  returned (params, ok done) = ok params
  returned (params, err e) = err e

  unfoldable pub build_bootparams :
      (G : GuestMemory) → BootParams Rest → G.State → ℕ → Result Error (BootParams Rest)
  unfolding add_e820_entry with_header
  build_bootparams G default m himem_start = returned (
      (add_e820_entry 0 ebda_start e820_ram
          >> (offset_or_error (G.checked_offset_from (G.last_addr m) himem_start) >>= λ size.
              add_e820_entry himem_start size e820_ram))
        (with_header default))
