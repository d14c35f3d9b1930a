-- ===== src/Tests/Tables.antt =====
-- The MP table, its structures and the boot parameters, on concrete inputs.
use lumper.Base.{
  ℕ, ◌%◌, ◌≤◌, ◌≡◌, refl, inl, some, arith, length, get_elem?, ◌==◌, if◌then◌else◌, ok, err,
}
use lumper.Base.Bytes.{byte_sum}
use lumper.Memory.{Covers}
use lumper.Memory.Laws.{Emits}
use lumper.Memory.Flat.{flat_memory, flat_memory-IsLawful}
use lumper.Mpspec.{image_of, mpf_intel_fields}
use lumper.Mptable.{
  too_many_cpus, mptable_start, compute_mp_size, pointer_blank, mpf_intel_compute_checksum,
}
use lumper.Mptable.Setup.{setup_mptable}
use lumper.Mptable.Image.{mptable_image, table_image, byte_sum-table_image}
use lumper.Mptable.Checksum.{byte_sum-mpf_intel_compute_checksum}
use lumper.Mptable.Correct.{setup_mptable-Emits, setup_mptable_refused}
use lumper.Mptable.Walk.{cpu_entry_count}
use lumper.Mptable.Reader.{cpu_entry_count-setup_mptable}
use lumper.Kernel.{BootParams, add_e820_entry, build_bootparams, e820_ram}
use lumper.Kernel.Bootparams.{add_e820_entry_room, build_bootparams_lem}
use lumper.Tests.Machine.{empty_header, blank, Covers-blank, empty_bootparams}

Covers-table : Covers flat_memory blank mptable_start (compute_mp_size 2)
unfolding compute_mp_size
Covers-table = Covers-blank mptable_start (compute_mp_size 2) (omega arith)

abbrev two_cpus :
    Emits flat_memory (setup_mptable flat_memory 2 blank) blank mptable_start (mptable_image 2) tt
two_cpus = setup_mptable-Emits flat_memory flat_memory-IsLawful 2 blank (omega arith) Covers-table

setup_mptable-Emits_example :
    Emits flat_memory (setup_mptable flat_memory 2 blank) blank mptable_start (mptable_image 2) tt
setup_mptable-Emits_example =
    setup_mptable-Emits flat_memory flat_memory-IsLawful 2 blank (omega arith) Covers-table

cpu_entry_count-setup_mptable_example : cpu_entry_count flat_memory two_cpus.final 23 ≡ some 2
cpu_entry_count-setup_mptable_example =
    cpu_entry_count-setup_mptable flat_memory flat_memory-IsLawful 2 23 blank two_cpus.final
      (omega arith) Covers-table two_cpus.returns (omega arith)

setup_mptable_refused_example : setup_mptable flat_memory 255 blank ≡ (blank, err too_many_cpus)
setup_mptable_refused_example =
    setup_mptable_refused flat_memory flat_memory-IsLawful 255 blank too_many_cpus
      (inl (omega arith, refl))

byte_sum-table_image_example : byte_sum (table_image 4) % 256 ≡ 0
byte_sum-table_image_example = byte_sum-table_image 4

byte_sum-mpf_intel_compute_checksum_example :
    byte_sum (
        image_of (
          mpf_intel_fields (record (pointer_blank 0x9fc10) {
            checksum = mpf_intel_compute_checksum (pointer_blank 0x9fc10);
          })))
      % 256
    ≡ 0
byte_sum-mpf_intel_compute_checksum_example =
    byte_sum-mpf_intel_compute_checksum (pointer_blank 0x9fc10) (omega arith)

add_e820_entry_room_example :
    let out = add_e820_entry 0 0x9fc00 e820_ram empty_bootparams in
    (out.1 ≡ ok tt)
    × ((j : ℕ)
        → get_elem? (out.0).e820_table j ≡ (
            if 0 == j
            then some (record { addr = 0; size = 0x9fc00; type_ = 1 })
            else get_elem? empty_bootparams.e820_table j))
    × ((out.0).e820_entries ≡ 1)
    × ((out.0).e820_entries ≤ length (out.0).e820_table)
add_e820_entry_room_example = add_e820_entry_room 0 0x9fc00 e820_ram empty_bootparams (omega arith)

build_bootparams_lem_example :
    (params : BootParams (Unit {0})) × (build_bootparams flat_memory empty_bootparams blank 0x8_0000
      ≡ ok params)
    × (params.e820_entries ≡ 2)
    × (get_elem? params.e820_table 0 ≡ some (record { addr = 0; size = 0x9fc00; type_ = 1 }))
    × (get_elem? params.e820_table 1
        ≡ some (record { addr = 0x8_0000; size = 0x7_ffff; type_ = 1 }))
    × (params.hdr ≡ record empty_header {
      boot_flag = 0xaa55;
      header = 0x5372_6448;
      kernel_alignment = 0x0100_0000;
      type_of_loader = 0xff;
    })
build_bootparams_lem_example =
    build_bootparams_lem flat_memory empty_bootparams blank 0x8_0000 flat_memory-IsLawful refl
      (omega arith) (omega arith) (omega arith)
