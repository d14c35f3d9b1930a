-- ===== src/Mptable.antt =====
-- src/vmm/src/cpu/mptable.rs: the MP table that tells the guest of its CPUs and interrupts.
-- Here are its constants, its checksums and its entries; `Setup` writes them to guest memory.
pub mod Setup
pub mod Checksum
pub mod Image
pub mod Blocks
pub mod Correct
pub mod Walk
pub mod Reader
use lumper.Base.{
  ℕ, zero, suc, ◌+◌, ◌-◌, ◌*◌, Bool, true, false, Option, none, some, List, [], ◌∷◌, replicate, u8,
  u16, u32, complement, wrapping_add8, wrapping_sub8, bit_or, ltb, ◌==◌, if◌then◌else◌, Result, ok,
  err, Eff, ◌>>=◌, ◌>>◌, pure, fail, map_err,
}
use lumper.Mpspec.{
  image_of, MpfIntel, mpf_intel_default, mpf_intel_fields, mpf_intel_size, MpcTable,
  mpc_table_default, mpc_table_fields, mpc_table_size, MpcCpu, mpc_cpu_default, mpc_cpu_fields,
  mpc_cpu_size, MpcBus, mpc_bus_default, mpc_bus_fields, mpc_bus_size, MpcIoapic,
  mpc_ioapic_default, mpc_ioapic_fields, mpc_ioapic_size, MpcIntsrc, mpc_intsrc_default,
  mpc_intsrc_fields, mpc_intsrc_size, MpcLintsrc, mpc_lintsrc_default, mpc_lintsrc_fields,
  mpc_lintsrc_size, mp_processor, mp_bus, mp_ioapic, mp_intsrc, mp_lintsrc, cpu_enabled,
  cpu_bootprocessor, mpc_apic_usable, mp_irqdir_default, mp_irq_int, mp_irq_nmi, mp_irq_ext_int,
}

pub data Error : Type 0 where
  not_enough_memory address_overflow clear too_many_cpus write_mpf_intel write_mpc_cpu : Error
  write_mpc_ioapic write_mpc_bus write_mpc_intsrc write_mpc_lintsrc write_mpc_table : Error

abbrev pub mptable_start : ℕ
mptable_start = 0x9fc00

abbrev pub max_supported_cpus : ℕ
max_supported_cpus = 254

-- The characters `_MP_`, `PCMP`, `FC` and `ISA` with their blanks, and twelve times `0`.
abbrev pub smp_magic_ident : List ℕ
smp_magic_ident = b'_' ∷ b'M' ∷ b'P' ∷ b'_' ∷ []

abbrev pub mpc_signature : List ℕ
mpc_signature = b'P' ∷ b'C' ∷ b'M' ∷ b'P' ∷ []

abbrev pub mpc_spec : ℕ
mpc_spec = 4

abbrev pub mpc_oem : List ℕ
mpc_oem = b'F' ∷ b'C' ∷ replicate 6 b' '

abbrev pub mpc_product_id : List ℕ
mpc_product_id = replicate 12 b'0'

abbrev pub bus_type_isa : List ℕ
bus_type_isa = b'I' ∷ b'S' ∷ b'A' ∷ replicate 3 b' '

abbrev pub io_apic_default_phys_base : ℕ
io_apic_default_phys_base = 0xfec0_0000

abbrev pub apic_default_phys_base : ℕ
apic_default_phys_base = 0xfee0_0000

abbrev pub apic_version : ℕ
apic_version = 0x14

abbrev pub cpu_stepping : ℕ
cpu_stepping = 0x600

abbrev pub cpu_feature_apic : ℕ
cpu_feature_apic = 0x200

abbrev pub cpu_feature_fpu : ℕ
cpu_feature_fpu = 0x001

-- The loop over the bytes of a structure.
checksum_loop : ℕ → List ℕ → ℕ
checksum_loop checksum [] = checksum
checksum_loop checksum (i ∷ v_slice) = checksum_loop (wrapping_add8 checksum i) v_slice

unfoldable pub compute_checksum : List ℕ → ℕ
unfolding checksum_loop
compute_checksum v_slice = checksum_loop 0 v_slice

unfoldable pub mpf_intel_compute_checksum : MpfIntel → ℕ
mpf_intel_compute_checksum v =
    let checksum = wrapping_sub8 (compute_checksum (image_of (mpf_intel_fields v))) v.checksum in
    wrapping_add8 (complement 8 checksum) 1

unfoldable pub compute_mp_size : ℕ → ℕ
unfolding mpf_intel_size mpc_table_size mpc_cpu_size mpc_ioapic_size mpc_bus_size mpc_intsrc_size
    mpc_lintsrc_size
compute_mp_size num_cpus =
    mpf_intel_size
    + mpc_table_size
    + mpc_cpu_size * num_cpus
    + mpc_ioapic_size
    + mpc_bus_size
    + mpc_intsrc_size * 16
    + mpc_lintsrc_size * 2

-- The entries, as the blocks of `setup_mptable` fill them in.
abbrev pub cpu_entry : ℕ → MpcCpu
cpu_entry cpu_id = record mpc_cpu_default {
  type_ = u8 mp_processor;
  apicid = cpu_id;
  apicver = apic_version;
  cpuflag = bit_or (u8 cpu_enabled) (if cpu_id == 0 then u8 cpu_bootprocessor else 0);
  cpufeature = cpu_stepping;
  featureflag = bit_or cpu_feature_apic cpu_feature_fpu;
}

abbrev pub bus_entry : MpcBus
bus_entry = record mpc_bus_default { type_ = u8 mp_bus; busid = 0; bustype = bus_type_isa }

abbrev pub ioapic_entry : ℕ → MpcIoapic
ioapic_entry ioapicid = record mpc_ioapic_default {
  type_ = u8 mp_ioapic;
  apicid = ioapicid;
  apicver = apic_version;
  flags = u8 mpc_apic_usable;
  apicaddr = io_apic_default_phys_base;
}

abbrev pub intsrc_entry : ℕ → ℕ → MpcIntsrc
intsrc_entry ioapicid i = record mpc_intsrc_default {
  type_ = u8 mp_intsrc;
  irqtype = u8 mp_irq_int;
  irqflag = u16 mp_irqdir_default;
  srcbus = 0;
  srcbusirq = i;
  dstapic = ioapicid;
  dstirq = i;
}

abbrev pub ext_int_entry : MpcLintsrc
ext_int_entry = record mpc_lintsrc_default {
  type_ = u8 mp_lintsrc;
  irqtype = u8 mp_irq_ext_int;
  irqflag = u16 mp_irqdir_default;
  srcbusid = 0;
  srcbusirq = 0;
  destapic = 0;
  destapiclint = 0;
}

abbrev pub nmi_entry : MpcLintsrc
nmi_entry = record mpc_lintsrc_default {
  type_ = u8 mp_lintsrc;
  irqtype = u8 mp_irq_nmi;
  irqflag = u16 mp_irqdir_default;
  srcbusid = 0;
  srcbusirq = 0;
  destapic = 0xff;
  destapiclint = 1;
}

-- The floating pointer, before its checksum is stored, at the given place of the table.
abbrev pub pointer_blank : ℕ → MpfIntel
pointer_blank table_base = record mpf_intel_default {
  signature = smp_magic_ident;
  length = 1;
  specification = 4;
  physptr = u32 table_base;
}

abbrev pub pointer_entry : ℕ → MpfIntel
pointer_entry table_base = record (pointer_blank table_base) {
  checksum = mpf_intel_compute_checksum (pointer_blank table_base);
}

-- The table header of a table of so many bytes, before its checksum is stored.
abbrev pub header_blank : ℕ → MpcTable
header_blank table_length = record mpc_table_default {
  signature = mpc_signature;
  length = u16 table_length;
  spec = mpc_spec;
  oem = mpc_oem;
  productid = mpc_product_id;
  lapic = apic_default_phys_base;
}

-- The header with the checksum for entries that sum to `checksum`.
abbrev pub header_entry : ℕ → ℕ → MpcTable
header_entry table_length checksum =
    let total =
      wrapping_add8 checksum
        (compute_checksum (image_of (mpc_table_fields (header_blank table_length)))) in
    record (header_blank table_length) { checksum = wrapping_add8 (complement 8 total) 1 }
