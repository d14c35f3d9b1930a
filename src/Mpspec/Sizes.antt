-- ===== src/Mpspec/Sizes.antt =====
-- `mem::size_of` of the structures, and the length of their memory.
use lumper.Base.{ℕ, ◌≡◌, arith, length, length-append}
use lumper.Mpspec.Repr.{image_of, size_of_fields}
use lumper.Mpspec.Structs.{
  MpfIntel, mpf_intel_fields, mpf_intel_default, MpcTable, mpc_table_fields, mpc_table_default,
  mpc_cpu_fields, mpc_cpu_default, mpc_bus_fields, mpc_bus_default, mpc_ioapic_fields,
  mpc_ioapic_default, mpc_intsrc_fields, mpc_intsrc_default, mpc_lintsrc_fields,
  mpc_lintsrc_default,
}

unfoldable pub mpf_intel_size : ℕ
unfolding mpf_intel_fields
mpf_intel_size = size_of_fields (mpf_intel_fields mpf_intel_default)

unfoldable pub mpc_table_size : ℕ
unfolding mpc_table_fields
mpc_table_size = size_of_fields (mpc_table_fields mpc_table_default)

unfoldable pub mpc_cpu_size : ℕ
unfolding mpc_cpu_fields
mpc_cpu_size = size_of_fields (mpc_cpu_fields mpc_cpu_default)

unfoldable pub mpc_bus_size : ℕ
unfolding mpc_bus_fields
mpc_bus_size = size_of_fields (mpc_bus_fields mpc_bus_default)

unfoldable pub mpc_ioapic_size : ℕ
unfolding mpc_ioapic_fields
mpc_ioapic_size = size_of_fields (mpc_ioapic_fields mpc_ioapic_default)

unfoldable pub mpc_intsrc_size : ℕ
unfolding mpc_intsrc_fields
mpc_intsrc_size = size_of_fields (mpc_intsrc_fields mpc_intsrc_default)

unfoldable pub mpc_lintsrc_size : ℕ
unfolding mpc_lintsrc_fields
mpc_lintsrc_size = size_of_fields (mpc_lintsrc_fields mpc_lintsrc_default)

-- The arrays of a structure have their declared lengths.
pub length-mpf_intel :
    (v : MpfIntel)
    → length v.signature ≡ 4
    → length (image_of (mpf_intel_fields v)) ≡ mpf_intel_size
unfolding mpf_intel_size
length-mpf_intel v h = omega (arith, length-append v.signature)

pub length-mpc_table :
    (v : MpcTable)
    → length v.signature ≡ 4
    → length v.oem ≡ 8
    → length v.productid ≡ 12
    → length (image_of (mpc_table_fields v)) ≡ mpc_table_size
unfolding mpc_table_size
length-mpc_table v h k l =
    omega (arith, length-append v.signature, length-append v.oem, length-append v.productid)
