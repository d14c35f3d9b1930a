-- ===== src/Mptable/Image.antt =====
-- The bytes of a whole MP table, as one list, and what a reader of the table finds in them.
use lumper.Base.{
  ℕ, zero, suc, ◌+◌, ◌*◌, ◌%◌, ◌≡◌, refl, List, [], ◌++◌, arith, length, length-append, u8,
}
use lumper.Base.Bytes.{byte_sum}
use lumper.Mpspec.{
  image_of, mpf_intel_fields, mpf_intel_size, mpc_table_fields, mpc_table_size, mpc_cpu_fields,
  mpc_cpu_size, mpc_bus_fields, mpc_ioapic_fields, mpc_intsrc_fields, mpc_lintsrc_fields,
}
use lumper.Mptable.{
  mptable_start, compute_mp_size, cpu_entry, bus_entry, ioapic_entry, intsrc_entry, ext_int_entry,
  nmi_entry, pointer_entry, header_entry,
}
use lumper.Mptable.Checksum.{byte_sum-header_entry}

abbrev pub cpu_image : ℕ → List ℕ
cpu_image cpu_id = image_of (mpc_cpu_fields (cpu_entry cpu_id))

abbrev pub intsrc_image : ℕ → ℕ → List ℕ
intsrc_image ioapicid i = image_of (mpc_intsrc_fields (intsrc_entry ioapicid i))

-- So many entries, from the given number on.
unfoldable pub cpus_image : ℕ → ℕ → List ℕ
cpus_image zero cpu_id = []
cpus_image (suc left) cpu_id = cpu_image cpu_id ++ cpus_image left (cpu_id + 1)

unfoldable pub intsrcs_image : ℕ → ℕ → ℕ → List ℕ
intsrcs_image ioapicid zero i = []
intsrcs_image ioapicid (suc left) i = intsrc_image ioapicid i ++ intsrcs_image ioapicid left (i + 1)

abbrev pub bus_image : List ℕ
bus_image = image_of (mpc_bus_fields bus_entry)

abbrev pub ioapic_image : ℕ → List ℕ
ioapic_image ioapicid = image_of (mpc_ioapic_fields (ioapic_entry ioapicid))

abbrev pub lintsrcs_image : List ℕ
lintsrcs_image =
    image_of (mpc_lintsrc_fields ext_int_entry) ++ image_of (mpc_lintsrc_fields nmi_entry)

unfoldable pub entries_image : ℕ → List ℕ
entries_image n =
    cpus_image n 0
    ++ (bus_image
        ++ (ioapic_image (u8 (n + 1)) ++ (intsrcs_image (u8 (n + 1)) 16 0 ++ lintsrcs_image)))

abbrev pub header_image : ℕ → List ℕ
header_image n = image_of (
    mpc_table_fields
      (header_entry (mpc_table_size + length (entries_image n)) (byte_sum (entries_image n) % 256)))

-- The table that the floating pointer points to: the header and the entries.
abbrev pub table_image : ℕ → List ℕ
table_image n = header_image n ++ entries_image n

abbrev pub pointer_image : List ℕ
pointer_image = image_of (mpf_intel_fields (pointer_entry (mptable_start + mpf_intel_size)))

abbrev pub mptable_image : ℕ → List ℕ
mptable_image n = pointer_image ++ table_image n

pub length-cpu_image : (i : ℕ) → length (cpu_image i) ≡ mpc_cpu_size
unfolding mpc_cpu_size
length-cpu_image i = refl

pub length-cpus_image : (left i : ℕ) → length (cpus_image left i) ≡ 20 * left
unfolding cpus_image mpc_cpu_size
length-cpus_image zero i = omega arith
length-cpus_image (suc left) i = omega (
  arith,
  length-append (cpu_image i) (cpus_image left (i + 1)),
  length-cpu_image i,
  length-cpus_image left (i + 1),
)

pub length-intsrcs_image : (a left i : ℕ) → length (intsrcs_image a left i) ≡ 8 * left
unfolding intsrcs_image mpc_intsrc_fields
length-intsrcs_image a zero i = omega arith
length-intsrcs_image a (suc left) i = omega (
  arith,
  length-append (intsrc_image a i) (intsrcs_image a left (i + 1)),
  length-intsrcs_image a left (i + 1),
)

pub length-entries_image : (n : ℕ) → length (entries_image n) ≡ 20 * n + 160
unfolding entries_image mpc_bus_fields mpc_ioapic_fields mpc_lintsrc_fields
length-entries_image n = omega (
  arith,
  length-append (cpus_image n 0),
  length-append (intsrcs_image (u8 (n + 1)) 16 0),
  length-cpus_image n 0,
  length-intsrcs_image (u8 (n + 1)) 16 0,
)

pub length-header_image : (n : ℕ) → length (header_image n) ≡ mpc_table_size
unfolding mpc_table_size mpc_table_fields
length-header_image n = refl

pub length-pointer_image : length pointer_image ≡ mpf_intel_size
unfolding mpf_intel_size mpf_intel_fields
length-pointer_image = refl

-- `compute_mp_size` is the length of the table that is written.
pub length-mptable_image : (n : ℕ) → length (mptable_image n) ≡ compute_mp_size n
unfolding compute_mp_size
length-mptable_image n = omega (
  arith,
  length-append pointer_image (table_image n),
  length-append (header_image n) (entries_image n),
  length-pointer_image,
  length-header_image n,
  length-entries_image n,
)

-- The table, header and entries together, sums to 0 modulo 256.
pub byte_sum-table_image : (n : ℕ) → byte_sum (table_image n) % 256 ≡ 0
byte_sum-table_image n =
    byte_sum-header_entry (mpc_table_size + length (entries_image n))
      (byte_sum (entries_image n) % 256) (entries_image n) refl
