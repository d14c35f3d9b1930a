-- ===== src/Gdt/Table.antt =====
-- The tables in guest memory.
use lumper.Base.{
  ℕ, ◌+◌, ◌*◌, ◌^◌, ◌<◌, ◌≡◌, refl, ◌∙◌, ap, List, [], ◌∷◌, ◌++◌, arith, length, ok, proceed, true,
}
use lumper.Base.Bytes.{to_le_bytes}
use lumper.Memory.{GuestMemory, Covers, IsLawful}
use lumper.Memory.Laws.{Emits, Wrote-nil, Wrote-append, Covers-Wrote, Covers-part}
use lumper.Gdt.{boot_gdt_offset, entry_address, write_gdt_entries, write_gdt_table}

-- The entries as the processor reads them: eight bytes each, the lowest first.
unfoldable pub table_bytes : List ℕ → List ℕ
table_bytes [] = []
table_bytes (entry ∷ table) = to_le_bytes 8 entry ++ table_bytes table

pub length-table_bytes : (table : List ℕ) → length (table_bytes table) ≡ 8 * length table
unfolding table_bytes
length-table_bytes [] = refl
length-table_bytes (entry ∷ table) = omega (arith, length-table_bytes table)

module _ (G : GuestMemory) (L : IsLawful G) where
  open G use {State}

  entry_address-eq :
      (index : ℕ) (m : State)
      → boot_gdt_offset + index * 8 < 2 ^ 64
      → G.address_in_range m (boot_gdt_offset + index * 8) ≡ true
      → entry_address G index m ≡ (m, ok (boot_gdt_offset + index * 8))
  unfolding entry_address
  entry_address-eq index m h r =
      rw (L.checked_offset_in_range m boot_gdt_offset (index * 8) h r, entry_address) refl

  -- The table from `index` on is written, when guest memory covers it.
  WritesFrom : ℕ → List ℕ → Type 0
  WritesFrom index table =
      (m : State)
      → Covers G m (boot_gdt_offset + index * 8) (8 * length table)
      → Emits G (write_gdt_entries G index table m) m (boot_gdt_offset + index * 8)
          (table_bytes table) tt

  write_gdt_entries-cons :
      (index entry : ℕ) (table : List ℕ)
      → boot_gdt_offset + 8 * (index + length (entry ∷ table)) < 2 ^ 64
      → WritesFrom (index + 1) table
      → WritesFrom index (entry ∷ table)
  unfolding write_gdt_entries table_bytes WritesFrom
  write_gdt_entries-cons index entry table h later m c = record {
    final = rest.final;
    returns =
        rw (entry_address-eq index m (omega arith) first)
          (ap (λ o. proceed o (λ _. write_gdt_entries G (index + 1) table)) written ∙ rest.returns);
    wrote =
        Wrote-append G (L.write_slice_wrote bytes start m (omega arith) here) rest.wrote
          (omega arith);
  }
    where
      start : ℕ
      start = boot_gdt_offset + index * 8

      bytes : List ℕ
      bytes = to_le_bytes 8 entry

      here : Covers G m start 8
      here =
          Covers-part G m start (8 * length (entry ∷ table)) start 8 c (omega arith) (omega arith)

      first : G.address_in_range m start ≡ true
      first = ap (G.address_in_range m) (omega arith) ∙ here 0 (omega arith)

      after : State
      after = (G.write_slice bytes start m).0

      written : G.write_slice bytes start m ≡ (after, ok tt)
      written = λ i. (after, L.write_slice_ok bytes start m (omega arith) here i)

      beyond : Covers G after (boot_gdt_offset + (index + 1) * 8) (8 * length table)
      beyond = Covers-Wrote G (L.write_slice_wrote bytes start m (omega arith) here) _ _ (
          Covers-part G m start (8 * length (entry ∷ table)) _ (8 * length table) c (omega arith)
            (omega arith))

      rest :
          Emits G
            (write_gdt_entries G (index + 1) table after)
            after
            (boot_gdt_offset + (index + 1) * 8)
            (table_bytes table)
            tt
      rest = later after beyond

  write_gdt_entries-Emits :
      (index : ℕ) (table : List ℕ)
      → boot_gdt_offset + 8 * (index + length table) < 2 ^ 64
      → WritesFrom index table
  unfolding write_gdt_entries table_bytes WritesFrom
  write_gdt_entries-Emits index [] h m c = record {
    final = m;
    returns = refl;
    wrote = Wrote-nil G m (boot_gdt_offset + index * 8);
  }
  write_gdt_entries-Emits index (entry ∷ table) h m c =
      write_gdt_entries-cons index entry table h
        (λ m' c'. write_gdt_entries-Emits (index + 1) table (omega arith) m' c') m c

  -- On guest memory that covers the table, `write_gdt_table` succeeds and stores every entry as
  -- eight little-endian bytes, entry `i` at `BOOT_GDT_OFFSET + 8 * i`, and changes nothing else.
  pub write_gdt_table-Emits :
      (table : List ℕ) (m : State)
      → boot_gdt_offset + 8 * length table < 2 ^ 64
      → Covers G m boot_gdt_offset (8 * length table)
      → Emits G (write_gdt_table G table m) m boot_gdt_offset (table_bytes table) tt
  unfolding write_gdt_table WritesFrom
  write_gdt_table-Emits table m h c = write_gdt_entries-Emits 0 table (omega arith) m c
