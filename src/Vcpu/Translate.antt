-- ===== src/Vcpu/Translate.antt =====
-- The processor's walk through the page tables, and the identity map that the boot tables make.
use lumper.Base.{
  ℕ, zero, suc, ◌+◌, ◌*◌, ◌/◌, ◌%◌, ◌^◌, ◌<◌, ◌≡◌, ◌∙◌, ap, Option, none, some, arith, get_or, ◌==◌,
  if◌then◌else◌,
}
use lumper.Base.Bytes.{to_le_bytes, length-to_le_bytes, from_le_bytes-to_le_bytes}
use lumper.Memory.{GuestMemory}
use lumper.Memory.Read.{◌>>=◌, read_le_at, read_le_at-Holds, Holds, Holds-left, Holds-right}
use lumper.Vcpu.{pml4_start, pdpte_start, pde_start, pde}
use lumper.Vcpu.PageTables.{pdes_image, HasPageTables}

module _ (G : GuestMemory) (m : G.State) where
  -- An entry is present if bit 0 is set, and bits 12 to 51 are the address of the next table.
  next_table : ℕ → Option ℕ
  next_table entry = if entry % 2 == 1 then some (entry / 2 ^ 12 % 2 ^ 40 * 2 ^ 12) else none

  -- The last level: a page of 2 MB if bit 7 is set. A table of small pages is not followed.
  large_page : ℕ → ℕ → Option ℕ
  large_page entry va =
      if entry % 2 == 1
      then (if entry / 2 ^ 7 % 2 == 1
          then some (entry / 2 ^ 21 % 2 ^ 31 * 2 ^ 21 + va % 2 ^ 21)
          else none)
      else none

  -- The physical address of a virtual one, by four-level paging from the table at `cr3`.
  unfoldable pub translate : ℕ → ℕ → Option ℕ
  unfolding next_table large_page
  translate cr3 va = do
    pml4e ← read_le_at G m 8 (cr3 + 8 * (va / 2 ^ 39 % 512))
    pdpt ← next_table pml4e
    pdpte ← read_le_at G m 8 (pdpt + 8 * (va / 2 ^ 30 % 512))
    pd ← next_table pdpte
    entry ← read_le_at G m 8 (pd + 8 * (va / 2 ^ 21 % 512))
    large_page entry va

  Holds-pde :
      (left i a k : ℕ)
      → k < left
      → Holds G m a (pdes_image left i)
      → Holds G m (a + 8 * k) (to_le_bytes 8 (pde (i + k)))
  unfolding pdes_image
  Holds-pde zero i a k h p = absurd (omega arith)
  Holds-pde (suc left) i a zero h p = λ j q.
      ap (λ n. G.byte_at m (n + j)) (omega arith)
      ∙ Holds-left G m a (to_le_bytes 8 (pde i)) (pdes_image left (i + 1)) p j (omega arith)
      ∙ ap (λ n. some (get_or (to_le_bytes 8 (pde n)) j 0)) {x = i} (omega arith)
  Holds-pde (suc left) i a (suc k) h p = λ j q.
      ap (λ n. G.byte_at m (n + j)) (omega arith)
      ∙ Holds-pde left (i + 1) (a + 8) k (omega arith)
          (Holds-right G m a (to_le_bytes 8 (pde i)) (pdes_image left (i + 1)) p) j (omega arith)
      ∙ ap (λ n. some (get_or (to_le_bytes 8 (pde n)) j 0)) {x = i + 1 + k} (omega arith)

  read_word : (a x : ℕ) → x < 2 ^ 64 → Holds G m a (to_le_bytes 8 x) → read_le_at G m 8 a ≡ some x
  read_word a x h p =
      read_le_at-Holds G m 8 a (to_le_bytes 8 x) (length-to_le_bytes 8 x) p
      ∙ ap some (from_le_bytes-to_le_bytes 8 x h)

  large_page-pde : (va : ℕ) → va < 2 ^ 30 → large_page (pde (va / 2 ^ 21 % 512)) va ≡ some va
  unfolding large_page
  large_page-pde va h = ground arith

  -- With the boot page tables in memory, every virtual address of the first gigabyte is mapped to
  -- itself.
  pub translate-HasPageTables :
      HasPageTables G m → (va : ℕ) → va < 2 ^ 30 → translate pml4_start va ≡ some va
  unfolding translate
  translate-HasPageTables t va h = rw (top, middle, leaf) (large_page-pde va h)
    where
      top : read_le_at G m 8 (pml4_start + 8 * (va / 2 ^ 39 % 512)) ≡ some (pdpte_start + 3)
      top =
          ap (read_le_at G m 8) (omega arith)
          ∙ read_word pml4_start (pdpte_start + 3) (omega arith) t.pml4

      middle : read_le_at G m 8 (pdpte_start + 8 * (va / 2 ^ 30 % 512)) ≡ some (pde_start + 3)
      middle =
          ap (read_le_at G m 8) (omega arith)
          ∙ read_word pdpte_start (pde_start + 3) (omega arith) t.pdpte

      leaf : read_le_at G m 8 (pde_start + 8 * (va / 2 ^ 21 % 512)) ≡ some (pde (va / 2 ^ 21 % 512))
      leaf =
          read_word (pde_start + 8 * (va / 2 ^ 21 % 512)) (pde (0 + va / 2 ^ 21 % 512))
            (omega arith) (Holds-pde 512 0 pde_start (va / 2 ^ 21 % 512) (omega arith) t.pdes)
          ∙ ap (λ n. some (pde n)) (omega arith)
