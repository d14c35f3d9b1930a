-- ===== src/Vcpu/PageTables.antt =====
-- The page tables in guest memory after `write_page_tables`.
use lumper.Base.{
  ℕ, zero, suc, ◌+◌, ◌*◌, ◌^◌, ◌≤◌, ◌<◌, ◌≡◌, refl, ◌∙◌, ap, ◌⊎◌, inl, List, [], ◌++◌, arith,
  length, bit_or, ok, proceed, Result,
}
use lumper.Base.Bytes.{to_le_bytes}
use lumper.Memory.{GuestMemory, Covers, IsLawful}
use lumper.Memory.Laws.{Emits, Wrote-nil, Wrote-append, Covers-Wrote, Covers-part}
use lumper.Memory.Read.{Holds, Holds-Wrote}
use lumper.Vcpu.{pml4_start, pdpte_start, pde_start, pde, write_pdes, write_page_tables}

-- So many entries of the page directory, from the given one on.
unfoldable pub pdes_image : ℕ → ℕ → List ℕ
pdes_image zero i = []
pdes_image (suc left) i = to_le_bytes 8 (pde i) ++ pdes_image left (i + 1)

pub length-pdes_image : (left i : ℕ) → length (pdes_image left i) ≡ 8 * left
unfolding pdes_image
length-pdes_image zero i = omega arith
length-pdes_image (suc left) i = omega (arith, length-pdes_image left (i + 1))

module _ (G : GuestMemory) (L : IsLawful G) where
  open G use {State}

  -- A write of eight bytes that succeeds.
  pub write_word :
      (x a : ℕ) (m : State)
      → Covers G m a 8
      → Emits G (G.write_slice (to_le_bytes 8 x) a m) m a (to_le_bytes 8 x) tt
  write_word x a m c = record {
    final = (G.write_slice (to_le_bytes 8 x) a m).0;
    returns = λ i. (
      (G.write_slice (to_le_bytes 8 x) a m).0,
      L.write_slice_ok (to_le_bytes 8 x) a m (omega arith) c i,
    );
    wrote = L.write_slice_wrote (to_le_bytes 8 x) a m (omega arith) c;
  }

  WritesPdes : ℕ → ℕ → Type 0
  WritesPdes left i =
      (m : State)
      → Covers G m (pde_start + i * 8) (8 * left)
      → Emits G (write_pdes G left i m) m (pde_start + i * 8) (pdes_image left i) tt

  write_pdes-suc :
      (left i : ℕ)
      → pde_start + 8 * (i + suc left) < 2 ^ 64
      → WritesPdes left (i + 1)
      → WritesPdes (suc left) i
  unfolding write_pdes pdes_image WritesPdes
  write_pdes-suc left i h later m c = record {
    final = rest.final;
    returns =
        rw (L.unchecked_add_fits pde_start (i * 8) (omega arith))
          (ap (λ o. proceed o (λ _. write_pdes G left (i + 1))) first.returns ∙ rest.returns);
    wrote = Wrote-append G first.wrote rest.wrote (omega arith);
  }
    where
      first :
          Emits G
            (G.write_slice (to_le_bytes 8 (pde i)) (pde_start + i * 8) m)
            m
            (pde_start + i * 8)
            (to_le_bytes 8 (pde i))
            tt
      first =
          write_word (pde i) (pde_start + i * 8) m
            (Covers-part G m _ (8 * suc left) _ 8 c (omega arith) (omega arith))

      rest :
          Emits G
            (write_pdes G left (i + 1) first.final)
            first.final
            (pde_start + (i + 1) * 8)
            (pdes_image left (i + 1))
            tt
      rest = later first.final (
          Covers-Wrote G first.wrote _ _
            (Covers-part G m _ (8 * suc left) _ (8 * left) c (omega arith) (omega arith)))

  write_pdes-Emits : (left i : ℕ) → pde_start + 8 * (i + left) < 2 ^ 64 → WritesPdes left i
  unfolding write_pdes pdes_image WritesPdes
  write_pdes-Emits zero i h m c = record {
    final = m;
    returns = refl;
    wrote = Wrote-nil G m (pde_start + i * 8);
  }
  write_pdes-Emits (suc left) i h m c =
      write_pdes-suc left i h (λ m' c'. write_pdes-Emits left (i + 1) (omega arith) m' c') m c

-- The one entry of each of the two upper levels.
abbrev pml4_bytes : List ℕ
pml4_bytes = to_le_bytes 8 (bit_or pdpte_start 0x03)

abbrev pdpte_bytes : List ℕ
pdpte_bytes = to_le_bytes 8 (bit_or pde_start 0x03)

-- Guest memory that covers all that the boot structures take.
abbrev pub CoversBoot : (G : GuestMemory) → G.State → Type 0
CoversBoot G m = Covers G m 0 0xc000

-- The page tables stand in memory.
pub record HasPageTables (G : GuestMemory) (m : G.State) : Type 0 where
  pub pml4 : Holds G m pml4_start pml4_bytes
  pub pdpte : Holds G m pdpte_start pdpte_bytes
  pub pdes : Holds G m pde_start (pdes_image 512 0)

-- A successful run that leaves the page tables in memory, and nothing else changed but their pages.
pub record Maps (G : GuestMemory) (outcome : G.State × Result G.MemoryError (Unit {0}))
    (m : G.State) : Type 0 where
  pub final : G.State
  pub returns : outcome ≡ (final, ok tt)
  pub ranges : (j : ℕ) → G.address_in_range final j ≡ G.address_in_range m j
  pub tables : HasPageTables G final
  pub outside :
      (j : ℕ) → (j < pml4_start) ⊎ (pde_start + 4096 ≤ j) → G.byte_at final j ≡ G.byte_at m j

module _ (G : GuestMemory) (L : IsLawful G) (m : G.State) (c : CoversBoot G m) where
  sub : (m' : G.State) (a k : ℕ) → CoversBoot G m' → a + k ≤ 0xc000 → Covers G m' a k
  sub m' a k c' h = Covers-part G m' 0 0xc000 a k c' (omega arith) (omega arith)

  first : Emits G (G.write_slice pml4_bytes pml4_start m) m pml4_start pml4_bytes tt
  first = write_word G L (bit_or pdpte_start 0x03) pml4_start m (sub m pml4_start 8 c (omega arith))

  c1 : CoversBoot G first.final
  c1 = Covers-Wrote G first.wrote _ _ c

  second :
      Emits G
        (G.write_slice pdpte_bytes pdpte_start first.final)
        first.final
        pdpte_start
        pdpte_bytes
        tt
  unfolding c1
  second =
      write_word G L (bit_or pde_start 0x03) pdpte_start first.final
        (sub first.final pdpte_start 8 c1 (omega arith))

  third : Emits G (write_pdes G 512 0 second.final) second.final pde_start (pdes_image 512 0) tt
  unfolding WritesPdes
  third =
      write_pdes-Emits G L 512 0 (omega arith) second.final
        (sub second.final pde_start 4096 (Covers-Wrote G second.wrote _ _ c1) (omega arith))

  -- On guest memory that covers the boot structures, `write_page_tables` succeeds and leaves the
  -- three levels of tables in memory; only their pages change.
  pub write_page_tables-Maps : Maps G (write_page_tables G m) m
  unfolding write_page_tables
  write_page_tables-Maps = record {
    final = third.final;
    returns = rw (first.returns, second.returns) third.returns;
    ranges = λ j. third.wrote.ranges j ∙ second.wrote.ranges j ∙ first.wrote.ranges j;
    tables = record {
      pml4 =
          Holds-Wrote G pml4_start pml4_bytes third.wrote (inl (omega arith)) (
            Holds-Wrote G pml4_start pml4_bytes second.wrote (inl (omega arith))
              first.wrote.inside);
      pdpte =
          Holds-Wrote G pdpte_start pdpte_bytes third.wrote (inl (omega arith)) second.wrote.inside;
      pdes = third.wrote.inside;
    };
    outside = λ j h.
        third.wrote.outside j (omega (arith, length-pdes_image 512 0))
        ∙ second.wrote.outside j (omega arith)
        ∙ first.wrote.outside j (omega arith);
  }
