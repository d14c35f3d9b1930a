-- ===== src/Kernel/Bootparams.antt =====
-- The memory map that the kernel is given.
use lumper.Base.{
  ℕ, zero, suc, ◌+◌, ◌-◌, ◌≤◌, ◌<◌, ◌≡◌, ◌≢◌, refl, ◌∙◌, sym, ap, some, List, [], ◌∷◌, arith, false,
  length, set, get_elem?, u8, leb, eq→==, ne→not-==, ◌==◌, if◌then◌else◌, ok, length-set,
}
use native.Mathlib.Decide.{ℕ_discrete}
use lumper.Memory.{GuestMemory, IsLawful}
use lumper.Kernel.{
  E820Entry, BootParams, add_e820_entry, with_header, build_bootparams, ebda_start, e820_ram,
}

get_elem?-set_self :
    {A : Type 0} (xs : List A) (i : ℕ) (v : A) → i < length xs → get_elem? (set xs i v) i ≡ some v
get_elem?-set_self [] i v h = absurd (omega arith)
get_elem?-set_self (x ∷ xs) zero v h = refl
get_elem?-set_self (x ∷ xs) (suc i) v h = get_elem?-set_self xs i v (omega arith)

get_elem?-set_ne :
    {A : Type 0} (xs : List A) (i j : ℕ) (v : A) → i ≢ j → get_elem? (set xs i v) j ≡ get_elem? xs j
get_elem?-set_ne [] i j v h = refl
get_elem?-set_ne (x ∷ xs) zero zero v h = absurd (h refl)
get_elem?-set_ne (x ∷ xs) zero (suc j) v h = refl
get_elem?-set_ne (x ∷ xs) (suc i) zero v h = refl
get_elem?-set_ne (x ∷ xs) (suc i) (suc j) v h = get_elem?-set_ne xs i j v (λ e. h (ap suc e))

get_elem?-set :
    {A : Type 0} (xs : List A) (i j : ℕ) (v : A)
    → i < length xs
    → get_elem? (set xs i v) j ≡ (if i == j then some v else get_elem? xs j)
get_elem?-set xs i j v h = elim (ℕ_discrete i j) [
  | yes e ↦ rw (eq→== i j e) (ap (get_elem? (set xs i v)) (sym e) ∙ get_elem?-set_self xs i v h)
  | no ne ↦ rw (ne→not-== i j ne) (get_elem?-set_ne xs i j v ne)
]

module _ {Rest : Type 0} where
  -- While the count is below the length of the table, cut to eight bits, an entry is added at the
  -- count, the others stay and the count grows by one, never past the length of the table.
  pub add_e820_entry_room :
      (addr size mem_type : ℕ) (params : BootParams Rest)
      → params.e820_entries < u8 (length params.e820_table)
      → let out = add_e820_entry addr size mem_type params in
        (out.1 ≡ ok tt)
        × ((j : ℕ)
            → get_elem? (out.0).e820_table j ≡ (
                if params.e820_entries == j
                then some (record { addr = addr; size = size; type_ = mem_type })
                else get_elem? params.e820_table j))
        × ((out.0).e820_entries ≡ params.e820_entries + 1)
        × ((out.0).e820_entries ≤ length (out.0).e820_table)
  unfolding add_e820_entry
  add_e820_entry_room addr size mem_type params h = rw room (
    refl,
    λ j. get_elem?-set params.e820_table params.e820_entries j entry (omega arith),
    refl,
    omega (arith, length-set params.e820_table params.e820_entries entry),
  )
    where
      entry : E820Entry
      entry = record { addr = addr; size = size; type_ = mem_type }

      room : leb (u8 (length params.e820_table)) params.e820_entries ≡ false
      room = ground arith

  -- From defaults with an empty map of 2 to 255 entries, and with high memory that starts within
  -- guest memory: the map has exactly two entries of RAM, the low one up to the EBDA and the high
  -- one from `himem_start` up to the last address, which itself is left out, and the header has
  -- its magic numbers and nothing else new.
  pub build_bootparams_lem :
      (G : GuestMemory) (default : BootParams Rest) (m : G.State) (himem_start : ℕ)
      → IsLawful G
      → default.e820_entries ≡ 0
      → 2 ≤ length default.e820_table
      → length default.e820_table < 256
      → himem_start ≤ G.last_addr m
      → (params : BootParams Rest) × (build_bootparams G default m himem_start ≡ ok params)
        × (params.e820_entries ≡ 2)
        × (get_elem? params.e820_table 0
            ≡ some (record { addr = 0; size = ebda_start; type_ = e820_ram }))
        × (get_elem? params.e820_table 1
            ≡ some (record {
              addr = himem_start;
              size = G.last_addr m - himem_start;
              type_ = e820_ram;
            }))
        × (params.hdr ≡ record default.hdr {
          boot_flag = 0xaa55;
          header = 0x5372_6448;
          kernel_alignment = 0x0100_0000;
          type_of_loader = 0xff;
        })
  unfolding build_bootparams
  build_bootparams_lem G default m himem_start L none_yet low high h = (
    params,
    rw (room0, L.checked_offset_from_fits (G.last_addr m) himem_start h, room1) refl,
    omega arith,
    get_elem?-set_ne (set t n low_entry) (n + 1) 0 high_entry (omega arith)
        ∙ ap (λ k. get_elem? (set t n low_entry) k) (sym none_yet)
        ∙ get_elem?-set_self t n low_entry (omega arith),
    ap (λ k. get_elem? (set (set t n low_entry) (n + 1) high_entry) k) {y = n + 1} (omega arith)
        ∙ get_elem?-set_self (set t n low_entry) (n + 1) high_entry
            (omega (arith, length-set t n low_entry)),
    refl,
  )
    where
      n : ℕ
      n = default.e820_entries

      t : List E820Entry
      t = default.e820_table

      low_entry : E820Entry
      low_entry = record { addr = 0; size = ebda_start; type_ = e820_ram }

      high_entry : E820Entry
      high_entry = record {
        addr = himem_start;
        size = G.last_addr m - himem_start;
        type_ = e820_ram;
      }

      params : BootParams Rest
      params = record (with_header default) {
        e820_table = set (set t n low_entry) (n + 1) high_entry;
        e820_entries = n + 1 + 1;
      }

      room0 : leb (u8 (length default.e820_table)) default.e820_entries ≡ false
      room0 = ground arith

      room1 :
          leb
            (u8 (length (set default.e820_table default.e820_entries low_entry)))
            (default.e820_entries + 1)
          ≡ false
      room1 = ground (arith, length-set t n low_entry)
