-- ===== src/Gdt/Arith.antt =====
-- A descriptor as a sum of its fields, and the getters as quotients and remainders.
use lumper.Base.{
  ℕ, ◌+◌, ◌*◌, ◌/◌, ◌%◌, ◌^◌, ◌<◌, ◌≡◌, refl, ◌∙◌, ap, ap₂, arith, bit_and, bit_or, ◌<<<◌, u32, u64,
}
use lumper.Base.Bits.{bit_or-zero, bit_or-split, bit_and-split}
use lumper.Base.Bits.Fields.{bit_and_low, bit_and_field, bit_or_low, bit_or_high, bit_or-add}
use lumper.Gdt.{
  gdt_entry, get_base, get_limit, get_g, get_db, get_l, get_avl, get_p, get_dpl, get_s, get_type,
}

-- The mask of the flags leaves out the four bits that the limit takes.
mask_flags : (f : ℕ) → f < 2 ^ 16 → bit_and f 0xf0ff ≡ f / 4096 * 4096 + f % 256
mask_flags f h =
    ap (λ (t : ℕ). bit_and t 0xf0ff) (omega arith)
    ∙ bit_and-split 12 (f / 4096) 15 (f % 4096) 255 (omega arith) (omega arith)
    ∙ omega (arith, bit_and_low 4 (f / 4096), bit_and_low 8 (f % 4096))

module _ (flags base limit : ℕ) (hf : flags < 2 ^ 16) (hb : base < 2 ^ 32)
    (hl : limit < 2 ^ 20) where
  abbrev upper : ℕ
  upper = base / 2 ^ 24 * 2 ^ 56 + (flags / 4096 * 2 ^ 52 + flags % 256 * 2 ^ 40)

  or_base_flags :
      bit_or (base / 2 ^ 24 * 2 ^ 56) (flags / 4096 * 2 ^ 52 + flags % 256 * 2 ^ 40) ≡ upper
  or_base_flags = bit_or_low 56 (base / 2 ^ 24) _ (omega arith)

  -- The high limit goes between the two parts of the flags.
  or_limit : bit_or upper (limit / 2 ^ 16 * 2 ^ 48) ≡ upper + limit / 2 ^ 16 * 2 ^ 48
  or_limit =
      ap₂ bit_or {x = upper} (omega arith) (omega arith)
      ∙ bit_or-split 52 (base / 2 ^ 24 * 16 + flags / 4096) 0 (flags % 256 * 2 ^ 40)
          (limit / 2 ^ 16 * 2 ^ 48) (omega arith) (omega arith)
      ∙ omega (
        arith,
        bit_or-zero (base / 2 ^ 24 * 16 + flags / 4096),
        bit_or_high 48 (limit / 2 ^ 16) (flags % 256 * 2 ^ 40) (omega arith),
      )

  abbrev entry_sum : ℕ
  entry_sum =
      base / 2 ^ 24 * 2 ^ 56
      + flags / 4096 * 2 ^ 52
      + limit / 2 ^ 16 * 2 ^ 48
      + flags % 256 * 2 ^ 40
      + base % 2 ^ 24 * 2 ^ 16
      + limit % 2 ^ 16

  -- The five parts, masked and shifted to their places.
  part_base_high : u64 (bit_and base 0xff00_0000 <<< 32) ≡ base / 2 ^ 24 * 2 ^ 56
  part_base_high = omega (arith, bit_and_field 24 8 base)

  part_flags : u64 (bit_and flags 0x0000_f0ff <<< 40) ≡ flags / 4096 * 2 ^ 52 + flags % 256 * 2 ^ 40
  part_flags = omega (arith, mask_flags flags hf)

  part_limit_high : u64 (bit_and limit 0x000f_0000 <<< 32) ≡ limit / 2 ^ 16 * 2 ^ 48
  part_limit_high = omega (arith, bit_and_field 16 4 limit)

  part_base_low : u64 (bit_and base 0x00ff_ffff <<< 16) ≡ base % 2 ^ 24 * 2 ^ 16
  part_base_low = omega (arith, bit_and_low 24 base)

  pub gdt_entry_as_sum : gdt_entry flags base limit ≡ entry_sum
  unfolding gdt_entry
  gdt_entry_as_sum =
      ap₂ bit_or
        (ap₂ bit_or
            (ap₂ bit_or (ap₂ bit_or part_base_high part_flags ∙ or_base_flags) part_limit_high
              ∙ or_limit)
            part_base_low
          ∙ bit_or-add 40 _
              (base / 2 ^ 24 * 2 ^ 16
                + flags / 4096 * 2 ^ 12
                + limit / 2 ^ 16 * 2 ^ 8
                + flags % 256)
              _ (omega arith) (omega arith))
        (bit_and_low 16 limit)
      ∙ bit_or-add 16 _
          (base / 2 ^ 24 * 2 ^ 40
            + flags / 4096 * 2 ^ 36
            + limit / 2 ^ 16 * 2 ^ 32
            + flags % 256 * 2 ^ 24
            + base % 2 ^ 24)
          _ (omega arith) (omega arith)
      ∙ omega arith

-- The getters at any descriptor.
module _ (entry : ℕ) (h : entry < 2 ^ 64) where
  pub get_base-eq : get_base entry ≡ entry / 2 ^ 56 * 2 ^ 24 + entry / 2 ^ 16 % 2 ^ 24
  unfolding get_base
  get_base-eq =
      ap₂ bit_or
        (ap₂ bit_or (omega (arith, bit_and_field 56 8 entry))
            (omega (arith, bit_and_field 32 8 entry))
          ∙ bit_or-add 24 (entry / 2 ^ 56 * 2 ^ 24) (entry / 2 ^ 56)
              (entry / 2 ^ 32 % 2 ^ 8 * 2 ^ 16) refl (omega arith))
        (omega (arith, bit_and_field 16 16 entry))
      ∙ bit_or-add 16 (entry / 2 ^ 56 * 2 ^ 24 + entry / 2 ^ 32 % 2 ^ 8 * 2 ^ 16)
          (entry / 2 ^ 56 * 2 ^ 8 + entry / 2 ^ 32 % 2 ^ 8) (entry / 2 ^ 16 % 2 ^ 16) (omega arith)
          (omega arith)
      ∙ omega arith

  pub get_limit-eq : get_limit entry ≡ entry / 2 ^ 48 % 2 ^ 4 * 2 ^ 16 + entry % 2 ^ 16
  unfolding get_limit
  get_limit-eq =
      ap u32 (
        ap₂ bit_or (omega (arith, bit_and_field 48 4 entry)) (bit_and_low 16 entry)
        ∙ bit_or-add 16 (entry / 2 ^ 48 % 2 ^ 4 * 2 ^ 16) (entry / 2 ^ 48 % 2 ^ 4) (entry % 2 ^ 16)
            refl (omega arith))
      ∙ omega arith

  -- The one-bit getters and the fields of the access byte.
  pub getters-eq :
      (get_g entry ≡ entry / 2 ^ 55 % 2)
      × (get_db entry ≡ entry / 2 ^ 54 % 2)
      × (get_l entry ≡ entry / 2 ^ 53 % 2)
      × (get_avl entry ≡ entry / 2 ^ 52 % 2)
      × (get_p entry ≡ entry / 2 ^ 47 % 2)
      × (get_dpl entry ≡ entry / 2 ^ 45 % 4)
      × (get_s entry ≡ entry / 2 ^ 44 % 2)
      × (get_type entry ≡ entry / 2 ^ 40 % 16)
  unfolding get_g get_db get_l get_avl get_p get_dpl get_s get_type
  getters-eq = (
    omega (arith, bit_and_field 55 1 entry),
    omega (arith, bit_and_field 54 1 entry),
    omega (arith, bit_and_field 53 1 entry),
    omega (arith, bit_and_field 52 1 entry),
    omega (arith, bit_and_field 47 1 entry),
    omega (arith, bit_and_field 45 2 entry),
    omega (arith, bit_and_field 44 1 entry),
    omega (arith, bit_and_field 40 4 entry),
  )
