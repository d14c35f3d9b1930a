-- ===== src/Gdt/RoundTrip.antt =====
-- What is packed into a descriptor comes back from it.
use lumper.Base.{ℕ, ◌+◌, ◌*◌, ◌/◌, ◌%◌, ◌^◌, ◌<◌, ◌≡◌, ◌∙◌, arith, u8, ◌==◌, if◌then◌else◌}
use lumper.Gdt.{
  gdt_entry, get_base, get_limit, get_g, get_db, get_l, get_avl, get_p, get_dpl, get_s, get_type,
  KvmSegment, kvm_segment_from_gdt,
}
use lumper.Gdt.Arith.{gdt_entry_as_sum, get_base-eq, get_limit-eq, getters-eq}

-- The segment that the arguments of `gdt_entry` describe, bit by bit of the flags.
abbrev pub segment_of : ℕ → ℕ → ℕ → ℕ → KvmSegment
segment_of flags base limit index = record {
  base = base;
  limit = limit;
  selector = u8 (index * 8);
  type_ = flags % 16;
  present = flags / 2 ^ 7 % 2;
  dpl = flags / 2 ^ 5 % 4;
  db = flags / 2 ^ 14 % 2;
  s = flags / 2 ^ 4 % 2;
  l = flags / 2 ^ 13 % 2;
  g = flags / 2 ^ 15 % 2;
  avl = flags / 2 ^ 12 % 2;
  padding = 0;
  unusable = if flags / 2 ^ 7 % 2 == 0 then 1 else 0;
}

module _ (flags base limit : ℕ) (hf : flags < 2 ^ 16) (hb : base < 2 ^ 32)
    (hl : limit < 2 ^ 20) where
  sum_eq :
      gdt_entry flags base limit
      ≡ base / 2 ^ 24 * 2 ^ 56
        + flags / 4096 * 2 ^ 52
        + limit / 2 ^ 16 * 2 ^ 48
        + flags % 256 * 2 ^ 40
        + base % 2 ^ 24 * 2 ^ 16
        + limit % 2 ^ 16
  sum_eq = gdt_entry_as_sum flags base limit hf hb hl

  pub gdt_entry-lt : gdt_entry flags base limit < 2 ^ 64
  gdt_entry-lt = omega (arith, sum_eq)

  get_base-gdt_entry : get_base (gdt_entry flags base limit) ≡ base
  get_base-gdt_entry = omega (arith, sum_eq, get_base-eq (gdt_entry flags base limit) gdt_entry-lt)

  get_limit-gdt_entry : get_limit (gdt_entry flags base limit) ≡ limit
  get_limit-gdt_entry =
      omega (arith, sum_eq, get_limit-eq (gdt_entry flags base limit) gdt_entry-lt)

  get_p-gdt_entry : get_p (gdt_entry flags base limit) ≡ flags / 2 ^ 7 % 2
  get_p-gdt_entry = (getters-eq (gdt_entry flags base limit) gdt_entry-lt).4 ∙ omega (arith, sum_eq)

  record Attributes : Type 0 where
    type_ : get_type (gdt_entry flags base limit) ≡ flags % 16
    dpl : get_dpl (gdt_entry flags base limit) ≡ flags / 2 ^ 5 % 4
    db : get_db (gdt_entry flags base limit) ≡ flags / 2 ^ 14 % 2
    s : get_s (gdt_entry flags base limit) ≡ flags / 2 ^ 4 % 2
    l : get_l (gdt_entry flags base limit) ≡ flags / 2 ^ 13 % 2
    g : get_g (gdt_entry flags base limit) ≡ flags / 2 ^ 15 % 2
    avl : get_avl (gdt_entry flags base limit) ≡ flags / 2 ^ 12 % 2

  attribute : Attributes
  attribute =
      let got = getters-eq (gdt_entry flags base limit) gdt_entry-lt in
      record {
        type_ = got.7 ∙ omega (arith, sum_eq);
        dpl = got.5 ∙ omega (arith, sum_eq);
        db = got.1 ∙ omega (arith, sum_eq);
        s = got.6 ∙ omega (arith, sum_eq);
        l = got.2 ∙ omega (arith, sum_eq);
        g = got.0 ∙ omega (arith, sum_eq);
        avl = got.3 ∙ omega (arith, sum_eq);
      }

  -- For flags of 16 bits, a base of 32 bits and a limit of 20 bits, the segment that KVM gets for
  -- the packed descriptor has that base and that limit, and every attribute is the bit of the
  -- flags that stands for it; it is unusable just if it is not present.
  pub kvm_segment_from_gdt-gdt_entry :
      (index : ℕ)
      → kvm_segment_from_gdt (gdt_entry flags base limit) index ≡ segment_of flags base limit index
  unfolding kvm_segment_from_gdt
  kvm_segment_from_gdt-gdt_entry index = λ i. record {
    base = get_base-gdt_entry i;
    limit = get_limit-gdt_entry i;
    selector = u8 (index * 8);
    type_ = attribute.type_ i;
    present = get_p-gdt_entry i;
    dpl = attribute.dpl i;
    db = attribute.db i;
    s = attribute.s i;
    l = attribute.l i;
    g = attribute.g i;
    avl = attribute.avl i;
    padding = 0;
    unusable = if get_p-gdt_entry i == 0 then 1 else 0;
  }

-- Any 64-bit descriptor is rebuilt from its base, its limit and its bits 40 to 55.
pub gdt_entry-getters :
    (entry : ℕ)
    → entry < 2 ^ 64
    → gdt_entry (entry / 2 ^ 40 % 2 ^ 16) (get_base entry) (get_limit entry) ≡ entry
gdt_entry-getters entry h = omega (
  arith,
  base_eq,
  limit_eq,
  gdt_entry_as_sum (entry / 2 ^ 40 % 2 ^ 16) (get_base entry) (get_limit entry) (omega arith)
      (omega (arith, base_eq)) (omega (arith, limit_eq)),
)
  where
    base_eq : get_base entry ≡ entry / 2 ^ 56 * 2 ^ 24 + entry / 2 ^ 16 % 2 ^ 24
    base_eq = get_base-eq entry h

    limit_eq : get_limit entry ≡ entry / 2 ^ 48 % 2 ^ 4 * 2 ^ 16 + entry % 2 ^ 16
    limit_eq = get_limit-eq entry h
