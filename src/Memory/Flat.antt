-- ===== src/Memory/Flat.antt =====
-- Guest memory of one region, as `VMM::configure_memory` makes it: a concrete instance, for tests.
use lumper.Base.{
  ℕ, ◌+◌, ◌-◌, ◌^◌, ◌<◌, ◌≡◌, refl, ap, sym, subst, Bool, true, ◌&&◌, Option, none, some, List, ok,
  err, Eff, arith, length, get_or, replicate, length-replicate, ltb, leb, if◌then◌else◌,
}
use lumper.Memory.{GuestMemory, Covers, Wrote, IsLawful}

pub record Flat : Type 0 where
  pub start : ℕ
  pub size : ℕ
  pub cell : ℕ → ℕ

abbrev inside_run : ℕ → ℕ → ℕ → Bool
inside_run a n j = leb a j && ltb j (a + n)

abbrev store : List ℕ → ℕ → Flat → Flat
store bs a m = record m {
  cell = λ j. if inside_run a (length bs) j then get_or bs (j - a) 0 else m.cell j;
}

abbrev fits : ℕ → ℕ → Flat → Bool
fits a n m = leb m.start a && leb (a + n) (m.start + m.size)

-- The error is the address.
abbrev write : List ℕ → ℕ → Eff Flat ℕ (Unit {0})
write bs a m = if fits a (length bs) m then (store bs a m, ok tt) else (m, err a)

abbrev fill : ℕ → ℕ → ℕ → Eff Flat ℕ ℕ
fill b a n m = if fits a n m then (store (replicate n b) a m, ok n) else (m, err a)

abbrev add_checked : ℕ → ℕ → Option ℕ
add_checked a b = if ltb (a + b) (2 ^ 64) then some (a + b) else none

abbrev pub flat_memory : GuestMemory
flat_memory = record {
  State = Flat;
  MemoryError = ℕ;
  invalid_guest_address = λ a. a;
  address_in_range = λ m j. inside_run m.start m.size j;
  last_addr = λ m. m.start + m.size - 1;
  checked_offset = λ m a b. if inside_run m.start m.size (a + b) then some (a + b) else none;
  byte_at = λ m j. if inside_run m.start m.size j then some (m.cell j) else none;
  write_slice = write;
  read_from_repeat = fill;
  checked_add = add_checked;
  unchecked_add = λ a b. a + b;
  checked_offset_from = λ a b. if leb b a then some (a - b) else none;
  unchecked_offset_from = λ a b. a - b;
}

Covers-fits : (m : Flat) (a n : ℕ) → 0 < n → Covers flat_memory m a n → fits a n m ≡ true
Covers-fits m a n pos c = ground (arith, c 0, c (n - 1))

store-Wrote :
    (bs : List ℕ) (a : ℕ) (m : Flat)
    → 0 < length bs
    → Covers flat_memory m a (length bs)
    → Wrote flat_memory m (store bs a m) a bs
store-Wrote bs a m pos c = record {
  ranges = λ j. refl;
  inside = λ i h. ground (arith, c i h, ap (λ k. get_or bs k 0) (back i));
  outside = λ j h. ground arith;
}
  where
    back : (i : ℕ) → a + i - a ≡ i
    back i = omega arith

write_fits :
    (bs : List ℕ) (a : ℕ) (m : Flat)
    → 0 < length bs
    → Covers flat_memory m a (length bs)
    → write bs a m ≡ (store bs a m, ok tt)
write_fits bs a m pos c = rw (Covers-fits m a (length bs) pos c)

fill_fits :
    (b a n : ℕ) (m : Flat)
    → 0 < n
    → Covers flat_memory m a n
    → fill b a n m ≡ (store (replicate n b) a m, ok n)
fill_fits b a n m pos c = rw (Covers-fits m a n pos c)

pub flat_memory-IsLawful : IsLawful flat_memory
flat_memory-IsLawful = record {
  last_addr_last = λ m j h. ground (arith, h);
  write_slice_ok = λ bs a m pos c. ap (λ p. p.1) (write_fits bs a m pos c);
  write_slice_wrote = λ bs a m pos c.
      subst (λ p. Wrote flat_memory m p.0 a bs) (sym (write_fits bs a m pos c))
        (store-Wrote bs a m pos c);
  read_from_repeat_ok = λ b a n m pos c. ap (λ p. p.1) (fill_fits b a n m pos c);
  read_from_repeat_wrote = λ b a n m pos c.
      subst (λ p. Wrote flat_memory m p.0 a (replicate n b)) (sym (fill_fits b a n m pos c))
        (store-Wrote (replicate n b) a m (rw length-replicate pos) (rw length-replicate c));
  checked_add_fits = λ a b h. ground arith;
  unchecked_add_fits = λ a b h. refl;
  checked_offset_from_fits = λ a b h. ground arith;
  checked_offset_from_below = λ a b h. ground arith;
  unchecked_offset_from_fits = λ a b h. refl;
  checked_offset_in_range = λ m a b h k. ground arith;
}
