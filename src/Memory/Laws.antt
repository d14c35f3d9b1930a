-- ===== src/Memory/Laws.antt =====
-- How writes to guest memory combine.
use lumper.Base.{
  ℕ, ◌+◌, ◌-◌, ◌≤◌, ◌<◌, ◌≡◌, refl, ◌∙◌, sym, ap, inl, inr, some, List, [], ◌++◌, arith, length,
  length-append, get_or-append_left, get_or-append_past, replicate, recast, Result, ok, err,
  map_err,
}
use native.Mathlib.Decide.{dec_lt}
use lumper.Memory.{GuestMemory, Covers, Wrote, IsLawful}

module _ (G : GuestMemory) where
  open G use {State, byte_at}

  pub Wrote-nil : (m : State) (a : ℕ) → Wrote G m m a []
  Wrote-nil m a = record {
    ranges = λ j. refl;
    inside = λ i h. absurd (omega arith);
    outside = λ j h. refl;
  }

  -- Two writes side by side, the lower one first.
  pub Wrote-append :
      {m m' m'' : State} {a b : ℕ} {xs ys : List ℕ}
      → Wrote G m m' a xs
      → Wrote G m' m'' b ys
      → b ≡ a + length xs
      → Wrote G m m'' a (xs ++ ys)
  Wrote-append {m} {m'} {m''} {a} {b} {xs} {ys} v w e = record {
    ranges = λ j. w.ranges j ∙ v.ranges j;
    inside = λ i h. elim (dec_lt i (length xs)) [
      | yes p ↦
          w.outside (a + i) (inl (omega arith))
          ∙ v.inside i p
          ∙ ap some (sym (get_or-append_left xs ys i 0 p))
      | no p ↦
          ap (byte_at m'') (omega arith)
          ∙ w.inside (i - length xs) (shift i h p)
          ∙ ap some (sym (get_or-append_past xs ys i 0 (omega arith)))
    ];
    outside = λ j h.
        w.outside j (omega (arith, length-append xs ys, e, h))
        ∙ v.outside j (omega (arith, length-append xs ys, e, h));
  }
    where
      shift : (i : ℕ) → i < length (xs ++ ys) → ¬ (i < length xs) → i - length xs < length ys
      shift i h p = omega (arith, length-append xs ys)

  -- Two writes side by side, the upper one first.
  pub Wrote-prepend :
      {m m' m'' : State} {a b : ℕ} {xs ys : List ℕ}
      → Wrote G m m' b ys
      → Wrote G m' m'' a xs
      → b ≡ a + length xs
      → Wrote G m m'' a (xs ++ ys)
  Wrote-prepend {m} {m'} {m''} {a} {b} {xs} {ys} v w e = record {
    ranges = λ j. w.ranges j ∙ v.ranges j;
    inside = λ i h. elim (dec_lt i (length xs)) [
      | yes p ↦ w.inside i p ∙ ap some (sym (get_or-append_left xs ys i 0 p))
      | no p ↦
          w.outside (a + i) (inr (omega arith))
          ∙ ap (byte_at m') (omega arith)
          ∙ v.inside (i - length xs) (shift i h p)
          ∙ ap some (sym (get_or-append_past xs ys i 0 (omega arith)))
    ];
    outside = λ j h.
        w.outside j (omega (arith, length-append xs ys, e, h))
        ∙ v.outside j (omega (arith, length-append xs ys, e, h));
  }
    where
      shift : (i : ℕ) → i < length (xs ++ ys) → ¬ (i < length xs) → i - length xs < length ys
      shift i h p = omega (arith, length-append xs ys)

  -- A second write of the same extent leaves nothing of the first.
  pub Wrote-over :
      {m m' m'' : State} {a : ℕ} {xs ys : List ℕ}
      → Wrote G m m' a xs
      → Wrote G m' m'' a ys
      → length xs ≡ length ys
      → Wrote G m m'' a ys
  Wrote-over {a} {xs} {ys} v w e = record {
    ranges = λ j. w.ranges j ∙ v.ranges j;
    inside = λ i h. w.inside i h;
    outside = λ j h. w.outside j h ∙ v.outside j (omega (arith, e, h));
  }

  pub Covers-Wrote :
      {m m' : State} {a : ℕ} {bs : List ℕ}
      → Wrote G m m' a bs
      → (b n : ℕ) → Covers G m b n
      → Covers G m' b n
  Covers-Wrote w b n c = λ i h. w.ranges (b + i) ∙ c i h

  pub Covers-part :
      (m : State) (a n b k : ℕ) → Covers G m a n → a ≤ b → b + k ≤ a + n → Covers G m b k
  Covers-part m a n b k c low high =
      λ i h. ap (G.address_in_range m) (omega arith) ∙ c (b - a + i) (omega arith)

-- A run that succeeds with `r` and has written `bs` at `a`.
pub record Emits (G : GuestMemory) {E A : Type 0} (outcome : G.State × Result E A) (m : G.State)
    (a : ℕ) (bs : List ℕ) (r : A) : Type 0 where
  pub final : G.State
  pub returns : outcome ≡ (final, ok r)
  pub wrote : Wrote G m final a bs

ok-outcome :
    {S E F A : Type 0} (p : S × Result E A) (f : E → F) {a : A}
    → p.1 ≡ ok a
    → recast f p ≡ (p.0, ok a)
ok-outcome (s, ok a) f h = cc
ok-outcome (s, err e) f h = cc

module _ (G : GuestMemory) (L : IsLawful G) where
  pub write_slice-Emits :
      {E : Type 0} (f : G.MemoryError → E) (bs : List ℕ) (a : ℕ) (m : G.State)
      → 0 < length bs
      → Covers G m a (length bs)
      → Emits G (map_err (G.write_slice bs a) f m) m a bs tt
  write_slice-Emits f bs a m pos c = record {
    final = (G.write_slice bs a m).0;
    returns = ok-outcome (G.write_slice bs a m) f (L.write_slice_ok bs a m pos c);
    wrote = L.write_slice_wrote bs a m pos c;
  }

  pub read_from_repeat-Emits :
      {E : Type 0} (f : G.MemoryError → E) (b a n : ℕ) (m : G.State)
      → 0 < n
      → Covers G m a n
      → Emits G (map_err (G.read_from_repeat b a n) f m) m a (replicate n b) n
  read_from_repeat-Emits f b a n m pos c = record {
    final = (G.read_from_repeat b a n m).0;
    returns = ok-outcome (G.read_from_repeat b a n m) f (L.read_from_repeat_ok b a n m pos c);
    wrote = L.read_from_repeat_wrote b a n m pos c;
  }
