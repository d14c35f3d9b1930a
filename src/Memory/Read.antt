-- ===== src/Memory/Read.antt =====
-- What a reader of guest memory sees: runs of bytes, and integers in them.
use lumper.Base.{
  ℕ, zero, suc, ◌+◌, ◌≤◌, ◌<◌, ◌≡◌, refl, ◌∙◌, sym, ap, ◌⊎◌, Option, none, some, List, [], ◌∷◌,
  ◌++◌, arith, length, get_or, length-append, get_or-append_left, get_or-append_right,
}
use lumper.Base.Bytes.{from_le_bytes}
use lumper.Memory.{GuestMemory, Wrote}

infixl 5 ◌>>=◌
abbrev pub ◌>>=◌ : {A B : Type 0} → Option A → (A → Option B) → Option B
none >>= f = none
some a >>= f = f a

module _ (G : GuestMemory) (m : G.State) where
  -- `count` bytes from `a` on.
  unfoldable pub read_bytes : ℕ → ℕ → Option (List ℕ)
  read_bytes zero a = some []
  read_bytes (suc count) a = do b ← G.byte_at m a; bs ← read_bytes count (a + 1); some (b ∷ bs)

  -- A little-endian integer of so many bytes.
  unfoldable pub read_le_at : ℕ → ℕ → Option ℕ
  unfolding read_bytes
  read_le_at count a = do bs ← read_bytes count a; some (from_le_bytes bs)

  -- The bytes stand at `a`.
  abbrev pub Holds : ℕ → List ℕ → Type 0
  Holds a bs = (i : ℕ) → i < length bs → G.byte_at m (a + i) ≡ some (get_or bs i 0)

  pub Holds-left : (a : ℕ) (xs ys : List ℕ) → Holds a (xs ++ ys) → Holds a xs
  Holds-left a xs ys h i p =
      h i (omega (arith, length-append xs ys)) ∙ ap some (get_or-append_left xs ys i 0 p)

  pub Holds-right : (a : ℕ) (xs ys : List ℕ) → Holds a (xs ++ ys) → Holds (a + length xs) ys
  Holds-right a xs ys h i p =
      ap (G.byte_at m) (omega arith)
      ∙ h (length xs + i) (omega (arith, length-append xs ys))
      ∙ ap some (get_or-append_right xs ys i 0)

  pub Holds-first :
      (a : ℕ) (bs : List ℕ) → Holds a bs → 0 < length bs → G.byte_at m a ≡ some (get_or bs 0 0)
  Holds-first a bs h pos = ap (G.byte_at m) (omega arith) ∙ h 0 pos

  read_bytes-Holds : (bs : List ℕ) (a : ℕ) → Holds a bs → read_bytes (length bs) a ≡ some bs
  unfolding read_bytes
  read_bytes-Holds [] a h = refl
  read_bytes-Holds (b ∷ bs) a h =
      rw (Holds-first a (b ∷ bs) h (omega arith), read_bytes-Holds bs (a + 1) later) refl
    where
      later : Holds (a + 1) bs
      later = λ i p. ap (G.byte_at m) (omega arith) ∙ h (suc i) (omega arith)

  pub read_le_at-Holds :
      (count a : ℕ) (bs : List ℕ)
      → length bs ≡ count
      → Holds a bs
      → read_le_at count a ≡ some (from_le_bytes bs)
  unfolding read_le_at
  read_le_at-Holds count a bs e h =
      ap (λ k. read_bytes k a >>= λ l. some (from_le_bytes l)) (sym e)
      ∙ ap (λ o. o >>= λ l. some (from_le_bytes l)) (read_bytes-Holds bs a h)

-- A write elsewhere leaves a run of bytes as it is.
pub Holds-Wrote :
    (G : GuestMemory) {m m' : G.State} {b : ℕ} {ys : List ℕ} (a : ℕ) (xs : List ℕ)
    → Wrote G m m' b ys
    → (a + length xs ≤ b) ⊎ (b + length ys ≤ a)
    → Holds G m a xs
    → Holds G m' a xs
Holds-Wrote G a xs w apart h i p = w.outside (a + i) (omega arith) ∙ h i p
