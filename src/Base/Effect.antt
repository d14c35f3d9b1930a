-- ===== src/Base/Effect.antt =====
-- Fallible code over a state that it changes in place: a failed call keeps the changes made
-- before it, as code behind a shared reference does.

pub data Result {ℓ κ} (E : Type ℓ) (A : Type κ) : Type (ℓ ⊔ κ) where
  ok : A → Result E A
  err : E → Result E A

abbrev pub Eff : Type 0 → Type 0 → Type 0 → Type 0
Eff S E A = S → S × Result E A

module _ {S E A B : Type 0} where
  abbrev pub proceed : S × Result E A → (A → Eff S E B) → S × Result E B
  proceed (s, ok a) f = f a s
  proceed (s, err e) f = (s, err e)

infixl 5 ◌>>=◌ ◌>>◌
abbrev pub ◌>>=◌ : {S E A B : Type 0} → Eff S E A → (A → Eff S E B) → Eff S E B
◌>>=◌ m f s = proceed (m s) f

abbrev pub ◌>>◌ : {S E B : Type 0} → Eff S E (Unit {0}) → Eff S E B → Eff S E B
◌>>◌ m k s = proceed (m s) (λ _. k)

abbrev pub pure : {S E A : Type 0} → A → Eff S E A
pure a s = (s, ok a)

abbrev pub fail : {S E A : Type 0} → E → Eff S E A
fail e s = (s, err e)

-- `Result::map_err` on the outcome of an effect, with a function that forgets the first error.
abbrev pub recast : {S E F A : Type 0} → (E → F) → S × Result E A → S × Result F A
recast f (s, ok a) = (s, ok a)
recast f (s, err e) = (s, err (f e))

abbrev pub map_err : {S E F A : Type 0} → Eff S E A → (E → F) → Eff S F A
map_err m f s = recast f (m s)

-- A call that leaves the state alone, with its `map_err`.
abbrev pub tried : {S E F A : Type 0} → Result E A → (E → F) → Eff S F A
tried (ok a) f s = (s, ok a)
tried (err e) f s = (s, err (f e))
