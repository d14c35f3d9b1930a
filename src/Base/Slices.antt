-- ===== src/Base/Slices.antt =====
-- Slices of lists: `take` and `drop`, alone and across an append.
use Prim.Native.Nat.{ℕ, zero, suc, ◌+◌, ◌-◌, ◌≤◌, min}
use mathlib.Core.Path.{◌≡◌, refl, ap, sym, ◌∙◌}
use mathlib.Core.List.{List, [], ◌∷◌, ◌++◌}
use native.Mathlib.Omega.{arith}
use lumper.Base.Lists.{length, take, drop}

module _ {ℓ} {A : Type ℓ} where
  pub take-append-drop : (n : ℕ) (xs : List A) → take n xs ++ drop n xs ≡ xs
  take-append-drop zero xs = refl
  take-append-drop (suc n) [] = refl
  take-append-drop (suc n) (x ∷ xs) = ap (λ l. x ∷ l) (take-append-drop n xs)

  pub length-take : (n : ℕ) (xs : List A) → n ≤ length xs → length (take n xs) ≡ n
  length-take zero xs h = refl
  length-take (suc n) [] h = absurd (omega arith)
  length-take (suc n) (x ∷ xs) h = ap suc (length-take n xs (omega arith))

  pub length-take_le : (n : ℕ) (xs : List A) → length (take n xs) ≤ n
  length-take_le zero xs = omega arith
  length-take_le (suc n) [] = omega arith
  length-take_le (suc n) (x ∷ xs) = omega (arith, length-take_le n xs)

  pub length-drop : (n : ℕ) (xs : List A) → length (drop n xs) ≡ length xs - n
  length-drop zero xs = omega arith
  length-drop (suc n) [] = omega arith
  length-drop (suc n) (x ∷ xs) = omega (arith, length-drop n xs)

  -- Past the end of the first list.
  pub drop-append_past :
      (n : ℕ) (xs ys : List A) → length xs ≤ n → drop n (xs ++ ys) ≡ drop (n - length xs) ys
  drop-append_past n [] ys h = ap (λ k. drop k ys) (omega arith)
  drop-append_past zero (x ∷ xs) ys h = absurd (omega arith)
  drop-append_past (suc n) (x ∷ xs) ys h =
      drop-append_past n xs ys (omega arith) ∙ ap (λ k. drop k ys) (omega arith)

  pub take-append_within : (n : ℕ) (xs ys : List A) → n ≤ length xs → take n (xs ++ ys) ≡ take n xs
  take-append_within zero xs ys h = refl
  take-append_within (suc n) [] ys h = absurd (omega arith)
  take-append_within (suc n) (x ∷ xs) ys h =
      ap (λ l. x ∷ l) (take-append_within n xs ys (omega arith))

  pub take_all : (n : ℕ) (xs : List A) → n ≡ length xs → take n xs ≡ xs
  take_all zero [] h = refl
  take_all zero (x ∷ xs) h = absurd (omega arith)
  take_all (suc n) [] h = refl
  take_all (suc n) (x ∷ xs) h = ap (λ l. x ∷ l) (take_all n xs (omega arith))

  -- A slice inside the first list.
  pub slice-append_within :
      (j n : ℕ) (xs ys : List A)
      → j + n ≤ length xs
      → take n (drop j (xs ++ ys)) ≡ take n (drop j xs)
  slice-append_within zero n xs ys h = take-append_within n xs ys (omega arith)
  slice-append_within (suc j) n [] ys h = absurd (omega arith)
  slice-append_within (suc j) n (x ∷ xs) ys h = slice-append_within j n xs ys (omega arith)

pub take-min : (n : ℕ) (xs : List ℕ) → take (min (length xs) n) xs ≡ take n xs
take-min zero xs = ap (λ k. take k xs) {x = min (length xs) 0} {y = 0} (omega arith)
take-min (suc n) [] = ap (λ k. take {A = ℕ} k []) {x = min 0 (suc n)} {y = 0} (omega arith)
take-min (suc n) (x ∷ xs) =
    ap (λ k. take k (x ∷ xs)) {x = min (suc (length xs)) (suc n)} {y = suc (min (length xs) n)}
      (omega arith)
    ∙ ap (λ l. x ∷ l) (take-min n xs)

pub drop-nil : (n : ℕ) → drop {A = ℕ} n [] ≡ []
drop-nil zero = refl
drop-nil (suc n) = refl

pub drop-min : (n : ℕ) (xs : List ℕ) → drop (min (length xs) n) xs ≡ drop n xs
drop-min zero xs = ap (λ k. drop k xs) {x = min (length xs) 0} {y = 0} (omega arith)
drop-min (suc n) [] = drop-nil _ ∙ sym (drop-nil (suc n))
drop-min (suc n) (x ∷ xs) =
    ap (λ k. drop k (x ∷ xs)) {x = min (suc (length xs)) (suc n)} {y = suc (min (length xs) n)}
      (omega arith)
    ∙ drop-min n xs

pub drop-drop : (k n : ℕ) (xs : List ℕ) → drop k (drop n xs) ≡ drop (n + k) xs
drop-drop k zero xs = ap (λ j. drop j xs) {x = k} {y = 0 + k} (omega arith)
drop-drop k (suc n) [] = drop-nil k ∙ sym (drop-nil (suc n + k))
drop-drop k (suc n) (x ∷ xs) =
    drop-drop k n xs ∙ ap (λ j. drop j (x ∷ xs)) {x = suc (n + k)} {y = suc n + k} (omega arith)
