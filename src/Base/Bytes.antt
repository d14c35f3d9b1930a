-- ===== src/Base/Bytes.antt =====
-- Integers as bytes in both orders, and the sum of a run of bytes.
use Prim.Native.Nat.{ℕ, zero, suc, ◌+◌, ◌*◌, ◌/◌, ◌%◌, ◌^◌, ◌<◌}
use mathlib.Core.Path.{◌≡◌, refl, ap, ◌∙◌}
use mathlib.Core.List.{List, [], ◌∷◌, ◌++◌, reverse, reverse-cons}
use native.Mathlib.Omega.{arith}
use native.Mathlib.Nat.{pow-suc}
use lumper.Base.Lists.{length, length-append}

-- `to_le_bytes` of an integer of `count` bytes.
abbrev pub to_le_bytes : ℕ → ℕ → List ℕ
to_le_bytes zero n = []
to_le_bytes (suc count) n = (n % 256) ∷ to_le_bytes count (n / 256)

abbrev pub from_le_bytes : List ℕ → ℕ
from_le_bytes [] = 0
from_le_bytes (b ∷ bs) = b + 256 * from_le_bytes bs

abbrev pub to_be_bytes : ℕ → ℕ → List ℕ
to_be_bytes count n = reverse (to_le_bytes count n)

abbrev pub from_be_bytes : List ℕ → ℕ
from_be_bytes bs = from_le_bytes (reverse bs)

abbrev pub byte_sum : List ℕ → ℕ
byte_sum [] = 0
byte_sum (b ∷ bs) = b + byte_sum bs

abbrev pub AreBytes : List ℕ → Type 0
AreBytes [] = Unit
AreBytes (b ∷ bs) = (b < 256) × AreBytes bs

pub length-to_le_bytes : (count n : ℕ) → length (to_le_bytes count n) ≡ count
length-to_le_bytes zero n = refl
length-to_le_bytes (suc count) n = ap suc (length-to_le_bytes count (n / 256))

pub byte_sum-append : (xs ys : List ℕ) → byte_sum (xs ++ ys) ≡ byte_sum xs + byte_sum ys
byte_sum-append [] ys = omega arith
byte_sum-append (x ∷ xs) ys = omega (arith, byte_sum-append xs ys)

pub AreBytes-append : (xs ys : List ℕ) → AreBytes xs → AreBytes ys → AreBytes (xs ++ ys)
AreBytes-append [] ys p q = q
AreBytes-append (x ∷ xs) ys (b, p) q = (b, AreBytes-append xs ys p q)

length-reverse {ℓ} : {A : Type ℓ} (xs : List A) → length (reverse xs) ≡ length xs
length-reverse [] = refl
length-reverse (x ∷ xs) =
    ap length (reverse-cons x xs)
    ∙ omega (arith, length-append (reverse xs) (x ∷ []), length-reverse xs)

pub length-to_be_bytes : (count n : ℕ) → length (to_be_bytes count n) ≡ count
length-to_be_bytes count n = length-reverse (to_le_bytes count n) ∙ length-to_le_bytes count n

-- A word of `count` bytes survives its bytes.
pub from_le_bytes-to_le_bytes :
    (count n : ℕ) → n < 256 ^ count → from_le_bytes (to_le_bytes count n) ≡ n
from_le_bytes-to_le_bytes zero n h = omega arith
from_le_bytes-to_le_bytes (suc count) n h = omega (
  arith,
  pow-suc 256 count,
  from_le_bytes-to_le_bytes count (n / 256) (omega (arith, pow-suc 256 count)),
)
