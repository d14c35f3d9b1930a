-- ===== src/Base/Bits.antt =====
-- `|` and `&` at variables, as arithmetic: both act on the high and on the low digits apart.
mod Digits
pub mod Fields
use Prim.Native.Nat.{ℕ, zero, suc, ◌+◌, ◌-◌, ◌*◌, ◌/◌, ◌%◌, ◌^◌, ◌<◌, bit_and, bit_or}
use mathlib.Core.Path.{◌≡◌, refl, ap}
use native.Mathlib.Omega.{arith}
use native.Mathlib.Nat.{pow-suc, one-le-pow}
use Digits.{bit_or-halve, bit_and-halve, bit_or-zero, zero-bit_or, bit_and-zero, zero-bit_and}
pub use Digits.{bit_or-zero, zero-bit_or, bit_and-zero, zero-bit_and, bit_or-halve, bit_and-halve}

double : (a k : ℕ) → a * 2 ^ suc k ≡ 2 * (a * 2 ^ k)
double a k = omega (arith, ap (λ (t : ℕ). a * t) (pow-suc 2 k))

-- With `x` and `y` below `2 ^ k`, an operation meets only digits of the same weight.
pub bit_or-split :
    (k a b x y : ℕ)
    → x < 2 ^ k
    → y < 2 ^ k
    → bit_or (a * 2 ^ k + x) (b * 2 ^ k + y) ≡ bit_or a b * 2 ^ k + bit_or x y
bit_or-split zero a b x y p q =
    ground (arith, ap (λ (t : ℕ). bit_or t 0) (zero-x), zero-x, zero-y, bit_or-zero 0)
  where
    zero-x : x ≡ 0
    zero-x = omega arith

    zero-y : y ≡ 0
    zero-y = omega arith
bit_or-split (suc k) a b x y p q = ground (
  arith,
  bit_or-halve (a * 2 ^ suc k + x) (b * 2 ^ suc k + y),
  bit_or-halve x y,
  double a k,
  double b k,
  double (bit_or a b) k,
  pow-suc 2 k,
  bit_or-split k a b (x / 2) (y / 2) (omega (arith, pow-suc 2 k)) (omega (arith, pow-suc 2 k)),
)

pub bit_and-split :
    (k a b x y : ℕ)
    → x < 2 ^ k
    → y < 2 ^ k
    → bit_and (a * 2 ^ k + x) (b * 2 ^ k + y) ≡ bit_and a b * 2 ^ k + bit_and x y
bit_and-split zero a b x y p q = ground (arith, zero-x, zero-y, bit_and-zero 0)
  where
    zero-x : x ≡ 0
    zero-x = omega arith

    zero-y : y ≡ 0
    zero-y = omega arith
bit_and-split (suc k) a b x y p q = ground (
  arith,
  bit_and-halve (a * 2 ^ suc k + x) (b * 2 ^ suc k + y),
  bit_and-halve x y,
  double a k,
  double b k,
  double (bit_and a b) k,
  pow-suc 2 k,
  bit_and-split k a b (x / 2) (y / 2) (omega (arith, pow-suc 2 k)) (omega (arith, pow-suc 2 k)),
)
