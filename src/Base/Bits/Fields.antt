-- ===== src/Base/Bits/Fields.antt =====
-- Masks of adjacent bits are remainders and quotients, and `|` of disjoint fields is a sum.
use Prim.Native.Nat.{ℕ, zero, suc, ◌+◌, ◌-◌, ◌*◌, ◌/◌, ◌%◌, ◌^◌, ◌≤◌, ◌<◌, bit_and, bit_or}
use mathlib.Core.Path.{◌≡◌, sym, ap, ap₂, ◌∙◌}
use native.Mathlib.Omega.{arith}
use native.Mathlib.Nat.{pow-suc, one-le-pow}
use lumper.Base.Bits.{
  bit_or-zero, zero-bit_or, bit_and-zero, bit_and-halve, bit_or-halve, bit_or-split, bit_and-split,
}

-- A mask of ones keeps what fits under it.
bit_and_full : (w r : ℕ) → r < 2 ^ w → bit_and r (2 ^ w - 1) ≡ r
bit_and_full zero r h = bit_and-zero r ∙ omega arith
bit_and_full (suc w) r h =
    ground (arith, bit_and-halve r (2 ^ suc w - 1), pow-suc 2 w, bit_and_full w (r / 2))

module _ (k a : ℕ) where
  two-pow-pos : 1 ≤ 2 ^ k
  two-pow-pos = one-le-pow k 2 (omega arith)

  pub high_low : a ≡ a / 2 ^ k * 2 ^ k + a % 2 ^ k
  high_low = grind (arith, two-pow-pos)

  pub mod-two-pow-lt : a % 2 ^ k < 2 ^ k
  mod-two-pow-lt = grind (arith, two-pow-pos)

pub bit_and_low : (w a : ℕ) → bit_and a (2 ^ w - 1) ≡ a % 2 ^ w
bit_and_low w a =
    ap₂ bit_and (high_low w a) (omega arith)
    ∙ bit_and-split w (a / 2 ^ w) 0 (a % 2 ^ w) (2 ^ w - 1) (mod-two-pow-lt w a)
        (omega (arith, two-pow-pos w a))
    ∙ omega (
      arith,
      ap (λ (t : ℕ). t * 2 ^ w) (bit_and-zero (a / 2 ^ w)),
      bit_and_full w (a % 2 ^ w) (mod-two-pow-lt w a),
    )

-- A mask of `w` ones above `k` zeros.
pub bit_and_field : (k w a : ℕ) → bit_and a ((2 ^ w - 1) * 2 ^ k) ≡ a / 2 ^ k % 2 ^ w * 2 ^ k
bit_and_field k w a =
    ap₂ bit_and (high_low k a) (omega arith)
    ∙ bit_and-split k (a / 2 ^ k) (2 ^ w - 1) (a % 2 ^ k) 0 (mod-two-pow-lt k a) (two-pow-pos k a)
    ∙ omega (arith, bit_and-zero (a % 2 ^ k), ap (λ (t : ℕ). t * 2 ^ k) (bit_and_low w (a / 2 ^ k)))

-- `|` of a number below `2 ^ k` and a multiple of it.
pub bit_or_low : (k q r : ℕ) → r < 2 ^ k → bit_or (q * 2 ^ k) r ≡ q * 2 ^ k + r
bit_or_low k q r h =
    ap₂ bit_or (omega arith) (omega arith)
    ∙ bit_or-split k q 0 0 r (two-pow-pos k r) h
    ∙ omega (arith, ap (λ (t : ℕ). t * 2 ^ k) (bit_or-zero q), zero-bit_or r)

-- The same with the sides exchanged.
pub bit_or_high : (k q r : ℕ) → r < 2 ^ k → bit_or r (q * 2 ^ k) ≡ q * 2 ^ k + r
bit_or_high k q r h =
    ap₂ bit_or (omega arith) (omega arith)
    ∙ bit_or-split k 0 q r 0 h (two-pow-pos k r)
    ∙ omega (arith, ap (λ (t : ℕ). t * 2 ^ k) (zero-bit_or q), bit_or-zero r)

pub bit_or-add : (k x q r : ℕ) → x ≡ q * 2 ^ k → r < 2 ^ k → bit_or x r ≡ x + r
bit_or-add k x q r e h =
    ap (λ (t : ℕ). bit_or t r) e ∙ bit_or_low k q r h ∙ ap (λ (t : ℕ). t + r) (sym e)

bit_or-one : (q : ℕ) → bit_or q 1 ≡ q / 2 * 2 + 1
bit_or-one q = omega (arith, bit_or-halve q 1, bit_or-zero (q / 2))

-- Setting bit `k`: the bits above and below stay.
pub bit_or_bit : (k x : ℕ) → bit_or x (2 ^ k) ≡ (x / 2 ^ k / 2 * 2 + 1) * 2 ^ k + x % 2 ^ k
bit_or_bit k x =
    ap₂ bit_or (high_low k x) (omega arith)
    ∙ bit_or-split k (x / 2 ^ k) 1 (x % 2 ^ k) 0 (mod-two-pow-lt k x) (two-pow-pos k x)
    ∙ omega (arith, ap (λ (t : ℕ). t * 2 ^ k) (bit_or-one (x / 2 ^ k)), bit_or-zero (x % 2 ^ k))
