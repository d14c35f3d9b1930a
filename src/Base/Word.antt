-- ===== src/Base/Word.antt =====
-- Casts to the fixed widths, shifts, and complements, of machine words kept as numbers.
use Prim.Native.Nat.{ℕ, ◌-◌, ◌+◌, ◌*◌, ◌/◌, ◌%◌, ◌^◌}

abbrev pub u8 : ℕ → ℕ
u8 n = n % 2 ^ 8

abbrev pub u16 : ℕ → ℕ
u16 n = n % 2 ^ 16

abbrev pub u32 : ℕ → ℕ
u32 n = n % 2 ^ 32

abbrev pub u64 : ℕ → ℕ
u64 n = n % 2 ^ 64

-- `!x` on a word of `w` bits.
abbrev pub complement : ℕ → ℕ → ℕ
complement w x = 2 ^ w - 1 - x

abbrev pub wrapping_add8 : ℕ → ℕ → ℕ
wrapping_add8 a b = u8 (a + b)

-- `-` stops at 0, so the modulus is added first.
abbrev pub wrapping_sub8 : ℕ → ℕ → ℕ
wrapping_sub8 a b = u8 (a + 2 ^ 8 - b)

infixl 75 ◌<<<◌ ◌>>>◌
abbrev pub ◌<<<◌ : ℕ → ℕ → ℕ
x <<< k = x * 2 ^ k

abbrev pub ◌>>>◌ : ℕ → ℕ → ℕ
x >>> k = x / 2 ^ k
