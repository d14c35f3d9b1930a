-- ===== src/Interrupts/Buffers.antt =====
-- Numbers written into a buffer are read back from it.
use lumper.Base.{ℕ, suc, ◌^◌, ◌≤◌, ◌<◌, ◌≡◌, refl, ◌∙◌, sym, ap, List, [], ◌∷◌, arith, length}
use mathlib.Core.List.{reverse-reverse}
use lumper.Base.Bytes.{
  to_le_bytes, from_le_bytes, to_be_bytes, from_be_bytes, from_le_bytes-to_le_bytes,
  length-to_le_bytes, length-to_be_bytes,
}
use lumper.Interrupts.{read_array, write_array, read_le, read_be, write_le, write_be}

-- A read of exactly the bytes that a write put first.
read_array-write_array :
    (buf bytes : List ℕ)
    → length bytes ≤ length buf
    → read_array (length bytes) (write_array buf bytes) ≡ bytes
unfolding read_array write_array
read_array-write_array [] [] h = refl
read_array-write_array [] (x ∷ bytes) h = absurd (omega arith)
read_array-write_array (b ∷ buf) [] h = refl
read_array-write_array (b ∷ buf) (x ∷ bytes) h =
    ap (λ l. x ∷ l) (read_array-write_array buf bytes (omega arith))

pub length-write_array : (buf bytes : List ℕ) → length (write_array buf bytes) ≡ length buf
unfolding write_array
length-write_array [] bytes = refl
length-write_array (b ∷ buf) [] = refl
length-write_array (b ∷ buf) (x ∷ bytes) = ap suc (length-write_array buf bytes)

read_back :
    (k : ℕ) (buf bytes : List ℕ)
    → length bytes ≡ k
    → k ≤ length buf
    → read_array k (write_array buf bytes) ≡ bytes
read_back k buf bytes e room =
    ap (λ n. read_array n (write_array buf bytes)) (sym e)
    ∙ read_array-write_array buf bytes (omega arith)

-- What `write_le_*` stores in a buffer that has room, `read_le_*` of the same width reads back.
pub read_le-write_le :
    (size : ℕ) (buf : List ℕ) (n : ℕ)
    → size ≤ length buf
    → n < 256 ^ size
    → read_le size (write_le size buf n) ≡ n
unfolding read_le write_le
read_le-write_le size buf n room h =
    ap from_le_bytes (read_back size buf (to_le_bytes size n) (length-to_le_bytes size n) room)
    ∙ from_le_bytes-to_le_bytes size n h

-- What `write_be_*` stores in a buffer that has room, `read_be_*` of the same width reads back.
pub read_be-write_be :
    (size : ℕ) (buf : List ℕ) (n : ℕ)
    → size ≤ length buf
    → n < 256 ^ size
    → read_be size (write_be size buf n) ≡ n
unfolding read_be write_be
read_be-write_be size buf n room h =
    ap from_be_bytes (read_back size buf (to_be_bytes size n) (length-to_be_bytes size n) room)
    ∙ ap from_le_bytes (reverse-reverse (to_le_bytes size n))
    ∙ from_le_bytes-to_le_bytes size n h

pub length-write_le : (size : ℕ) (buf : List ℕ) (n : ℕ) → length (write_le size buf n) ≡ length buf
unfolding write_le
length-write_le size buf n = length-write_array buf (to_le_bytes size n)
