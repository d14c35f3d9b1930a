-- ===== src/Mpspec/Repr.antt =====
-- `#[repr(C)]`: fields in order, each at the next multiple of its alignment, and a size that is
-- a multiple of the largest alignment. Padding is taken to be zero; the structures have none.
use Prim.Native.Nat.{max}
use Prim.Native.String.{String}
use lumper.Base.{ℕ, ◌+◌, ◌-◌, ◌*◌, ◌%◌, List, [], ◌∷◌, ◌++◌, replicate}
use lumper.Base.Bytes.{to_le_bytes}

pub record Field : Type 0 where
  pub name : String
  pub align : ℕ
  pub size : ℕ
  pub image : List ℕ

-- c_uchar, and c_char by its bit pattern.
abbrev pub uchar : String → ℕ → Field
uchar name x = record { name = name; align = 1; size = 1; image = to_le_bytes 1 x }

abbrev pub ushort : String → ℕ → Field
ushort name x = record { name = name; align = 2; size = 2; image = to_le_bytes 2 x }

abbrev pub uint : String → ℕ → Field
uint name x = record { name = name; align = 4; size = 4; image = to_le_bytes 4 x }

-- Arrays of c_char or c_uchar, and of c_uint.
abbrev pub uchars : String → ℕ → List ℕ → Field
uchars name n xs = record { name = name; align = 1; size = n; image = xs }

abbrev words_image : List ℕ → List ℕ
words_image [] = []
words_image (x ∷ xs) = to_le_bytes 4 x ++ words_image xs

abbrev pub uints : String → ℕ → List ℕ → Field
uints name n xs = record { name = name; align = 4; size = 4 * n; image = words_image xs }

-- What is missing to the next multiple of `a`.
abbrev pub padding : ℕ → ℕ → ℕ
padding a off = (a - off % a) % a

abbrev pub largest_align : List Field → ℕ
largest_align [] = 1
largest_align (f ∷ fs) = max f.align (largest_align fs)

abbrev pub offsets_from : ℕ → List Field → List (String × ℕ)
offsets_from off [] = []
offsets_from off (f ∷ fs) =
    (f.name, off + padding f.align off) ∷ offsets_from (off + padding f.align off + f.size) fs

abbrev pub end_from : ℕ → List Field → ℕ
end_from off [] = off
end_from off (f ∷ fs) = end_from (off + padding f.align off + f.size) fs

-- `mem::size_of`
abbrev pub size_of_fields : List Field → ℕ
size_of_fields fs = end_from 0 fs + padding (largest_align fs) (end_from 0 fs)

abbrev image_from : ℕ → ℕ → List Field → List ℕ
image_from a off [] = replicate (padding a off) 0
image_from a off (f ∷ fs) =
    replicate (padding f.align off) 0
    ++ (f.image ++ image_from a (off + padding f.align off + f.size) fs)

-- The memory of a structure.
abbrev pub image_of : List Field → List ℕ
image_of fs = image_from (largest_align fs) 0 fs
