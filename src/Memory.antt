-- ===== src/Memory.antt =====
-- Guest memory: the crate `vm_memory`, which the program only calls. Its operations are a
-- parameter of the model; `IsLawful` names what its documentation promises.
pub mod Laws
pub mod Flat
pub mod Read
use lumper.Base.{
  ℕ, ◌+◌, ◌-◌, ◌^◌, ◌≤◌, ◌<◌, ◌≡◌, ◌⊎◌, Bool, true, Option, none, some, List, Result, ok, Eff,
  length, get_or, replicate,
}

pub record GuestMemory : Type 1 where
  -- The contents and the ranges of the regions.
  pub State : Type 0
  -- `GuestMemoryError`
  pub MemoryError : Type 0
  pub invalid_guest_address : ℕ → MemoryError
  pub address_in_range : State → ℕ → Bool
  pub last_addr : State → ℕ
  pub checked_offset : State → ℕ → ℕ → Option ℕ
  -- A read of one byte, by which a state is observed.
  pub byte_at : State → ℕ → Option ℕ
  -- `write_obj` and `write_slice`: the bytes of the object, then the address.
  pub write_slice : List ℕ → ℕ → Eff State MemoryError (Unit {0})
  -- `read_from` an endless reader of one byte, `io::repeat`: byte, address and count. The
  -- result is the number of bytes that were read.
  pub read_from_repeat : ℕ → ℕ → ℕ → Eff State MemoryError ℕ
  -- `Address` for `GuestAddress`.
  pub checked_add : ℕ → ℕ → Option ℕ
  pub unchecked_add : ℕ → ℕ → ℕ
  pub checked_offset_from : ℕ → ℕ → Option ℕ
  pub unchecked_offset_from : ℕ → ℕ → ℕ

module _ (G : GuestMemory) where
  open G use {State, address_in_range, byte_at}

  -- Every address of the run lies in a region.
  abbrev pub Covers : State → ℕ → ℕ → Type 0
  Covers m a n = (i : ℕ) → i < n → address_in_range m (a + i) ≡ true

  -- `m'` is `m` with the bytes stored at `a`, and nothing else changed.
  pub record Wrote (m m' : State) (a : ℕ) (bs : List ℕ) : Type 0 where
    pub ranges : (j : ℕ) → address_in_range m' j ≡ address_in_range m j
    pub inside : (i : ℕ) → i < length bs → byte_at m' (a + i) ≡ some (get_or bs i 0)
    pub outside : (j : ℕ) → (j < a) ⊎ (a + length bs ≤ j) → byte_at m' j ≡ byte_at m j

-- What the documentation of the crate promises.
pub record IsLawful (G : GuestMemory) : Type 0 where
  pub last_addr_last : (m : G.State) (j : ℕ) → G.address_in_range m j ≡ true → j ≤ G.last_addr m
  pub write_slice_ok :
      (bs : List ℕ) (a : ℕ) (m : G.State)
      → 0 < length bs
      → Covers G m a (length bs)
      → (G.write_slice bs a m).1 ≡ ok tt
  pub write_slice_wrote :
      (bs : List ℕ) (a : ℕ) (m : G.State)
      → 0 < length bs
      → Covers G m a (length bs)
      → Wrote G m (G.write_slice bs a m).0 a bs
  pub read_from_repeat_ok :
      (b a n : ℕ) (m : G.State) → 0 < n → Covers G m a n → (G.read_from_repeat b a n m).1 ≡ ok n
  pub read_from_repeat_wrote :
      (b a n : ℕ) (m : G.State)
      → 0 < n
      → Covers G m a n
      → Wrote G m (G.read_from_repeat b a n m).0 a (replicate n b)
  pub checked_add_fits : (a b : ℕ) → a + b < 2 ^ 64 → G.checked_add a b ≡ some (a + b)
  pub unchecked_add_fits : (a b : ℕ) → a + b < 2 ^ 64 → G.unchecked_add a b ≡ a + b
  pub checked_offset_from_fits : (a b : ℕ) → b ≤ a → G.checked_offset_from a b ≡ some (a - b)
  pub checked_offset_from_below : (a b : ℕ) → a < b → G.checked_offset_from a b ≡ none
  pub unchecked_offset_from_fits : (a b : ℕ) → b ≤ a → G.unchecked_offset_from a b ≡ a - b
  pub checked_offset_in_range :
      (m : G.State) (a b : ℕ)
      → a + b < 2 ^ 64
      → G.address_in_range m (a + b) ≡ true
      → G.checked_offset m a b ≡ some (a + b)
