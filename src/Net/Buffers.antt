-- ===== src/Net/Buffers.antt =====
-- The buffers of a chain, and what they hold when a frame has been written to them.
use lumper.Base.{
  ℕ, zero, suc, ◌+◌, ◌≤◌, ◌<◌, ◌≡◌, refl, ◌⊎◌, inl, inr, List, [], ◌∷◌, arith, take, drop, Result,
  ok,
}
use lumper.Base.Slices.{drop-nil}
use lumper.Memory.{GuestMemory, Covers, Wrote}
use lumper.Memory.Laws.{Covers-Wrote}
use lumper.Memory.Read.{Holds}
use lumper.Net.Frame.{Descriptor}

-- The room of a chain.
abbrev pub total_len : List Descriptor → ℕ
total_len [] = 0
total_len (d ∷ ds) = d.len + total_len ds

-- A buffer shares no byte with those of the chain.
abbrev pub IsApart : Descriptor → List Descriptor → Type 0
IsApart d [] = Unit
IsApart d (e ∷ es) = ((d.addr + d.len ≤ e.addr) ⊎ (e.addr + e.len ≤ d.addr)) × IsApart d es

-- The address lies in no buffer of the chain.
abbrev pub IsOutside : ℕ → List Descriptor → Type 0
IsOutside j [] = Unit
IsOutside j (d ∷ ds) = ((j < d.addr) ⊎ (d.addr + d.len ≤ j)) × IsOutside j ds

module _ (G : GuestMemory) where
  -- Every buffer has room, lies in guest memory and is apart from the later ones.
  abbrev pub IsReady : G.State → List Descriptor → Type 0
  IsReady m [] = Unit
  IsReady m (d ∷ ds) = (0 < d.len) × Covers G m d.addr d.len × IsApart d ds × IsReady m ds

  -- The data stands in the buffers of the chain, in their order, as far as both reach.
  abbrev pub Received : G.State → List Descriptor → List ℕ → Type 0
  Received m [] bytes = Unit
  Received m (d ∷ ds) bytes = Holds G m d.addr (take d.len bytes) × Received m ds (drop d.len bytes)

  -- The run has filled the chain with the bytes, and changed no other byte.
  pub record Scatters (outcome : G.State × Result G.MemoryError ℕ) (m : G.State)
      (chain : List Descriptor) (bytes : List ℕ) (count : ℕ) : Type 0 where
    pub final : G.State
    pub returns : outcome ≡ (final, ok count)
    pub ranges : (j : ℕ) → G.address_in_range final j ≡ G.address_in_range m j
    pub received : Received final chain bytes
    pub outside : (j : ℕ) → IsOutside j chain → G.byte_at final j ≡ G.byte_at m j

  pub Received-nil : (m : G.State) (chain : List Descriptor) → Received m chain []
  Received-nil m [] = tt
  Received-nil m (d ∷ ds) =
      (rw (take-nil d.len) (λ i h. absurd (omega arith)), rw (drop-nil d.len) (Received-nil m ds))
    where
      take-nil : (n : ℕ) → take {A = ℕ} n [] ≡ []
      take-nil zero = refl
      take-nil (suc n) = refl

  pub IsReady-Wrote :
      {m m' : G.State} {a : ℕ} {bs : List ℕ} (chain : List Descriptor)
      → Wrote G m m' a bs
      → IsReady m chain
      → IsReady m' chain
  IsReady-Wrote [] w h = tt
  IsReady-Wrote (d ∷ ds) w (pos, c, apart, later) =
      (pos, Covers-Wrote G w _ _ c, apart, IsReady-Wrote ds w later)

  pub IsApart-IsOutside :
      (d : Descriptor) (chain : List Descriptor) (i : ℕ)
      → IsApart d chain
      → i < d.len
      → IsOutside (d.addr + i) chain
  IsApart-IsOutside d [] i h p = tt
  IsApart-IsOutside d (e ∷ es) i (inl below, later) p =
      (inl (omega arith), IsApart-IsOutside d es i later p)
  IsApart-IsOutside d (e ∷ es) i (inr above, later) p =
      (inr (omega arith), IsApart-IsOutside d es i later p)
