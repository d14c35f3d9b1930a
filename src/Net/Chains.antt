-- ===== src/Net/Chains.antt =====
-- The receive queue by the chains that wait in it and the reports on those that were used: what
-- virtio-queue promises of a queue whose rings lie apart from the buffers.
use lumper.Base.{
  ℕ, ◌+◌, ◌≤◌, ◌<◌, ◌≡◌, ◌∙◌, ◌⊎◌, inl, inr, Bool, some, List, [], ◌∷◌, ◌++◌, arith, drop, ok, err,
}
use lumper.Base.Slices.{length-take_le}
use lumper.Memory.{GuestMemory}
use lumper.Net.Frame.{Descriptor, RxQueue}
use lumper.Net.Buffers.{IsOutside, IsReady, Received}
use lumper.Net.Device.{Interface}

-- A chain by its head and its buffers.
abbrev pub Chain : Type 0
Chain = ℕ × List Descriptor

-- The address lies in a buffer of the chain.
abbrev pub IsInside : ℕ → List Descriptor → Type 0
IsInside j [] = ⊥
IsInside j (d ∷ ds) = ((d.addr ≤ j) × (j < d.addr + d.len)) ⊎ IsInside j ds

-- The address lies in no buffer of any of the chains.
abbrev pub OutsideAll : ℕ → List Chain → Type 0
OutsideAll j [] = Unit
OutsideAll j ((head, chain) ∷ chains) = IsOutside j chain × OutsideAll j chains

pub IsInside-or_IsOutside : (j : ℕ) (chain : List Descriptor) → IsInside j chain ⊎ IsOutside j chain
IsInside-or_IsOutside j [] = inr tt
IsInside-or_IsOutside j (d ∷ ds) = elim here [
  | inl h ↦ inl (inl h)
  | inr h ↦ elim (IsInside-or_IsOutside j ds) [ inl k ↦ inl (inr k) | inr k ↦ inr (h, k) ]
]
  where
    here : ((d.addr ≤ j) × (j < d.addr + d.len)) ⊎ ((j < d.addr) ⊎ (d.addr + d.len ≤ j))
    here = omega arith

-- The memory and the queue: their effect on bytes outside of the rings.
module _ (G : GuestMemory) where
  -- Another state of memory with the same ranges and, at the addresses of the set, the same bytes.
  pub record SameAt (m m' : G.State) (P : ℕ → Type 0) : Type 0 where
    pub ranges : (j : ℕ) → G.address_in_range m' j ≡ G.address_in_range m j
    pub bytes : (j : ℕ) → P j → G.byte_at m' j ≡ G.byte_at m j

  module _ (R : RxQueue G) where
    pub record Offers : Type 1 where
      pub chains : G.State × R.Queue → List Chain
      pub reports : G.State × R.Queue → List (ℕ × ℕ)
      pub IsRing : ℕ → Type 0
      -- What stands outside of the rings does not matter to the queue.
      pub stable :
          (m m' : G.State) (q : R.Queue)
          → SameAt m m' IsRing
          → (chains (m', q) ≡ chains (m, q)) × (reports (m', q) ≡ reports (m, q))
      pub next_some :
          (m : G.State) (q : R.Queue) (c : Chain) (cs : List Chain)
          → chains (m, q) ≡ c ∷ cs
          → (q' : R.Queue) × (R.next_chain m q ≡ (q', ok (some c)))
            × (chains (m, q') ≡ cs)
            × (reports (m, q') ≡ reports (m, q))
      pub used :
          (head len : ℕ) (m : G.State) (q : R.Queue)
          → (m' : G.State) × (q' : R.Queue) × (R.add_used head len (m, q) ≡ ((m', q'), ok tt))
            × (chains (m', q') ≡ chains (m, q))
            × (reports (m', q') ≡ reports (m, q) ++ ((head, len) ∷ []))
            × SameAt m m' (λ j. IsRing j → ⊥)
      pub needs :
          (m : G.State) (q : R.Queue)
          → (m' : G.State) × (q' : R.Queue) × (b : Bool) × (R.needs_notification (m, q)
              ≡ ((m', q'), ok b))
            × (reports (m', q') ≡ reports (m, q))
            × SameAt m m' (λ j. IsRing j → ⊥)

-- An interface by the frames that wait in it.
pub record Frames (I : Interface) : Type 0 where
  pub frames : I.Tap → List (List ℕ)
  pub read_none :
      (t : I.Tap)
      → frames t ≡ []
      → (t' : I.Tap) × (e : I.IoError) × (I.read t ≡ (t', err e)) × (frames t' ≡ [])
  pub read_some :
      (t : I.Tap) (f : List ℕ) (fs : List (List ℕ))
      → frames t ≡ f ∷ fs
      → (t' : I.Tap) × (I.read t ≡ (t', ok f)) × (frames t' ≡ fs)

module _ (G : GuestMemory) where
  -- Every chain has room in guest memory, apart from the rings and from the later chains.
  abbrev pub AllReady : (IsRing : ℕ → Type 0) → G.State → List Chain → Type 0
  AllReady IsRing m [] = Unit
  AllReady IsRing m ((head, chain) ∷ chains) =
      IsReady G m chain
      × ((j : ℕ) → IsInside j chain → (IsRing j → ⊥) × OutsideAll j chains)
      × AllReady IsRing m chains

  -- The frames stand in the chains, one in each, in their order.
  abbrev pub Delivered : G.State → List Chain → List (List ℕ) → Type 0
  Delivered m chains [] = Unit
  Delivered m [] (frame ∷ frames) = ⊥
  Delivered m ((head, chain) ∷ chains) (frame ∷ frames) =
      Received G m chain frame × Delivered m chains frames

  pub IsReady-SameAt :
      (m m' : G.State) (chain : List Descriptor)
      → ((j : ℕ) → G.address_in_range m' j ≡ G.address_in_range m j)
      → IsReady G m chain
      → IsReady G m' chain
  IsReady-SameAt m m' [] ranges h = tt
  IsReady-SameAt m m' (d ∷ ds) ranges (pos, c, apart, later) =
      (pos, (λ i p. ranges (d.addr + i) ∙ c i p), apart, IsReady-SameAt m m' ds ranges later)

  pub AllReady-SameAt :
      (IsRing : ℕ → Type 0) (m m' : G.State) (chains : List Chain)
      → ((j : ℕ) → G.address_in_range m' j ≡ G.address_in_range m j)
      → AllReady IsRing m chains
      → AllReady IsRing m' chains
  AllReady-SameAt IsRing m m' [] ranges h = tt
  AllReady-SameAt IsRing m m' ((head, chain) ∷ chains) ranges (ready, apart, later) = (
    IsReady-SameAt m m' chain ranges ready,
    apart,
    AllReady-SameAt IsRing m m' chains ranges later,
  )

  -- A frame stays where the bytes of the buffers stay.
  pub Received-kept :
      (m m' : G.State) (chain : List Descriptor) (frame : List ℕ)
      → ((j : ℕ) → IsInside j chain → G.byte_at m' j ≡ G.byte_at m j)
      → Received G m chain frame
      → Received G m' chain frame
  Received-kept m m' [] frame same h = tt
  Received-kept m m' (d ∷ ds) frame same (here, later) = (
    λ i p.
        same (d.addr + i) (inl (omega arith, omega (arith, p, length-take_le d.len frame)))
        ∙ here i p,
    Received-kept m m' ds (drop d.len frame) (λ j k. same j (inr k)) later,
  )
