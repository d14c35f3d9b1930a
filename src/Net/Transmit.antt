-- ===== src/Net/Transmit.antt =====
-- `queue_notify` sends the packets that wait, in their order.
use lumper.Base.{Option, ℕ, ◌≤◌, ◌≡◌, false, none, some, List, [], ◌∷◌, ◌++◌, length, ok}
use lumper.Memory.{GuestMemory}
use lumper.Memory.Read.{read_bytes}
use lumper.Net.Frame.{Descriptor, RxQueue}
use lumper.Net.Device.{Interface, Nic}

abbrev joined : Option (List ℕ) → Option (List ℕ) → Option (List ℕ)
joined (some bytes) (some rest) = some (bytes ++ rest)
joined (some bytes) none = none
joined none rest = none

-- What the buffers of a chain hold, one behind the other.
unfoldable pub contents : (G : GuestMemory) → G.State → List Descriptor → Option (List ℕ)
contents G m [] = some []
contents G m (desc ∷ chain) = joined (read_bytes G m desc.len desc.addr) (contents G m chain)

-- A queue as the packets that wait in it, first come first served: what virtio-queue promises of a
-- queue whose rings lie apart from the buffers.
pub record Feeds (G : GuestMemory) (R : RxQueue G) : Type 0 where
  pub packets : G.State × R.Queue → List (List ℕ)
  pub next_none :
      (m : G.State) (q : R.Queue)
      → packets (m, q) ≡ []
      → (q' : R.Queue) × (R.next_chain m q ≡ (q', ok none)) × (packets (m, q') ≡ [])
  pub next_some :
      (m : G.State) (q : R.Queue) (p : List ℕ) (ps : List (List ℕ))
      → packets (m, q) ≡ p ∷ ps
      → (q' : R.Queue) × (head : ℕ) × (chain : List Descriptor) × (R.next_chain m q
          ≡ (q', ok (some (head, chain))))
        × (contents G m chain ≡ some p)
        × (packets (m, q') ≡ ps)
  pub used : (head len : ℕ) (s : G.State × R.Queue) → packets (R.add_used head len s).0 ≡ packets s
  pub disabled :
      (s : G.State × R.Queue)
      → (s' : G.State × R.Queue) × (R.disable_notification s ≡ (s', ok tt))
        × (packets s' ≡ packets s)
  -- With no packet left, no more came before the notifications were on again.
  pub enabled :
      (s : G.State × R.Queue)
      → packets s ≡ []
      → (s' : G.State × R.Queue) × (R.enable_notification s ≡ (s', ok false)) × (packets s' ≡ [])
  pub needs : (s : G.State × R.Queue) → packets (R.needs_notification s).0 ≡ packets s

-- An interface that takes every packet, by the packets it was given.
pub record Takes (I : Interface) : Type 0 where
  pub sent : I.Tap → List (List ℕ)
  pub write_ok :
      (p : List ℕ) (t : I.Tap)
      → (t' : I.Tap) × (count : ℕ) × (I.write p t ≡ (t', ok count)) × (sent t' ≡ sent t ++ (p ∷ []))

-- Every packet has room for the header.
abbrev pub AllLong : ℕ → List (List ℕ) → Type 0
AllLong n [] = Unit
AllLong n (p ∷ ps) = (n ≤ length p) × AllLong n ps

module _ (G : GuestMemory) (R : RxQueue G) (I : Interface) (virtio_hdr_len : ℕ) (F : Feeds G R)
    (T : Takes I) where
  abbrev waiting : Nic G R I → List (List ℕ)
  waiting nic = F.packets (nic.rx.memory, nic.tx)
