-- ===== src/Tests/Receive.antt =====
-- The receiving half of the network device, on a queue that is a list of chains.
use lumper.Base.{
  inl, inr, ℕ, ◌≡◌, refl, ap, true, false, Option, none, some, List, [], ◌∷◌, ◌++◌, arith,
  replicate, Result, ok, err,
}
use lumper.Memory.Flat.{flat_memory, flat_memory-IsLawful}
use lumper.Net.Chains.{Chain, IsInside, OutsideAll, Offers, Frames}
use lumper.Net.Delivered.{Delivers, process_tap-Delivers}
use lumper.Net.Frame.{RxQueue}
use lumper.Net.Device.{Nic, process_tap}
use lumper.Tests.Machine.{blank, Covers-blank}
use lumper.Tests.Nic.{Wire, read_frame, with_incoming, wire}

-- A receive queue apart from guest memory, with the chains that wait and those that were used.
pub record Waiting : Type 0 where
  pub chains : List Chain
  pub reports : List (ℕ × ℕ)

abbrev take_chain : Waiting → List Chain → Waiting × Result (Unit {0}) (Option Chain)
take_chain q [] = (q, ok none)
take_chain q (c ∷ cs) = (record q { chains = cs }, ok (some c))

abbrev waiting_queue : RxQueue flat_memory
waiting_queue = record {
  Queue = Waiting;
  QueueError = Unit;
  next_chain = λ m q. take_chain q q.chains;
  add_used =
      λ head len (m, q). ((m, record q { reports = q.reports ++ ((head, len) ∷ []) }), ok tt);
  enable_notification = λ s. (s, ok false);
  disable_notification = λ s. (s, ok tt);
  needs_notification = λ s. (s, ok true);
}

take_chain-some :
    (q : Waiting) (chains : List Chain) (c : Chain) (cs : List Chain)
    → chains ≡ c ∷ cs
    → (q' : Waiting) × (take_chain q chains ≡ (q', ok (some c)))
      × (q'.chains ≡ cs)
      × (q'.reports ≡ q.reports)
take_chain-some q [] c cs e = cc
take_chain-some q (d ∷ ds) c cs e =
    (record q { chains = ds }, ap (λ x. (record q { chains = ds }, ok (some x))) cc, cc, refl)

waiting_queue-Offers : Offers flat_memory waiting_queue
waiting_queue-Offers = record {
  chains = λ (m, q). q.chains;
  reports = λ (m, q). q.reports;
  IsRing = λ j. ⊥;
  stable = λ m m' q same. (refl, refl);
  next_some = λ m q c cs e. take_chain-some q q.chains c cs e;
  used = λ head len m q.
      (m, _, refl, refl, refl, record { ranges = λ j. refl; bytes = λ j off. refl });
  needs = λ m q. (m, q, true, refl, refl, record { ranges = λ j. refl; bytes = λ j off. refl });
}

read_frame-none :
    (t : Wire) (fs : List (List ℕ))
    → fs ≡ []
    → (t' : Wire) × (e : ℕ) × (with_incoming t (read_frame fs) ≡ (t', err e)) × (t'.incoming ≡ [])
read_frame-none t [] e = (_, 11, refl, refl)
read_frame-none t (g ∷ gs) e = cc

read_frame-some :
    (t : Wire) (incoming : List (List ℕ)) (f : List ℕ) (fs : List (List ℕ))
    → incoming ≡ f ∷ fs
    → (t' : Wire) × (with_incoming t (read_frame incoming) ≡ (t', ok f)) × (t'.incoming ≡ fs)
read_frame-some t [] f fs e = cc
read_frame-some t (g ∷ gs) f fs e =
    (record t { incoming = gs }, ap (λ x. (record t { incoming = gs }, ok x)) cc, cc)

wire-Frames : Frames wire
wire-Frames = record {
  frames = λ t. t.incoming;
  read_none = λ t e. read_frame-none t t.incoming e;
  read_some = λ t f fs e. read_frame-some t t.incoming f fs e;
}

-- A chain of two buffers and one of a single buffer, for a frame of six bytes and one of three.
abbrev receiving : Nic flat_memory waiting_queue wire
receiving = record {
  rx = record {
    memory = blank;
    queue = record {
      chains =
          (3, record { addr = 0x3000; len = 4 } ∷ record { addr = 0x3100; len = 8 } ∷ [])
          ∷ (5, record { addr = 0x4000; len = 2 } ∷ [])
          ∷ [];
      reports = [];
    };
  };
  tx = record { chains = []; reports = [] };
  tap = record { incoming = replicate 6 1 ∷ replicate 3 2 ∷ []; sent = [] };
  interrupt_status = 0;
  irq = 0;
}

apart_first :
    (j : ℕ)
    → IsInside j (record { addr = 0x3000; len = 4 } ∷ record { addr = 0x3100; len = 8 } ∷ [])
    → (⊥ → ⊥) × OutsideAll j ((5, record { addr = 0x4000; len = 2 } ∷ []) ∷ [])
apart_first j (inl here) = (λ x. x, ((inl (omega arith), tt), tt))
apart_first j (inr (inl there)) = (λ x. x, ((inl (omega arith), tt), tt))
apart_first j (inr (inr x)) = absurd x

apart_second :
    (j : ℕ) → IsInside j (record { addr = 0x4000; len = 2 } ∷ []) → (⊥ → ⊥) × OutsideAll j []
apart_second j (inl here) = (λ x. x, tt)
apart_second j (inr x) = absurd x

process_tap-Delivers_example :
    Delivers flat_memory flat_memory-IsLawful waiting_queue wire waiting_queue-Offers wire-Frames
      (process_tap flat_memory waiting_queue wire 3 receiving)
      receiving
      receiving.rx.queue.chains
      receiving.tap.incoming
unfolding waiting_queue-Offers wire-Frames
process_tap-Delivers_example =
    process_tap-Delivers flat_memory flat_memory-IsLawful waiting_queue wire waiting_queue-Offers
      wire-Frames 3 receiving
      (
        (
          omega arith,
          Covers-blank 0x3000 4 (omega arith),
          (inl (omega arith), tt),
          (omega arith, Covers-blank 0x3100 8 (omega arith), tt, tt),
        ),
        apart_first,
        ((omega arith, Covers-blank 0x4000 2 (omega arith), tt, tt), apart_second, tt),
      )
      (omega arith, (omega arith, tt)) (omega arith) (omega arith)
