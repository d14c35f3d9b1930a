-- ===== src/Tests/Nic.antt =====
-- The loops of the network device, on a queue that is a list of chains.
use lumper.Base.{
  ℕ, ◌+◌, ◌<◌, ◌≡◌, refl, ◌∙◌, ap, true, false, Option, none, some, List, [], ◌∷◌, ◌++◌, arith,
  length, replicate, Result, ok, err,
}
use lumper.Memory.Flat.{Flat, flat_memory}
use lumper.Net.Frame.{Descriptor, RxQueue}
use lumper.Net.Device.{Interface, Nic, TapOutcome, process_tap}
use lumper.Net.Process.{Drains, process_tap_ends}
use lumper.Net.Transmit.{contents, Feeds, Takes}
use lumper.Tests.Machine.{blank}

-- A chain that cannot be read is left out.
abbrev next_with :
    Option (List ℕ)
    → List Descriptor
    → List (List Descriptor)
    → List (List Descriptor) × Option (ℕ × List Descriptor)
    → List (List Descriptor) × Option (ℕ × List Descriptor)
next_with none chain chains later = later
next_with (some packet) chain chains later = (chains, some (0, chain))

abbrev with_packet : Option (List ℕ) → List (List ℕ) → List (List ℕ)
with_packet none later = later
with_packet (some packet) later = packet ∷ later

abbrev next : Flat → List (List Descriptor) → List (List Descriptor) × Option (ℕ × List Descriptor)
next m [] = ([], none)
next m (chain ∷ chains) = next_with (contents flat_memory m chain) chain chains (next m chains)

abbrev packets : Flat → List (List Descriptor) → List (List ℕ)
packets m [] = []
packets m (chain ∷ chains) = with_packet (contents flat_memory m chain) (packets m chains)

abbrev pub chains_queue : RxQueue flat_memory
chains_queue = record {
  Queue = List (List Descriptor);
  QueueError = Unit;
  next_chain = λ m q. ((next m q).0, ok (next m q).1);
  add_used = λ head len (m, q). ((m, q), ok tt);
  enable_notification = λ (m, q). ((m, q), ok false);
  disable_notification = λ (m, q). ((m, q), ok tt);
  needs_notification = λ (m, q). ((m, q), ok true);
}

next_with-none :
    (g : Option (List ℕ)) (chain : List Descriptor) (chains : List (List Descriptor))
    (later : List (List Descriptor) × Option (ℕ × List Descriptor)) (ps : List (List ℕ))
    → with_packet g ps ≡ []
    → (ps ≡ [] → later ≡ ([], none))
    → next_with g chain chains later ≡ ([], none)
next_with-none none chain chains later ps e rest = rest e
next_with-none (some packet) chain chains later ps e rest = cc

next_empty : (m : Flat) (q : List (List Descriptor)) → packets m q ≡ [] → next m q ≡ ([], none)
next_empty m [] e = refl
next_empty m (chain ∷ chains) e =
    next_with-none (contents flat_memory m chain) chain chains (next m chains) (packets m chains) e
      (next_empty m chains)

-- The next chain is the one of the first packet.
abbrev Leads :
    Flat → List (List Descriptor) × Option (ℕ × List Descriptor) → List ℕ → List (List ℕ) → Type 0
Leads m out p ps =
    (chain : List Descriptor) × (out ≡ (out.0, some (0, chain)))
    × (contents flat_memory m chain ≡ some p)
    × (packets m out.0 ≡ ps)

next_with-Leads :
    (m : Flat) (g : Option (List ℕ)) (chain : List Descriptor) (chains : List (List Descriptor))
    (later : List (List Descriptor) × Option (ℕ × List Descriptor)) (p : List ℕ)
    (ps : List (List ℕ))
    → contents flat_memory m chain ≡ g
    → with_packet g (packets m chains) ≡ p ∷ ps
    → (packets m chains ≡ p ∷ ps → Leads m later p ps)
    → Leads m (next_with g chain chains later) p ps
next_with-Leads m none chain chains later p ps h e rest = rest e
next_with-Leads m (some packet) chain chains later p ps h e rest = (chain, refl, h ∙ ap some cc, cc)

next_first :
    (m : Flat) (q : List (List Descriptor)) (p : List ℕ) (ps : List (List ℕ))
    → packets m q ≡ p ∷ ps
    → Leads m (next m q) p ps
next_first m [] p ps e = cc
next_first m (chain ∷ chains) p ps e =
    next_with-Leads m (contents flat_memory m chain) chain chains (next m chains) p ps refl e
      (next_first m chains p ps)

chains_queue-Feeds : Feeds flat_memory chains_queue
chains_queue-Feeds = record {
  packets = λ (m, q). packets m q;
  next_none = λ m q e. let n = next_empty m q e in ([], ap (λ o. (o.0, ok o.1)) n, refl);
  next_some = λ m q p ps e.
      let l = next_first m q p ps e in
      ((next m q).0, 0, l.0, ap (λ o. ((next m q).0, ok o.1)) l.1, l.2, l.3);
  used = λ head len (m, q). refl;
  disabled = λ (m, q). ((m, q), refl, refl);
  enabled = λ (m, q) e. ((m, q), refl, e);
  needs = λ (m, q). refl;
}

-- The frames that wait, and those that were sent.
pub record Wire : Type 0 where
  pub incoming : List (List ℕ)
  pub sent : List (List ℕ)

abbrev pub read_frame : List (List ℕ) → List (List ℕ) × Result ℕ (List ℕ)
read_frame [] = ([], err 11)
read_frame (frame ∷ frames) = (frames, ok frame)

abbrev pub with_incoming : Wire → List (List ℕ) × Result ℕ (List ℕ) → Wire × Result ℕ (List ℕ)
with_incoming wire (frames, r) = (record wire { incoming = frames }, r)

-- An event is the number of its signals.
abbrev pub wire : Interface
wire = record {
  Tap = Wire;
  IoError = ℕ;
  Irq = ℕ;
  read = λ t. with_incoming t (read_frame t.incoming);
  write = λ packet t. (record t { sent = t.sent ++ (packet ∷ []) }, ok (length packet));
  signal = λ n. n + 1;
}

wire-Takes : Takes wire
wire-Takes = record { sent = λ t. t.sent; write_ok = λ p t. (_, length p, refl, refl) }

read_frame-shorter :
    (t : Wire) (frames : List (List ℕ)) (t' : Wire) (bytes : List ℕ)
    → with_incoming t (read_frame frames) ≡ (t', ok bytes)
    → length t'.incoming < length frames
read_frame-shorter t [] t' bytes e = cc
read_frame-shorter t (frame ∷ frames) t' bytes e = omega (arith, ap (λ o. length (o.0).incoming) e)

wire-Drains : Drains flat_memory chains_queue wire (λ t. length t.incoming)
wire-Drains t t' bytes e = read_frame-shorter t t.incoming t' bytes e

-- Two packets wait in the transmit queue, of four and of three bytes; a frame waits on the wire.
abbrev busy : Nic flat_memory chains_queue wire
busy = record {
  rx = record { memory = blank; queue = (record { addr = 0x3000; len = 8 } ∷ []) ∷ [] };
  tx =
      (record { addr = 0x1000; len = 3 } ∷ record { addr = 0x2000; len = 1 } ∷ [])
      ∷ (record { addr = 0x4000; len = 3 } ∷ [])
      ∷ [];
  tap = record { incoming = replicate 6 1 ∷ []; sent = [] };
  interrupt_status = 0;
  irq = 0;
}

process_tap_ends_example :
    (out : TapOutcome flat_memory chains_queue wire (Unit {0})) × (process_tap flat_memory
        chains_queue wire 2 busy
      ≡ some out)
    × (process_tap flat_memory chains_queue wire 9 busy ≡ some out)
process_tap_ends_example =
    process_tap_ends flat_memory chains_queue wire (λ t. length t.incoming) wire-Drains 2 9 busy
      (omega arith) (omega arith)
