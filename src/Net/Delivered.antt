-- ===== src/Net/Delivered.antt =====
-- `process_tap` gives the guest the frames that wait in the interface.
use lumper.Base.{
  ℕ, zero, suc, ◌≤◌, ◌<◌, ◌≡◌, refl, ◌∙◌, sym, ap, subst, Bool, true, false, Option, some, List, [],
  ◌∷◌, ◌++◌, arith, length, replicate, length-replicate, ok,
}
use Prim.Native.Nat.{min}
use mathlib.Core.List.{append-nil, append_assoc}
use lumper.Memory.{GuestMemory, IsLawful}
use lumper.Net.Frame.{RxQueue, Rx}
use lumper.Net.Buffers.{total_len}
use lumper.Net.Device.{
  Interface, Nic, TapOutcome, tap_loop, notify_guest, after_needs, process_tap, max_buffer_size,
}
use lumper.Net.Rounds.{waiting, told, give_one, give_none}
use lumper.Net.Chains.{
  Chain, OutsideAll, SameAt, Offers, Frames, AllReady, Delivered, AllReady-SameAt, Received-kept,
}

module _ (G : GuestMemory) (L : IsLawful G) (R : RxQueue G) (I : Interface) (O : Offers G R)
    (F : Frames I) where
  -- The reports on the frames, one for each chain that got one.
  abbrev pub receipts : List Chain → List (List ℕ) → List (ℕ × ℕ)
  receipts chains [] = []
  receipts [] (frame ∷ frames) = []
  receipts ((head, chain) ∷ chains) (frame ∷ frames) =
      (head, min (length frame) (total_len chain)) ∷ receipts chains frames

  abbrev pub AllFit : ℕ → List (List ℕ) → Type 0
  AllFit n [] = Unit
  AllFit n (frame ∷ frames) = (length frame ≤ n) × AllFit n frames

  -- The loop has given every frame to a chain.
  record Given (outcome : Option (TapOutcome G R I (Unit {0}))) (nic : Nic G R I)
      (chains : List Chain) (frames : List (List ℕ)) : Type 0 where
    final : Nic G R I
    returns : outcome ≡ some (final, ok tt)
    no_frames : F.frames final.tap ≡ []
    reported : told G L R I O F final ≡ told G L R I O F nic ++ receipts chains frames
    delivered : Delivered G final.rx.memory chains frames
    kept :
        (j : ℕ)
        → (O.IsRing j → ⊥)
        → OutsideAll j chains
        → G.byte_at final.rx.memory j ≡ G.byte_at nic.rx.memory j

  give_all :
      (frames : List (List ℕ)) (chains : List Chain) (fuel : ℕ) (buffer : List ℕ) (nic : Nic G R I)
      → F.frames nic.tap ≡ frames
      → waiting G L R I O F nic ≡ chains
      → AllReady G O.IsRing nic.rx.memory chains
      → AllFit 65565 frames
      → length buffer ≡ 65565
      → length frames ≤ length chains
      → length frames < fuel
      → Given (tap_loop G R I fuel buffer nic) nic chains frames
  unfolding tap_loop
  give_all frames chains zero buffer nic waits offered ready fit big enough fuelled =
      absurd (omega arith)
  give_all [] chains (suc fuel) buffer nic waits offered ready fit big enough fuelled =
      let last = give_none G L R I O F buffer nic waits in
      record {
        final = record nic { tap = last.0 };
        returns = rw (last.1) refl;
        no_frames = last.2;
        reported = sym (append-nil _);
        delivered = tt;
        kept = λ j off out. refl;
      }
  give_all (frame ∷ frames) [] (suc fuel) buffer nic waits offered ready fit big enough fuelled =
      absurd (omega arith)
  give_all (frame ∷ frames) ((head, chain) ∷ chains) (suc fuel) buffer nic waits offered ready fit
        big enough fuelled =
      let one =
        give_one G L R I O F buffer nic frame frames head chain chains waits offered (omega arith)
          (omega (arith, fit.0)) ready.0 ready.1 in
      let rest =
        give_all frames chains fuel one.rest one.final one.left_frames one.left_chains
          (AllReady-SameAt G O.IsRing nic.rx.memory one.final.rx.memory chains one.ranges ready.2)
          fit.1 (one.same_length ∙ big) (omega arith) (omega arith) in
      record {
        final = rest.final;
        returns = rw (one.returns) rest.returns;
        no_frames = rest.no_frames;
        reported =
            rest.reported
            ∙ ap (λ l. l ++ receipts chains frames) one.reported
            ∙ append_assoc _ _ (receipts chains frames);
        delivered = (
          Received-kept G one.final.rx.memory rest.final.rx.memory chain frame
              (λ j k. rest.kept j (ready.1 j k).0 (ready.1 j k).1) one.received,
          rest.delivered,
        );
        kept = λ j off out. rest.kept j off out.1 ∙ one.kept j off out.0;
      }

  Delivered-kept :
      (m m' : G.State) (chains : List Chain) (frames : List (List ℕ)) (m0 : G.State)
      → ((j : ℕ) → (O.IsRing j → ⊥) → G.byte_at m' j ≡ G.byte_at m j)
      → AllReady G O.IsRing m0 chains
      → Delivered G m chains frames
      → Delivered G m' chains frames
  Delivered-kept m m' chains [] m0 same ready d = tt
  Delivered-kept m m' [] (frame ∷ frames) m0 same ready d = d
  Delivered-kept m m' ((head, chain) ∷ chains) (frame ∷ frames) m0 same ready d = (
    Received-kept G m m' chain frame (λ j k. same j (ready.1 j k).0) d.0,
    Delivered-kept m m' chains frames m0 same ready.2 d.1,
  )

  told_guest :
      (b : Bool) (nic : Nic G R I) (m : G.State) (q : R.Queue)
      → (final : Nic G R I) × (after_needs G R I nic ((m, q), ok b) ≡ (final, ok tt))
        × (final.rx ≡ record { memory = m; queue = q })
        × (final.tap ≡ nic.tap)
  unfolding after_needs
  told_guest true nic m q = (_, refl, refl, refl)
  told_guest false nic m q = (_, refl, refl, refl)

  -- What a call of `process_tap` leaves: every frame in its chain and reported, and no other byte
  -- outside of the rings changed.
  pub record Delivers (outcome : Option (TapOutcome G R I (Unit {0}))) (nic : Nic G R I)
      (chains : List Chain) (frames : List (List ℕ)) : Type 0 where
    pub final : Nic G R I
    pub returns : outcome ≡ some (final, ok tt)
    pub no_frames : F.frames final.tap ≡ []
    pub reported :
        O.reports (final.rx.memory, final.rx.queue)
        ≡ O.reports (nic.rx.memory, nic.rx.queue) ++ receipts chains frames
    pub delivered : Delivered G final.rx.memory chains frames
    pub kept :
        (j : ℕ)
        → (O.IsRing j → ⊥)
        → OutsideAll j chains
        → G.byte_at final.rx.memory j ≡ G.byte_at nic.rx.memory j

  -- On a queue with a chain for every frame that waits in the interface, each with room in guest memory
  -- apart from the rings and from the other chains, and with frames of at most 65565 bytes,
  -- `process_tap` gives every frame to a chain of its own, in their order, and returns: the bytes of a
  -- frame stand in the buffers of its chain as far as they reach, each chain is reported as used with
  -- the size of its frame or its own room, whichever is less, no frame is left, and outside of the
  -- rings and of these buffers no byte of guest memory has changed. Fuel above the number of frames is
  -- enough.
  pub process_tap-Delivers :
      (fuel : ℕ) (nic : Nic G R I)
      → let chains = O.chains (nic.rx.memory, nic.rx.queue) in
        let frames = F.frames nic.tap in
        AllReady G O.IsRing nic.rx.memory chains
        → AllFit 65565 frames
        → length frames ≤ length chains
        → length frames < fuel
        → Delivers (process_tap G R I fuel nic) nic chains frames
  unfolding process_tap notify_guest
  process_tap-Delivers fuel nic ready fit enough fuelled = record {
    final = told_to.0;
    returns = rw (given.returns, needs.3, told_to.1) refl;
    no_frames = ap F.frames told_to.3 ∙ given.no_frames;
    reported =
        ap (λ (rx : Rx G R). O.reports (rx.memory, rx.queue)) told_to.2 ∙ needs.4 ∙ given.reported;
    delivered =
        subst (λ (rx : Rx G R). Delivered G rx.memory chains frames) (sym told_to.2)
          (Delivered-kept given.final.rx.memory needs.0 chains frames nic.rx.memory needs.5.bytes
            ready given.delivered);
    kept = λ j off out.
        ap (λ (rx : Rx G R). G.byte_at rx.memory j) told_to.2
        ∙ needs.5.bytes j off
        ∙ given.kept j off out;
  }
    where
      chains : List Chain
      chains = O.chains (nic.rx.memory, nic.rx.queue)

      frames : List (List ℕ)
      frames = F.frames nic.tap

      given : Given (tap_loop G R I fuel (replicate max_buffer_size 0) nic) nic chains frames
      given =
          give_all frames chains fuel (replicate max_buffer_size 0) nic refl refl ready fit
            (length-replicate {A = ℕ} max_buffer_size 0) enough fuelled

      needs :
          (m' : G.State) × (q' : R.Queue) × (b : Bool) × (R.needs_notification
              (given.final.rx.memory, given.final.rx.queue)
            ≡ ((m', q'), ok b))
          × (O.reports (m', q') ≡ told G L R I O F given.final)
          × SameAt G given.final.rx.memory m' (λ j. O.IsRing j → ⊥)
      needs = O.needs given.final.rx.memory given.final.rx.queue

      told_to :
          (final : Nic G R I) × (after_needs G R I given.final ((needs.0, needs.1), ok needs.2)
            ≡ (final, ok tt))
          × (final.rx ≡ record { memory = needs.0; queue = needs.1 })
          × (final.tap ≡ given.final.tap)
      told_to = told_guest needs.2 given.final needs.0 needs.1
