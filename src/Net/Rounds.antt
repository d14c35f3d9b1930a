-- ===== src/Net/Rounds.antt =====
-- One round of the loop of `process_tap`.
use lumper.Base.{
  ℕ, ◌^◌, ◌≤◌, ◌<◌, ◌≡◌, refl, ◌∙◌, ap, subst, inl, inr, none, some, List, [], ◌∷◌, ◌++◌, arith,
  length, length-append, take, drop, u32, ok,
}
use Prim.Native.Nat.{min}
use lumper.Base.Slices.{take-append_within, take_all, length-drop}
use lumper.Memory.{GuestMemory, IsLawful}
use lumper.Net.Frame.{RxQueue, copy_frame, report_used, write_frame_to_guest}
use lumper.Net.Buffers.{total_len, IsOutside, IsReady, Received, Scatters}
use lumper.Net.Scatter.{write_frame_to_guest-Scatters}
use lumper.Net.Device.{Interface, Nic, overwrite, after_write, after_read, tap_round}
use lumper.Net.Chains.{
  Chain, IsInside, OutsideAll, IsInside-or_IsOutside, SameAt, Offers, Frames, Received-kept,
}

module _ (G : GuestMemory) (L : IsLawful G) (R : RxQueue G) (I : Interface) (O : Offers G R)
    (F : Frames I) where
  abbrev pub waiting : Nic G R I → List Chain
  waiting nic = O.chains (nic.rx.memory, nic.rx.queue)

  abbrev pub told : Nic G R I → List (ℕ × ℕ)
  told nic = O.reports (nic.rx.memory, nic.rx.queue)

  -- A round that gives a frame to a chain.
  pub record Gives (buffer : List ℕ) (nic : Nic G R I) (frame : List ℕ) (frames : List (List ℕ))
      (c : Chain) (cs : List Chain) : Type 0 where
    pub final : Nic G R I
    pub rest : List ℕ
    pub returns : tap_round G R I buffer nic ≡ (final, ok (some rest))
    pub same_length : length rest ≡ length buffer
    pub left_frames : F.frames final.tap ≡ frames
    pub left_chains : waiting final ≡ cs
    pub reported : told final ≡ told nic ++ ((c.0, min (length frame) (total_len c.1)) ∷ [])
    pub received : Received G final.rx.memory c.1 frame
    pub ranges : (j : ℕ) → G.address_in_range final.rx.memory j ≡ G.address_in_range nic.rx.memory j
    pub kept :
        (j : ℕ)
        → (O.IsRing j → ⊥)
        → IsOutside j c.1
        → G.byte_at final.rx.memory j ≡ G.byte_at nic.rx.memory j

  pub give_one :
      (buffer : List ℕ) (nic : Nic G R I) (frame : List ℕ) (frames : List (List ℕ)) (head : ℕ)
      (chain : _) (cs : List Chain)
      → F.frames nic.tap ≡ frame ∷ frames
      → waiting nic ≡ (head, chain) ∷ cs
      → length frame ≤ length buffer
      → length frame < 2 ^ 32
      → IsReady G nic.rx.memory chain
      → ((j : ℕ) → IsInside j chain → (O.IsRing j → ⊥) × OutsideAll j cs)
      → Gives buffer nic frame frames (head, chain) cs
  unfolding tap_round after_read after_write report_used
  give_one buffer nic frame frames head chain cs waits offered fits short ready apart = record {
    final = record nic { rx = record { memory = used.0; queue = used.1 }; tap = read.0 };
    rest = bytes;
    returns = rw (read.1, written.1, u32_count, used.2) refl;
    same_length = omega (
      arith,
      length-append frame (drop (length frame) buffer),
      length-drop (length frame) buffer,
    );
    left_frames = read.2;
    left_chains = used.3 ∙ steady.0 ∙ next.2;
    reported = used.4 ∙ ap (λ l. l ++ ((head, count) ∷ [])) (steady.1 ∙ next.3);
    received =
        Received-kept G s.final used.0 chain frame (λ j k. used.5.bytes j (apart j k).0)
          (subst (Received G s.final chain) is_frame s.received);
    ranges = λ j. used.5.ranges j ∙ s.ranges j;
    kept = λ j off out. used.5.bytes j off ∙ s.outside j out;
  }
    where
      read : (t' : I.Tap) × (I.read nic.tap ≡ (t', ok frame)) × (F.frames t' ≡ frames)
      read = F.read_some nic.tap frame frames waits

      next :
          (q' : R.Queue) × (R.next_chain nic.rx.memory nic.rx.queue ≡ (q', ok (some (head, chain))))
          × (O.chains (nic.rx.memory, q') ≡ cs)
          × (O.reports (nic.rx.memory, q') ≡ told nic)
      next = O.next_some nic.rx.memory nic.rx.queue (head, chain) cs offered

      bytes : List ℕ
      bytes = overwrite G R I frame buffer

      count : ℕ
      count = min (length frame) (total_len chain)

      u32_count : u32 count ≡ count
      u32_count = omega arith

      written :
          (s : Scatters G
            (copy_frame G (take (length frame) bytes) chain 0 nic.rx.memory)
            nic.rx.memory
            chain
            (take (length frame) bytes)
            count)
          × (write_frame_to_guest G R bytes (length frame) nic.rx
              ≡ report_used G R head count (record { memory = s.final; queue = next.0 }))
      written =
          write_frame_to_guest-Scatters G L R bytes (length frame) head chain nic.rx next.0
            (omega (arith, length-append frame (drop (length frame) buffer))) next.1 ready

      s :
          Scatters G
            (copy_frame G (take (length frame) bytes) chain 0 nic.rx.memory)
            nic.rx.memory
            chain
            (take (length frame) bytes)
            count
      s = written.0

      used :
          (m' : G.State) × (q' : R.Queue) × (R.add_used head count (s.final, next.0)
            ≡ ((m', q'), ok tt))
          × (O.chains (m', q') ≡ O.chains (s.final, next.0))
          × (O.reports (m', q') ≡ O.reports (s.final, next.0) ++ ((head, count) ∷ []))
          × SameAt G s.final m' (λ j. O.IsRing j → ⊥)
      used = O.used head count s.final next.0

      out : (j : ℕ) → O.IsRing j → IsOutside j chain
      out = λ j ring. elim (IsInside-or_IsOutside j chain) [
        | inl k ↦ absurd ((apart j k).0 ring)
        | inr k ↦ k
      ]

      steady :
          (O.chains (s.final, next.0) ≡ O.chains (nic.rx.memory, next.0))
          × (O.reports (s.final, next.0) ≡ O.reports (nic.rx.memory, next.0))
      steady =
          O.stable nic.rx.memory s.final next.0
            (record { ranges = s.ranges; bytes = λ j ring. s.outside j (out j ring) })

      is_frame : take (length frame) bytes ≡ frame
      is_frame =
          take-append_within (length frame) frame (drop (length frame) buffer) (omega arith)
          ∙ take_all (length frame) frame refl

  pub give_none :
      (buffer : List ℕ) (nic : Nic G R I)
      → F.frames nic.tap ≡ []
      → (t' : I.Tap) × (tap_round G R I buffer nic ≡ (record nic { tap = t' }, ok none))
        × (F.frames t' ≡ [])
  unfolding tap_round after_read
  give_none buffer nic waits =
      let read = F.read_none nic.tap waits in (read.0, rw (read.2) refl, read.3)
