-- ===== src/Net/Scatter.antt =====
-- `write_frame_to_guest` puts the frame into the buffers of the chain, as the guest reads them.
use lumper.Base.{
  ℕ, ◌+◌, ◌-◌, ◌≤◌, ◌≡◌, refl, ◌∙◌, sym, ap, subst, ◌≢◌, some, List, [], ◌∷◌, arith, length, take,
  drop, get_or, eq→==, ne→not-==, ok, proceed,
}
use Prim.Native.Nat.{min}
use native.Mathlib.Decide.{ℕ_discrete}
use lumper.Base.Slices.{length-take, length-drop, take-min, drop-min, drop-drop}
use lumper.Memory.{GuestMemory, Covers, Wrote, IsLawful}
use lumper.Net.Frame.{Descriptor, RxQueue, Rx, copy_frame, report_used, write_frame_to_guest}
use lumper.Net.Buffers.{
  total_len, IsReady, Received, Scatters, Received-nil, IsReady-Wrote, IsApart-IsOutside,
}

module _ (G : GuestMemory) (L : IsLawful G) (buffer : List ℕ) where
  open G use {State}

  abbrev FillsFrom : List Descriptor → ℕ → State → Type 0
  FillsFrom chain count m =
      Scatters G (copy_frame G buffer chain count m) m chain (drop count buffer)
        (count + min (length buffer - count) (total_len chain))

  -- Nothing is left to write.
  copy_frame_done :
      (chain : List Descriptor) (count : ℕ) (m : State)
      → count ≤ length buffer
      → length buffer - count ≡ 0
      → copy_frame G buffer chain count m ≡ (m, ok count)
      → FillsFrom chain count m
  copy_frame_done chain count m h none_left e = record {
    final = m;
    returns = e ∙ ap (λ k. (m, ok k)) {x = count} (omega arith);
    ranges = λ j. refl;
    received =
        rw (nothing (drop count buffer) (omega (arith, length-drop count buffer)))
          (Received-nil G m chain);
    outside = λ j p. refl;
  }
    where
      nothing : (xs : List ℕ) → length xs ≡ 0 → xs ≡ []
      nothing [] p = refl
      nothing (x ∷ xs) p = absurd (omega arith)

  -- One buffer is filled, and then the others.
  copy_frame_step :
      (d : Descriptor) (chain : List Descriptor) (count : ℕ) (m : State)
      → count ≤ length buffer
      → length buffer - count ≢ 0
      → IsReady G m (d ∷ chain)
      → ((count' : ℕ) (m' : State)
          → count' ≤ length buffer
          → IsReady G m' chain
          → FillsFrom chain count' m')
      → FillsFrom (d ∷ chain) count m
  unfolding copy_frame
  copy_frame_step d chain count m h some_left (pos, c, apart, later) others = record {
    final = rest.final;
    returns = rw (ne→not-== (length buffer - count) 0 some_left) (
        ap (λ o. proceed o (λ _. copy_frame G buffer chain (count + len))) written
        ∙ rest.returns
        ∙ ap (λ k. (rest.final, ok k)) (omega arith));
    ranges = λ j. rest.ranges j ∙ wrote.ranges j;
    received = (
      λ i p.
          rest.outside (d.addr + i) (
            IsApart-IsOutside G d chain i apart (omega (arith, short, ap (λ l. length l) piece_eq)))
          ∙ wrote.inside i (omega (arith, ap (λ l. length l) piece_eq))
          ∙ ap (λ l. some (get_or l i 0)) piece_eq,
      subst_received rest.received,
    );
    outside = λ j (here, p). rest.outside j p ∙ wrote.outside j (omega (arith, short));
  }
    where
      bytes : List ℕ
      bytes = drop count buffer

      len : ℕ
      len = min (length buffer - count) d.len

      left_eq : length bytes ≡ length buffer - count
      left_eq = length-drop count buffer

      short : length (take len bytes) ≡ len
      short = length-take len bytes (omega (arith, left_eq))

      piece_eq : take len bytes ≡ take d.len bytes
      piece_eq = ap (λ k. take (min k d.len) bytes) (sym left_eq) ∙ take-min d.len bytes

      covers : Covers G m d.addr (length (take len bytes))
      covers = λ i p. c i (omega (arith, short))

      wrote : Wrote G m (G.write_slice (take len bytes) d.addr m).0 d.addr (take len bytes)
      wrote = L.write_slice_wrote (take len bytes) d.addr m (omega (arith, short)) covers

      written :
          G.write_slice (take len bytes) d.addr m
          ≡ ((G.write_slice (take len bytes) d.addr m).0, ok tt)
      written = λ i. (
        (G.write_slice (take len bytes) d.addr m).0,
        L.write_slice_ok (take len bytes) d.addr m (omega (arith, short)) covers i,
      )

      rest : FillsFrom chain (count + len) (G.write_slice (take len bytes) d.addr m).0
      rest = others (count + len) _ (omega arith) (IsReady-Wrote G chain wrote later)

      subst_received :
          Received G rest.final chain (drop (count + len) buffer)
          → Received G rest.final chain (drop d.len bytes)
      subst_received = subst (Received G rest.final chain) (
          sym (drop-drop len count buffer)
          ∙ ap (λ k. drop (min k d.len) bytes) (sym left_eq)
          ∙ drop-min d.len bytes)

  copy_frame-Scatters :
      (chain : List Descriptor) (count : ℕ) (m : State)
      → count ≤ length buffer
      → IsReady G m chain
      → FillsFrom chain count m
  unfolding copy_frame
  copy_frame-Scatters [] count m h ready = record {
    final = m;
    returns = ap (λ k. (m, ok k)) {x = count} (omega arith);
    ranges = λ j. refl;
    received = tt;
    outside = λ j p. refl;
  }
  copy_frame-Scatters (d ∷ chain) count m h ready = elim (ℕ_discrete (length buffer - count) 0) [
    | yes e ↦ copy_frame_done (d ∷ chain) count m h e (rw (eq→== (length buffer - count) 0 e) refl)
    | no ne ↦
        copy_frame_step d chain count m h ne ready
          (λ count' m' h' ready'. copy_frame-Scatters chain count' m' h' ready')
  ]

module _ (G : GuestMemory) (L : IsLawful G) (R : RxQueue G) where
  -- If the queue gives a chain whose buffers have room, lie in guest memory and share no byte, a
  -- frame within the buffer ends in the report of the chain as used, with the size of the frame or
  -- the room of the chain, whichever is less; by then the guest finds the frame in the buffers, in
  -- their order, as far as they reach, and no other byte of guest memory has changed.
  pub write_frame_to_guest-Scatters :
      (original_buffer : List ℕ) (size head : ℕ) (chain : List Descriptor) (rx : Rx G R)
      (q : R.Queue)
      → size ≤ length original_buffer
      → R.next_chain rx.memory rx.queue ≡ (q, ok (some (head, chain)))
      → IsReady G rx.memory chain
      → let frame = take size original_buffer in
        let count = min size (total_len chain) in
        (s : Scatters G (copy_frame G frame chain 0 rx.memory) rx.memory chain frame count)
        × (write_frame_to_guest G R original_buffer size rx
            ≡ report_used G R head count (record { memory = s.final; queue = q }))
  unfolding write_frame_to_guest
  write_frame_to_guest-Scatters original_buffer size head chain rx q h given ready =
      (scattered, rw (given, scattered.returns) refl)
    where
      frame : List ℕ
      frame = take size original_buffer

      copied :
          Scatters G
            (copy_frame G frame chain 0 rx.memory)
            rx.memory
            chain
            frame
            (0 + min (length frame - 0) (total_len chain))
      copied = copy_frame-Scatters G L frame chain 0 rx.memory (omega arith) ready

      scattered :
          Scatters G
            (copy_frame G frame chain 0 rx.memory)
            rx.memory
            chain
            frame
            (min size (total_len chain))
      scattered =
          subst (Scatters G (copy_frame G frame chain 0 rx.memory) rx.memory chain frame)
            (omega (arith, length-take size original_buffer h)) copied
