-- ===== src/Net/Process.antt =====
-- The loop of `process_tap` ends.
use lumper.Base.{
  ℕ, zero, suc, ◌≤◌, ◌<◌, ◌≡◌, refl, ◌∙◌, sym, ap, subst, Bool, true, false, Option, none, some,
  List, arith, length, replicate, Result, ok, err,
}
use lumper.Memory.{GuestMemory}
use lumper.Net.Frame.{RxQueue, Rx, NetError, write_frame_to_guest}
use lumper.Net.Device.{
  Interface, Nic, TapOutcome, overwrite, after_enable, after_write, after_read, tap_round, go_on,
  notified, tap_loop, notify_guest, process_tap, max_buffer_size,
}

module _ (G : GuestMemory) (R : RxQueue G) (I : Interface) where
  -- Every frame that is read leaves fewer behind.
  abbrev pub Drains : (I.Tap → ℕ) → Type 0
  Drains pending =
      (t t' : I.Tap) (bytes : List ℕ) → I.read t ≡ (t', ok bytes) → pending t' < pending t

  after_enable-tap :
      (buffer : List ℕ) (nic : Nic G R I) (p : (G.State × R.Queue) × Result R.QueueError Bool)
      → (after_enable G R I buffer nic p).0.tap ≡ nic.tap
  unfolding after_enable
  after_enable-tap buffer nic ((m, q), ok true) = refl
  after_enable-tap buffer nic ((m, q), ok false) = refl
  after_enable-tap buffer nic ((m, q), err e) = refl

  after_write-tap :
      (buffer : List ℕ) (nic : Nic G R I) (p : Rx G R × Result (NetError G R) Bool)
      → (after_write G R I buffer nic p).0.tap ≡ nic.tap
  unfolding after_write
  after_write-tap buffer nic (rx, ok true) = refl
  after_write-tap buffer nic (rx, ok false) = after_enable-tap buffer (record nic { rx = rx }) _
  after_write-tap buffer nic (rx, err e) = refl

  go_on_ends :
      (p : TapOutcome G R I (Option (List ℕ)))
      (f g : List ℕ → Nic G R I → Option (TapOutcome G R I (Unit {0})))
      → ((buffer : List ℕ) (nic : Nic G R I)
          → p ≡ (nic, ok (some buffer))
          → (out : TapOutcome G R I (Unit {0})) × (f buffer nic ≡ some out)
            × (g buffer nic ≡ some out))
      → (out : TapOutcome G R I (Unit {0})) × (go_on G R I p f ≡ some out)
        × (go_on G R I p g ≡ some out)
  go_on_ends (nic, ok (some buffer)) f g rest = rest buffer nic refl
  go_on_ends (nic, ok none) f g rest = ((nic, ok tt), refl, refl)
  go_on_ends (nic, err e) f g rest = ((nic, err e), refl, refl)

  module _ (pending : I.Tap → ℕ) (drains : Drains pending) where
    after_read-pending :
        (buffer buffer' : List ℕ) (nic nic' : Nic G R I) (p : I.Tap × Result I.IoError (List ℕ))
        → I.read nic.tap ≡ p
        → after_read G R I buffer nic p ≡ (nic', ok (some buffer'))
        → pending nic'.tap < pending nic.tap
    unfolding after_read
    after_read-pending buffer buffer' nic nic' (tap, ok bytes) e h =
        subst (λ t. pending t < pending nic.tap)
          (sym (
              after_write-tap (overwrite G R I bytes buffer) (record nic { tap = tap })
                (write_frame_to_guest G R (overwrite G R I bytes buffer) (length bytes) nic.rx))
            ∙ ap (λ o. o.0.tap) h)
          (drains nic.tap tap bytes e)
    after_read-pending buffer buffer' nic nic' (tap, err x) e h = cc

    round_pending :
        (buffer buffer' : List ℕ) (nic nic' : Nic G R I)
        → tap_round G R I buffer nic ≡ (nic', ok (some buffer'))
        → pending nic'.tap < pending nic.tap
    unfolding tap_round
    round_pending buffer buffer' nic nic' e =
        after_read-pending buffer buffer' nic nic' (I.read nic.tap) refl e

    -- Enough fuel gives a result, and any more the same.
    tap_loop_ends :
        (fuel more : ℕ) (buffer : List ℕ) (nic : Nic G R I)
        → pending nic.tap < fuel
        → fuel ≤ more
        → (out : TapOutcome G R I (Unit {0})) × (tap_loop G R I fuel buffer nic ≡ some out)
          × (tap_loop G R I more buffer nic ≡ some out)
    unfolding tap_loop
    tap_loop_ends zero more buffer nic h k = absurd (omega arith)
    tap_loop_ends (suc fuel) zero buffer nic h k = absurd (omega arith)
    tap_loop_ends (suc fuel) (suc more) buffer nic h k =
        go_on_ends (tap_round G R I buffer nic) (tap_loop G R I fuel) (tap_loop G R I more)
          (λ buffer' nic' e.
            tap_loop_ends fuel more buffer' nic'
              (omega (arith, round_pending buffer buffer' nic nic' e)) (omega arith))

    -- If every frame that is read from the interface leaves fewer behind, `process_tap` ends: fuel above
    -- the number of frames that wait gives a result, an error of the queue or the end of the frames, and
    -- more fuel gives the same one.
    pub process_tap_ends :
        (fuel more : ℕ) (nic : Nic G R I)
        → pending nic.tap < fuel
        → fuel ≤ more
        → (out : TapOutcome G R I (Unit {0})) × (process_tap G R I fuel nic ≡ some out)
          × (process_tap G R I more nic ≡ some out)
    unfolding process_tap
    process_tap_ends fuel more nic h k =
        let ended = tap_loop_ends fuel more (replicate max_buffer_size 0) nic h k in
        (notify_guest G R I ended.0, ap (notified G R I) ended.1, ap (notified G R I) ended.2)
