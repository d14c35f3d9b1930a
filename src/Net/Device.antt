-- ===== src/Net/Device.antt =====
-- The state of `VirtioNet` of src/vmm/src/devices/net/mod.rs, and `process_tap`, which gives the guest
-- the frames of the interface. The interface (src/vmm/src/devices/net/interface.rs) is a parameter.
use lumper.Base.{
  ℕ, zero, suc, Bool, true, false, Option, none, some, List, ◌++◌, length, drop, replicate, Result,
  ok, err,
}
use lumper.Memory.{GuestMemory}
use lumper.Net.Frame.{RxQueue, Rx, NetError, queue_error, write_frame_to_guest}

abbrev pub max_buffer_size : ℕ
max_buffer_size = 65565

-- `Interface`, by its reading and writing halves, and the event that interrupts the guest. A failed
-- signal is only printed.
pub record Interface : Type 1 where
  pub Tap : Type 0
  pub IoError : Type 0
  pub Irq : Type 0
  -- The bytes that were read, at most the size of the buffer.
  pub read : Tap → Tap × Result IoError (List ℕ)
  pub write : List ℕ → Tap → Tap × Result IoError ℕ
  pub signal : Irq → Irq

module _ (G : GuestMemory) (R : RxQueue G) (I : Interface) where
  -- The first queue with guest memory, and the second one.
  pub record Nic : Type 0 where
    pub rx : Rx G R
    pub tx : R.Queue
    pub tap : I.Tap
    pub interrupt_status : ℕ
    pub irq : I.Irq

  abbrev pub TapOutcome : Type 0 → Type 0
  TapOutcome A = Nic × Result (NetError G R) A

  -- A read over the front of the buffer.
  abbrev pub overwrite : List ℕ → List ℕ → List ℕ
  overwrite bytes buffer = bytes ++ drop (length bytes) buffer

  -- With the buffer the loop goes on, without it ends.
  unfoldable pub after_enable :
      List ℕ → Nic → (G.State × R.Queue) × Result R.QueueError Bool → TapOutcome (Option (List ℕ))
  after_enable buffer nic ((m, q), ok true) =
      (record nic { rx = record { memory = m; queue = q } }, ok (some buffer))
  after_enable buffer nic ((m, q), ok false) =
      (record nic { rx = record { memory = m; queue = q } }, ok none)
  after_enable buffer nic ((m, q), err e) =
      (record nic { rx = record { memory = m; queue = q } }, err (queue_error e))

  unfoldable pub after_write :
      List ℕ → Nic → Rx G R × Result (NetError G R) Bool → TapOutcome (Option (List ℕ))
  unfolding after_enable
  after_write buffer nic (rx, ok true) = (record nic { rx = rx }, ok (some buffer))
  after_write buffer nic (rx, ok false) =
      after_enable buffer (record nic { rx = rx }) (R.enable_notification (rx.memory, rx.queue))
  after_write buffer nic (rx, err e) = (record nic { rx = rx }, err e)

  unfoldable pub after_read :
      List ℕ → Nic → I.Tap × Result I.IoError (List ℕ) → TapOutcome (Option (List ℕ))
  unfolding after_write
  after_read buffer nic (tap, ok bytes) =
      after_write (overwrite bytes buffer) (record nic { tap = tap })
        (write_frame_to_guest G R (overwrite bytes buffer) (length bytes) nic.rx)
  after_read buffer nic (tap, err e) = (record nic { tap = tap }, ok none)

  -- One round of the loop of `process_tap`.
  unfoldable pub tap_round : List ℕ → Nic → TapOutcome (Option (List ℕ))
  unfolding after_read
  tap_round buffer nic = after_read buffer nic (I.read nic.tap)

  abbrev pub go_on :
      TapOutcome (Option (List ℕ))
      → (List ℕ → Nic → Option (TapOutcome (Unit {0})))
      → Option (TapOutcome (Unit {0}))
  go_on (nic, ok (some buffer)) rest = rest buffer nic
  go_on (nic, ok none) rest = some (nic, ok tt)
  go_on (nic, err e) rest = some (nic, err e)

  -- The loop, on fuel; `none` means that the fuel ran out.
  unfoldable pub tap_loop : ℕ → List ℕ → Nic → Option (TapOutcome (Unit {0}))
  tap_loop zero buffer nic = none
  tap_loop (suc fuel) buffer nic =
      go_on (tap_round buffer nic) (λ buffer' nic'. tap_loop fuel buffer' nic')

  unfoldable pub after_needs :
      Nic → (G.State × R.Queue) × Result R.QueueError Bool → TapOutcome (Unit {0})
  after_needs nic ((m, q), ok true) = (
    record nic {
      rx = record { memory = m; queue = q };
      interrupt_status = 1;
      irq = I.signal nic.irq;
    },
    ok tt,
  )
  after_needs nic ((m, q), ok false) = (record nic { rx = record { memory = m; queue = q } }, ok tt)
  after_needs nic ((m, q), err e) =
      (record nic { rx = record { memory = m; queue = q } }, err (queue_error e))

  -- The notification of the guest, behind the loop.
  unfoldable pub notify_guest : TapOutcome (Unit {0}) → TapOutcome (Unit {0})
  unfolding after_needs
  notify_guest (nic, ok done) = after_needs nic (R.needs_notification (nic.rx.memory, nic.rx.queue))
  notify_guest (nic, err e) = (nic, err e)

  abbrev pub notified : Option (TapOutcome (Unit {0})) → Option (TapOutcome (Unit {0}))
  notified none = none
  notified (some out) = some (notify_guest out)

  unfoldable pub process_tap : ℕ → Nic → Option (TapOutcome (Unit {0}))
  unfolding tap_round tap_loop notify_guest
  process_tap fuel nic = notified (tap_loop fuel (replicate max_buffer_size 0) nic)
