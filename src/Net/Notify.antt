-- ===== src/Net/Notify.antt =====
-- `queue_notify` of src/vmm/src/devices/net/mod.rs: the packets of the transmit queue go to the
-- interface. An `unwrap` that fails is a panic; messages are left out. A read of guest memory gives
-- all bytes of the buffer or fails.
use lumper.Base.{
  ℕ, zero, suc, Bool, true, false, Option, none, some, List, [], ◌∷◌, ◌++◌, length, ltb, ◌==◌,
  if◌then◌else◌, Result, ok, err,
}
use lumper.Memory.{GuestMemory}
use lumper.Memory.Read.{read_bytes}
use lumper.Net.Frame.{Descriptor, RxQueue}
use lumper.Net.Device.{Interface, Nic}

-- How a round, or the whole call, ends.
pub data Round (S : Type 0) : Type 0 where
  again : S → Round S
  drained : S → Round S
  returned : S → Round S
  panicked : Round S
  out_of_fuel : Round S

-- `chain.clone().for_each(…)`, with the data so far.
unfoldable pub gather : (G : GuestMemory) → G.State → List Descriptor → List ℕ → Option (List ℕ)
gather G m [] data_buffer = some data_buffer
gather G m (desc ∷ chain) data_buffer = elim (read_bytes G m desc.len desc.addr) [
  | none ↦ none
  | some bytes ↦ gather G m chain (data_buffer ++ bytes)
]

module _ (G : GuestMemory) (R : RxQueue G) (I : Interface) (virtio_hdr_len : ℕ) where
  -- Guest memory with the transmit queue.
  abbrev pub tx_state : Nic G R I → G.State × R.Queue
  tx_state nic = (nic.rx.memory, nic.tx)

  abbrev pub set_tx : Nic G R I → G.State × R.Queue → Nic G R I
  set_tx nic (m, q) = record nic { rx = record (nic.rx) { memory = m }; tx = q }

  -- `needs_notification(…).unwrap_or_default()`
  abbrev pub after_used : Nic G R I → (G.State × R.Queue) × Result R.QueueError Bool → Nic G R I
  after_used nic (s, ok true) = record (set_tx nic s) { irq = I.signal nic.irq }
  after_used nic (s, ok false) = set_tx nic s
  after_used nic (s, err e) = set_tx nic s

  -- The result of `add_used` is only printed.
  abbrev pub after_send : ℕ → Nic G R I → I.Tap × Result I.IoError ℕ → Nic G R I
  after_send head nic (tap, ok count) =
      let used = (R.add_used head 0x100 (tx_state nic)).0 in
      after_used (record (set_tx nic used) { tap = tap }) (R.needs_notification used)
  after_send head nic (tap, err e) = record nic { tap = tap }

  abbrev pub send : ℕ → Nic G R I → Option (List ℕ) → Round (Nic G R I)
  send head nic none = panicked
  send head nic (some data_buffer) =
      if ltb (length data_buffer) virtio_hdr_len
      then returned nic
      else again (after_send head nic (I.write data_buffer nic.tap))

  abbrev pub with_next :
      Nic G R I → R.Queue × Result R.QueueError (Option (ℕ × List Descriptor)) → Round (Nic G R I)
  with_next nic (q, err e) = panicked
  with_next nic (q, ok none) = drained (record nic { tx = q })
  with_next nic (q, ok (some (head, chain))) =
      send head (record nic { tx = q }) (gather G nic.rx.memory chain [])

  -- `while let Some(chain) = queue.iter(&*mem).unwrap().next()`, on fuel.
  unfoldable pub send_chains : ℕ → Nic G R I → Round (Nic G R I)
  unfolding gather
  send_chains zero nic = out_of_fuel
  send_chains (suc fuel) nic = elim (with_next nic (R.next_chain nic.rx.memory nic.tx)) [
    | again nic' ↦ send_chains fuel nic'
    | drained nic' ↦ drained nic'
    | returned nic' ↦ returned nic'
    | panicked ↦ panicked
    | out_of_fuel ↦ out_of_fuel
  ]

  -- `!queue.enable_notification(…).unwrap_or_default()` ends the loop.
  abbrev pub after_enable :
      Nic G R I → (G.State × R.Queue) × Result R.QueueError Bool → Round (Nic G R I)
  after_enable nic (s, ok true) = again (set_tx nic s)
  after_enable nic (s, ok false) = returned (set_tx nic s)
  after_enable nic (s, err e) = returned (set_tx nic s)

  abbrev pub after_chains : Round (Nic G R I) → Round (Nic G R I)
  after_chains (drained nic) = after_enable nic (R.enable_notification (tx_state nic))
  after_chains (again nic) = again nic
  after_chains (returned nic) = returned nic
  after_chains panicked = panicked
  after_chains out_of_fuel = out_of_fuel

  abbrev pub after_disable :
      ℕ → Nic G R I → (G.State × R.Queue) × Result R.QueueError (Unit {0}) → Round (Nic G R I)
  after_disable fuel nic (s, ok done) = after_chains (send_chains fuel (set_tx nic s))
  after_disable fuel nic (s, err e) = returned (set_tx nic s)

  -- The outer loop, with fuel for the chains of each of its rounds.
  unfoldable pub notify_loop : ℕ → ℕ → Nic G R I → Round (Nic G R I)
  notify_loop zero chains nic = out_of_fuel
  notify_loop (suc fuel) chains nic =
      elim (after_disable chains nic (R.disable_notification (tx_state nic))) [
        | again nic' ↦ notify_loop fuel chains nic'
        | drained nic' ↦ drained nic'
        | returned nic' ↦ returned nic'
        | panicked ↦ panicked
        | out_of_fuel ↦ out_of_fuel
      ]

  unfoldable pub queue_notify : ℕ → ℕ → ℕ → Nic G R I → Round (Nic G R I)
  unfolding notify_loop send_chains
  queue_notify fuel chains val nic = if val == 0 then returned nic else notify_loop fuel chains nic
