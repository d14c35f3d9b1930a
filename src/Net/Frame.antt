-- ===== src/Net/Frame.antt =====
-- `write_frame_to_guest` of src/vmm/src/devices/net/mod.rs: a frame that was read from the interface
-- is spread over the buffers of a chain. The queue of the crate virtio-queue is a parameter; a chain
-- is its head and the descriptors that its iterator gives.
use lumper.Base.{
  ℕ, ◌+◌, ◌-◌, Bool, true, false, Option, none, some, List, [], ◌∷◌, length, take, drop, u32, ◌==◌,
  if◌then◌else◌, Result, ok, err, Eff, ◌>>=◌, ◌>>◌, pure,
}
use Prim.Native.Nat.{min}
use lumper.Memory.{GuestMemory}

-- `Descriptor`, by its address and length.
pub record Descriptor : Type 0 where
  pub addr : ℕ
  pub len : ℕ

-- The queue and the errors of its calls.
pub record RxQueue (G : GuestMemory) : Type 1 where
  pub Queue : Type 0
  pub QueueError : Type 0
  -- `iter(mem)`, and the first chain of the iterator.
  pub next_chain : G.State → Eff Queue QueueError (Option (ℕ × List Descriptor))
  -- `add_used(mem, head_index, len)`
  pub add_used : ℕ → ℕ → Eff (G.State × Queue) QueueError (Unit {0})
  -- The notifications may read and write the rings in guest memory.
  pub enable_notification : G.State × Queue → (G.State × Queue) × Result QueueError Bool
  pub disable_notification : G.State × Queue → (G.State × Queue) × Result QueueError (Unit {0})
  pub needs_notification : G.State × Queue → (G.State × Queue) × Result QueueError Bool

-- The constructors of `VirtioNetError` that the function can end in.
pub data FrameError (MemoryError QueueError : Type 0) : Type 0 where
  memory_error : MemoryError → FrameError MemoryError QueueError
  queue_error : QueueError → FrameError MemoryError QueueError

module _ (G : GuestMemory) where
  -- `while let Some(desc) = chain.next()`, with the count so far.
  unfoldable pub copy_frame : List ℕ → List Descriptor → ℕ → Eff G.State G.MemoryError ℕ
  copy_frame buffer [] count = pure count
  copy_frame buffer (desc ∷ chain) count =
      let left = length buffer - count in
      let len = min left desc.len in
      let rest : Eff G.State G.MemoryError ℕ = copy_frame buffer chain (count + len) in
      if left == 0
      then pure count
      else G.write_slice (take len (drop count buffer)) desc.addr >> rest

module _ (G : GuestMemory) (R : RxQueue G) where
  pub record Rx : Type 0 where
    pub memory : G.State
    pub queue : R.Queue

  abbrev pub NetError : Type 0
  NetError = FrameError G.MemoryError R.QueueError

  abbrev from_queue : {A : Type 0} → Rx → R.Queue × Result R.QueueError A → Rx × Result NetError A
  from_queue rx (q, ok a) = (record rx { queue = q }, ok a)
  from_queue rx (q, err e) = (record rx { queue = q }, err (queue_error e))

  abbrev from_memory : {A : Type 0} → Rx → G.State × Result G.MemoryError A → Rx × Result NetError A
  from_memory rx (m, ok a) = (record rx { memory = m }, ok a)
  from_memory rx (m, err e) = (record rx { memory = m }, err (memory_error e))

  abbrev from_both :
      {A : Type 0} → (G.State × R.Queue) × Result R.QueueError A → Rx × Result NetError A
  from_both ((m, q), ok a) = (record { memory = m; queue = q }, ok a)
  from_both ((m, q), err e) = (record { memory = m; queue = q }, err (queue_error e))

  -- The report of the used chain, at the end.
  unfoldable pub report_used : ℕ → ℕ → Eff Rx NetError Bool
  report_used head count = do
    (λ rx. from_both (R.add_used head (u32 count) (rx.memory, rx.queue)))
    pure true

  abbrev with_chain : List ℕ → Option (ℕ × List Descriptor) → Eff Rx NetError Bool
  with_chain buffer none = pure false
  with_chain buffer (some (head, chain)) = do
    count ← (λ rx. from_memory rx (copy_frame G buffer chain 0 rx.memory))
    report_used head count

  -- `size` bytes of the buffer are the frame; a message about a frame that does not fit is only
  -- printed.
  unfoldable pub write_frame_to_guest : List ℕ → ℕ → Eff Rx NetError Bool
  unfolding copy_frame report_used
  write_frame_to_guest original_buffer size = do
    next ← (λ rx. from_queue rx (R.next_chain rx.memory rx.queue))
    with_chain (take size original_buffer) next
