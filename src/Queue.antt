-- ===== src/Queue.antt =====
-- library/src/reverse_offload/context_ro_device.cpp, backend_ro.cpp: the command queue of a
-- workgroup. The threads of the device write elements into a ring, each at the place of the number
-- that it took from the write index, and a thread of the host reads them in order. Numbers stay
-- below 2^64; a thread's loads and stores are seen in the order of its fences.
pub mod Ring
pub mod Invariant
pub mod Writers
pub mod Steps
pub mod History
mod Tests
use roc_shmem.Common.{
  update, ℕ, zero, suc, ◌+◌, ◌-◌, ◌%◌, ◌^◌, List, [], ◌∷◌, ◌++◌, Bool, true, false, if◌then◌else◌,
  ◌==◌, Option, none, some,
}
use roc_shmem.Transport.Request.{QueueElement}

-- The part of `ro_net_wg_handle` and `queue_desc_t` for the queue: `read_idx` is the device's copy
-- of `host_read_idx`. The valid bytes are apart from the rest of the elements, and `inserted`
-- holds the elements passed to the transport.
pub record Queue : Type 0 where
  pub queue_size : ℕ
  pub write_idx : ℕ
  pub read_idx : ℕ
  pub host_read_idx : ℕ
  pub elements : ℕ → Option QueueElement
  pub valid : ℕ → Bool
  pub inserted : List QueueElement

-- a - b on `uint64_t`.
abbrev pub sub64 : ℕ → ℕ → ℕ
sub64 a b = (a + (2 ^ 64 - b)) % 2 ^ 64

-- `isFull`.
unfoldable pub is_full : ℕ → ℕ → ℕ → Bool
is_full read_idx write_idx queue_size = sub64 queue_size (sub64 write_idx read_idx) == 0

-- The store of a value of the host's read index that a thread has loaded before, while the queue
-- seemed full.
unfoldable pub store_read_idx : ℕ → Queue → Queue
store_read_idx loaded q = record q { read_idx = loaded }

-- The compare-and-swap that takes a number: it succeeds where the write index is still the one
-- that was tested. `none` is the failure, and the thread tries again.
unfoldable pub take_slot : ℕ → Queue → Option Queue
take_slot write_slot q =
    if q.write_idx == write_slot then some (record q { write_idx = write_slot + 1 }) else none

-- The stores of the fields, into the place of the number. The element is what the stores leave
-- there, with the fields that its command does not set as they were.
unfoldable pub pack : ℕ → QueueElement → Queue → Queue
pack write_slot e q = record q { elements = update q.elements (write_slot % q.queue_size) (some e) }

unfoldable pub set_valid : ℕ → Queue → Queue
set_valid write_slot q = record q { valid = update q.valid (write_slot % q.queue_size) true }

-- `ro_net_process_queue`: whether an element was there, and the queue without it. A valid place
-- that was never written is no element.
unfoldable pub ro_net_process_queue : Queue → Option (Bool × Queue)
ro_net_process_queue q =
    let read_slot = q.host_read_idx % q.queue_size in
    if q.valid read_slot
    then (elim (q.elements read_slot) [
      | none ↦ none
      | some e ↦ some (
        true,
        record q {
          inserted = q.inserted ++ e ∷ [];
          valid = update q.valid read_slot false;
          host_read_idx = q.host_read_idx + 1;
        },
      )
    ])
    else some (false, q)

-- The loop of `ro_net_poll` over one queue, from the request count on: it ends with the first
-- reading that finds nothing, and after 64 readings.
unfoldable pub drain : ℕ → Queue → Option Queue
unfolding ro_net_process_queue
drain zero q = some q
drain (suc left) q = after (ro_net_process_queue q) (drain left)
  where
    after : Option (Bool × Queue) → (Queue → Option Queue) → Option Queue
    after none again = none
    after (some (true, q')) again = again q'
    after (some (false, q')) again = some q'
