-- ===== src/Device/Calls.antt =====
-- library/src/reverse_offload/context_ro_device.cpp: what a call reads and what it does.
use roc_shmem.Common.{ℕ, ◌+◌, ◌-◌, ◌%◌, ◌^◌, Bool, if◌then◌else◌, ltb}
use roc_shmem.Common.Int.{ℤ, pos, negsuc}
use roc_shmem.Transport.Request.{RoNetCmds, QueueElement}
use roc_shmem.Queue.{sub64}

-- What a call reads of its context and thread: its PE, the PEs with shared memory and the bases of
-- their heaps, whether the wavefront's coalescing has the thread send, whether the thread is the
-- first of its block and of its wavefront, the atomic counter and the results of atomics.
pub record Context : Type 0 where
  pub my_pe : ℤ
  pub is_ipc_available : ℤ → Bool
  pub ipc_bases : ℤ → ℕ
  pub must_send_message : Bool
  pub is_thread_zero_in_block : Bool
  pub is_thread_zero_in_wave : Bool
  pub thread_id : ℕ
  pub atomic_counter : ℕ
  pub max_nb_atomic : ℕ
  pub atomic_base_ptr : ℕ

-- What a call does: it copies bytes, does an atomic at an address, sends a command and waits for
-- its completion or not, or does nothing.
pub data Outcome : Type 0 where
  copies : (dst src size : ℕ) → Outcome
  atomic : (address : ℕ) → Outcome
  sends : (element : QueueElement) (blocking : Bool) → Outcome
  nothing : Outcome

abbrev pub add64 : ℕ → ℕ → ℕ
add64 a b = (a + b) % 2 ^ 64

-- The address in the memory of the PE of an address in one's own heap.
unfoldable pub remote : Context → ℕ → ℤ → ℕ
remote c address pe = add64 (c.ipc_bases pe) (sub64 address (c.ipc_bases c.my_pe))

-- The conversion of `size_t` to `int`, with which `build_queue_element` stores a size.
abbrev pub to_int : ℕ → ℤ
to_int n = let low = n % 2 ^ 32 in if ltb low (2 ^ 31) then pos low else negsuc (2 ^ 32 - low - 1)

-- The conversion of `int64_t` to `size_t`, with which a value goes in the place of the size.
abbrev pub to_size : ℤ → ℕ
to_size (pos n) = n % 2 ^ 64
to_size (negsuc n) = 2 ^ 64 - 1 - n % 2 ^ 64

-- The element of a call with the arguments that most calls give `build_queue_element`.
abbrev pub command : Context → RoNetCmds → ℕ → ℕ → ℕ → ℤ → QueueElement
command c type dst src size pe = record {
  type = type;
  pe = pe;
  size = to_int size;
  src = src;
  dst = dst;
  thread_id = c.thread_id;
  log_pe_stride = pos 0;
  pe_size = pos 0;
  p_wrk = 0;
  p_sync = 0;
  op = 0;
  datatype = 3;
  pe_root = pos 0;
  team_comm = 0;
}
