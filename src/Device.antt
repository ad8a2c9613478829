-- ===== src/Device.antt =====
-- library/src/reverse_offload/context_ro_device.cpp: the calls of a thread of the device. Each
-- copies through memory that is shared with the other PE, or hands the host a command.
pub mod Calls
pub mod Transfers
pub mod Answers
pub mod Replies
pub mod Heap
mod Tests
unfoldable pub use Calls.*
unfoldable pub use Transfers.*
use roc_shmem.Common.{ℕ, ◌+◌, ◌-◌, ◌*◌, ◌%◌, ◌^◌, Bool, true, false, if◌then◌else◌, ltb}
use roc_shmem.Common.Int.{ℤ, pos, negsuc}
use roc_shmem.Transport.Request.{
  RoNetCmds, ro_net_put, ro_net_p, ro_net_get, ro_net_put_nbi, ro_net_get_nbi, ro_net_amo_fop,
  ro_net_amo_fcas, ro_net_fence, ro_net_quiet, ro_net_finalize, ro_net_to_all, ro_net_team_to_all,
  ro_net_sync, ro_net_barrier_all, ro_net_broadcast, ro_net_team_broadcast, ro_net_alltoall,
  ro_net_fcollect, QueueElement,
}

-- `fence` and `fence(pe)`, `quiet`.
unfoldable pub fence : Context → Outcome
fence c = sends (command c ro_net_fence 0 0 0 (pos 0)) true

unfoldable pub quiet : Context → Outcome
quiet c = sends (command c ro_net_quiet 0 0 0 (pos 0)) true

unfoldable pub barrier_all : Context → Outcome
barrier_all c =
    if c.is_thread_zero_in_block
    then sends (command c ro_net_barrier_all 0 0 0 (pos 0)) true
    else nothing

unfoldable pub sync_all : Context → Outcome
sync_all c =
    if c.is_thread_zero_in_block
    then sends (command c ro_net_barrier_all 0 0 0 (pos 0)) true
    else nothing

unfoldable pub sync : Context → ℕ → Outcome
sync c mpi_comm =
    if c.is_thread_zero_in_block
    then sends (record (command c ro_net_sync 0 0 0 (pos 0)) { team_comm = mpi_comm }) true
    else nothing

-- The place of the result of the next atomic.
abbrev pub atomic_slot : Context → ℕ
atomic_slot c = c.atomic_base_ptr + 8 * (c.atomic_counter % c.max_nb_atomic)

-- The value goes in the place of the size, and the condition in that of the work array.
unfoldable pub amo_fetch_cas : Context → ℕ → ℤ → ℤ → ℤ → Outcome
unfolding remote
amo_fetch_cas c dst value cond pe =
    if c.is_ipc_available pe
    then atomic (remote c dst pe)
    else sends
        (record (command c ro_net_amo_fcas dst (atomic_slot c) (to_size value) pe) {
          p_wrk = to_size cond;
        })
        true

-- `amo_fetch_add` and `amo_add`.
unfoldable pub amo_fetch_add : Context → ℕ → ℤ → ℤ → Outcome
unfolding remote
amo_fetch_add c dst value pe =
    if c.is_ipc_available pe
    then atomic (remote c dst pe)
    else sends (command c ro_net_amo_fop dst (atomic_slot c) (to_size value) pe) true

-- `shmem_ptr`: 0 is the null pointer.
unfoldable pub shmem_ptr : Context → ℕ → ℤ → ℕ
unfolding remote
shmem_ptr c dest pe = if c.is_ipc_available pe then remote c dest pe else 0

-- The calls of a thread.
pub data Call : Type 0 where
  moves : (t : Transfer) (dest source nelems : ℕ) (pe : ℤ) → Call
  fences : Call
  quiets : Call
  barriers : Call
  syncs_all : Call
  syncs : (mpi_comm : ℕ) → Call
  fetch_cas : (dst : ℕ) (value cond pe : ℤ) → Call
  fetch_add : (dst : ℕ) (value pe : ℤ) → Call

unfoldable pub run : Context → Call → Outcome
unfolding transfer
run c (moves t dest source nelems pe) = transfer t c dest source nelems pe
run c fences = fence c
run c quiets = quiet c
run c barriers = barrier_all c
run c syncs_all = sync_all c
run c (syncs mpi_comm) = sync c mpi_comm
run c (fetch_cas dst value cond pe) = amo_fetch_cas c dst value cond pe
run c (fetch_add dst value pe) = amo_fetch_add c dst value pe
