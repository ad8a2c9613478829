-- ===== src/Device/Answers.antt =====
-- library/src/reverse_offload/context_ro_device.cpp: which commands a thread waits for.
use roc_shmem.Common.{ℕ, ◌≡◌, refl, Bool, true, false, if◌then◌else◌}
use roc_shmem.Common.Int.{ℤ}
use roc_shmem.Transport.Request.{RoNetCmds, ro_net_put_nbi, ro_net_get_nbi}
use roc_shmem.Device.{
  Context, Outcome, copies, atomic, sends, nothing, putmem, getmem, putmem_nbi, getmem_nbi,
  putmem_wg, getmem_wg, putmem_nbi_wg, getmem_nbi_wg, putmem_wave, getmem_wave, putmem_nbi_wave,
  getmem_nbi_wave, fence, quiet, barrier_all, sync_all, sync, amo_fetch_cas, amo_fetch_add,
  Transfer, put, get, put_nbi, get_nbi, put_wg, get_wg, put_nbi_wg, get_nbi_wg, put_wave, get_wave,
  put_nbi_wave, get_nbi_wave, transfer, Call, moves, fences, quiets, barriers, syncs_all, syncs,
  fetch_cas, fetch_add, run,
}

-- The commands that a thread waits for.
abbrev pub awaited : RoNetCmds → Bool
awaited ro_net_put_nbi = false
awaited ro_net_get_nbi = false
awaited c = true

-- A command that is sent names the thread, and blocks just where its kind is awaited.
abbrev pub Suits : Context → Outcome → Type 0
Suits c (sends e blocking) = (blocking ≡ awaited e.type) × (e.thread_id ≡ c.thread_id)
Suits c (copies dst src size) = Unit
Suits c (atomic address) = Unit
Suits c nothing = Unit

if-Suits :
    (c : Context) (b : Bool) (x y : Outcome) → Suits c x → Suits c y → Suits c (if b then x else y)
if-Suits c true x y h k = h
if-Suits c false x y h k = k

transfer-Suits :
    (t : Transfer) (c : Context) (dest source nelems : ℕ) (pe : ℤ)
    → Suits c (transfer t c dest source nelems pe)
unfolding transfer putmem getmem putmem_nbi getmem_nbi putmem_wg getmem_wg putmem_nbi_wg
    getmem_nbi_wg putmem_wave getmem_wave putmem_nbi_wave getmem_nbi_wave
transfer-Suits put c dest source nelems pe =
    if-Suits c (c.is_ipc_available pe) _ _ tt (if-Suits c c.must_send_message _ _ (refl, refl) tt)
transfer-Suits get c dest source nelems pe =
    if-Suits c (c.is_ipc_available pe) _ _ tt (if-Suits c c.must_send_message _ _ (refl, refl) tt)
transfer-Suits put_nbi c dest source nelems pe =
    if-Suits c (c.is_ipc_available pe) _ _ tt (if-Suits c c.must_send_message _ _ (refl, refl) tt)
transfer-Suits get_nbi c dest source nelems pe =
    if-Suits c (c.is_ipc_available pe) _ _ tt (if-Suits c c.must_send_message _ _ (refl, refl) tt)
transfer-Suits put_wg c dest source nelems pe =
    if-Suits c (c.is_ipc_available pe) _ _ tt
      (if-Suits c c.is_thread_zero_in_block _ _ (refl, refl) tt)
transfer-Suits get_wg c dest source nelems pe =
    if-Suits c (c.is_ipc_available pe) _ _ tt
      (if-Suits c c.is_thread_zero_in_block _ _ (refl, refl) tt)
transfer-Suits put_nbi_wg c dest source nelems pe =
    if-Suits c (c.is_ipc_available pe) _ _ tt
      (if-Suits c c.is_thread_zero_in_block _ _ (refl, refl) tt)
transfer-Suits get_nbi_wg c dest source nelems pe =
    if-Suits c (c.is_ipc_available pe) _ _ tt
      (if-Suits c c.is_thread_zero_in_block _ _ (refl, refl) tt)
transfer-Suits put_wave c dest source nelems pe =
    if-Suits c (c.is_ipc_available pe) _ _ tt
      (if-Suits c c.is_thread_zero_in_wave _ _ (refl, refl) tt)
transfer-Suits get_wave c dest source nelems pe =
    if-Suits c (c.is_ipc_available pe) _ _ tt
      (if-Suits c c.is_thread_zero_in_wave _ _ (refl, refl) tt)
transfer-Suits put_nbi_wave c dest source nelems pe =
    if-Suits c (c.is_ipc_available pe) _ _ tt
      (if-Suits c c.is_thread_zero_in_wave _ _ (refl, refl) tt)
transfer-Suits get_nbi_wave c dest source nelems pe =
    if-Suits c (c.is_ipc_available pe) _ _ tt
      (if-Suits c c.is_thread_zero_in_wave _ _ (refl, refl) tt)

-- Every command that a call of a thread sends names the thread, and the thread blocks just where
-- the command is neither a non-blocking put nor a non-blocking get.
pub run-Suits : (c : Context) (call : Call) → Suits c (run c call)
unfolding run fence quiet barrier_all sync_all sync amo_fetch_cas amo_fetch_add
run-Suits c (moves t dest source nelems pe) = transfer-Suits t c dest source nelems pe
run-Suits c fences = (refl, refl)
run-Suits c quiets = (refl, refl)
run-Suits c barriers = if-Suits c c.is_thread_zero_in_block _ _ (refl, refl) tt
run-Suits c syncs_all = if-Suits c c.is_thread_zero_in_block _ _ (refl, refl) tt
run-Suits c (syncs mpi_comm) = if-Suits c c.is_thread_zero_in_block _ _ (refl, refl) tt
run-Suits c (fetch_cas dst value cond pe) = if-Suits c (c.is_ipc_available pe) _ _ tt (refl, refl)
run-Suits c (fetch_add dst value pe) = if-Suits c (c.is_ipc_available pe) _ _ tt (refl, refl)
