-- ===== src/Device/Transfers.antt =====
-- library/src/reverse_offload/context_ro_device.cpp: the calls that move memory, for one thread, a
-- workgroup or a wavefront.
use roc_shmem.Common.{ℕ, true, false, if◌then◌else◌}
use roc_shmem.Common.Int.{ℤ}
use roc_shmem.Transport.Request.{ro_net_put, ro_net_get, ro_net_put_nbi, ro_net_get_nbi}
use roc_shmem.Device.Calls.{Context, Outcome, copies, sends, nothing, remote, command}

unfoldable pub putmem : Context → ℕ → ℕ → ℕ → ℤ → Outcome
unfolding remote
putmem c dest source nelems pe =
    if c.is_ipc_available pe
    then copies (remote c dest pe) source nelems
    else if c.must_send_message
    then sends (command c ro_net_put dest source nelems pe) true
    else nothing

unfoldable pub getmem : Context → ℕ → ℕ → ℕ → ℤ → Outcome
unfolding remote
getmem c dest source nelems pe =
    if c.is_ipc_available pe
    then copies dest (remote c source pe) nelems
    else if c.must_send_message
    then sends (command c ro_net_get dest source nelems pe) true
    else nothing

unfoldable pub putmem_nbi : Context → ℕ → ℕ → ℕ → ℤ → Outcome
unfolding remote
putmem_nbi c dest source nelems pe =
    if c.is_ipc_available pe
    then copies (remote c dest pe) source nelems
    else if c.must_send_message
    then sends (command c ro_net_put_nbi dest source nelems pe) false
    else nothing

unfoldable pub getmem_nbi : Context → ℕ → ℕ → ℕ → ℤ → Outcome
unfolding remote
getmem_nbi c dest source nelems pe =
    if c.is_ipc_available pe
    then copies dest (remote c source pe) nelems
    else if c.must_send_message
    then sends (command c ro_net_get_nbi dest source nelems pe) false
    else nothing

unfoldable pub putmem_wg : Context → ℕ → ℕ → ℕ → ℤ → Outcome
unfolding remote
putmem_wg c dest source nelems pe =
    if c.is_ipc_available pe
    then copies (remote c dest pe) source nelems
    else if c.is_thread_zero_in_block
    then sends (command c ro_net_put dest source nelems pe) true
    else nothing

unfoldable pub getmem_wg : Context → ℕ → ℕ → ℕ → ℤ → Outcome
unfolding remote
getmem_wg c dest source nelems pe =
    if c.is_ipc_available pe
    then copies dest (remote c source pe) nelems
    else if c.is_thread_zero_in_block
    then sends (command c ro_net_get dest source nelems pe) true
    else nothing

unfoldable pub putmem_nbi_wg : Context → ℕ → ℕ → ℕ → ℤ → Outcome
unfolding remote
putmem_nbi_wg c dest source nelems pe =
    if c.is_ipc_available pe
    then copies (remote c dest pe) source nelems
    else if c.is_thread_zero_in_block
    then sends (command c ro_net_put_nbi dest source nelems pe) false
    else nothing

unfoldable pub getmem_nbi_wg : Context → ℕ → ℕ → ℕ → ℤ → Outcome
unfolding remote
getmem_nbi_wg c dest source nelems pe =
    if c.is_ipc_available pe
    then copies dest (remote c source pe) nelems
    else if c.is_thread_zero_in_block
    then sends (command c ro_net_get_nbi dest source nelems pe) false
    else nothing

unfoldable pub putmem_wave : Context → ℕ → ℕ → ℕ → ℤ → Outcome
unfolding remote
putmem_wave c dest source nelems pe =
    if c.is_ipc_available pe
    then copies (remote c dest pe) source nelems
    else if c.is_thread_zero_in_wave
    then sends (command c ro_net_put dest source nelems pe) true
    else nothing

unfoldable pub getmem_wave : Context → ℕ → ℕ → ℕ → ℤ → Outcome
unfolding remote
getmem_wave c dest source nelems pe =
    if c.is_ipc_available pe
    then copies dest (remote c source pe) nelems
    else if c.is_thread_zero_in_wave
    then sends (command c ro_net_get dest source nelems pe) true
    else nothing

unfoldable pub putmem_nbi_wave : Context → ℕ → ℕ → ℕ → ℤ → Outcome
unfolding remote
putmem_nbi_wave c dest source nelems pe =
    if c.is_ipc_available pe
    then copies (remote c dest pe) source nelems
    else if c.is_thread_zero_in_wave
    then sends (command c ro_net_put_nbi dest source nelems pe) false
    else nothing

unfoldable pub getmem_nbi_wave : Context → ℕ → ℕ → ℕ → ℤ → Outcome
unfolding remote
getmem_nbi_wave c dest source nelems pe =
    if c.is_ipc_available pe
    then copies dest (remote c source pe) nelems
    else if c.is_thread_zero_in_wave
    then sends (command c ro_net_get_nbi dest source nelems pe) false
    else nothing

-- The calls that move memory.
pub data Transfer : Type 0 where
  put : Transfer
  get : Transfer
  put_nbi : Transfer
  get_nbi : Transfer
  put_wg : Transfer
  get_wg : Transfer
  put_nbi_wg : Transfer
  get_nbi_wg : Transfer
  put_wave : Transfer
  get_wave : Transfer
  put_nbi_wave : Transfer
  get_nbi_wave : Transfer

unfoldable pub transfer : Transfer → Context → ℕ → ℕ → ℕ → ℤ → Outcome
transfer put = putmem
transfer get = getmem
transfer put_nbi = putmem_nbi
transfer get_nbi = getmem_nbi
transfer put_wg = putmem_wg
transfer get_wg = getmem_wg
transfer put_nbi_wg = putmem_nbi_wg
transfer get_nbi_wg = getmem_nbi_wg
transfer put_wave = putmem_wave
transfer get_wave = getmem_wave
transfer put_nbi_wave = putmem_nbi_wave
transfer get_nbi_wave = getmem_nbi_wave
