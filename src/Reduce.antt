-- ===== src/Reduce.antt =====
-- library/src/gpu_ib/gpu_ib_gpu_templates.hpp: the choice that `to_all` makes among its algorithms,
-- with the sizes.
pub mod Plan
mod Tests
use roc_shmem.Common.{
  ℕ, zero, suc, ◌+◌, ◌-◌, ◌*◌, ◌/◌, ◌%◌, ◌^◌, Bool, if◌then◌else◌, ◌&&◌, ltb, leb, ◌==◌, update,
}

-- `max` of the sizes.
unfoldable pub max : ℕ → ℕ → ℕ
max dst src = if ltb dst src then src else dst

-- `ROC_SHMEM_REDUCE_MIN_WRKDATA_SIZE` and `ROC_SHMEM_REDUCE_SYNC_SIZE`.
abbrev pub reduce_min_wrkdata_size : ℕ
reduce_min_wrkdata_size = 1024

abbrev pub reduce_sync_size : ℕ
reduce_sync_size = 256

-- What `to_all` does: the direct reduction, the one over a ring with these sizes, or nothing.
pub data Choice : Type 0 where
  direct : Choice
  ring : ℕ → ℕ → ℕ → Choice
  unsupported : Choice

-- An `int` product, kept in 32 bits, as a `size_t`.
abbrev pub int_size : ℕ → ℕ
int_size n = let low = n % 2 ^ 32 in if ltb low (2 ^ 31) then low else 2 ^ 64 - 2 ^ 32 + low

-- The sizes of the segments and the chunks of the ring.
unfoldable pub ring_sizes : ℕ → ℕ → ℕ → Choice
unfolding max
ring_sizes num_pes nreduce provided_pwrk =
    let full = int_size (1024 * num_pes) in
    let small = max (nreduce / 2) reduce_min_wrkdata_size in
    let ring_pwrk = if ltb provided_pwrk full then small else full in
    let chunk_size = if ltb provided_pwrk full then small / num_pes else 1024 in
    let n_seg = nreduce / ring_pwrk in
    if n_seg == 0 then ring 1 nreduce (nreduce / num_pes) else ring n_seg ring_pwrk chunk_size

unfoldable pub to_all : ℕ → ℕ → Choice
unfolding max ring_sizes
to_all num_pes nreduce =
    let direct_pwrk = int_size (num_pes * nreduce) in
    let direct_psync = num_pes in
    let ring_psync = int_size (2 * num_pes) in
    let provided_pwrk = max (nreduce / 2 + 1) reduce_min_wrkdata_size in
    let provided_psync = reduce_sync_size in
    if leb direct_pwrk provided_pwrk && leb direct_psync provided_psync
    then direct
    else if leb ring_psync reduce_sync_size
    then ring_sizes num_pes nreduce provided_pwrk
    else unsupported
