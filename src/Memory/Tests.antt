-- ===== src/Memory/Tests.antt =====
-- library/src/memory: runs of the allocator on a heap of 1000 bytes at address 1000.
use roc_shmem.Common.{
  ℕ, ◌+◌, ◌≤◌, ◌<◌, ◌≡◌, refl, ◌⊎◌, [], ◌∷◌, arith, none, some, Returns, Returns_at, suc, ◌%◌, ◌^◌,
}
use roc_shmem.Memory.AddressRecord.{AddressRecord, split, combine}
use roc_shmem.Memory.Binner.{
  find_first_set_one, clz_fn, make_binner, insert_bin, pow2_sizes, insert_empty_bins,
  ignore_unaligned_heap_memory, assign_heap_to_bins, assign_heap_memory_to_bins, assign_loop,
  assign_heap_chunk,
}
use roc_shmem.Memory.Pow2Bins.{
  Pow2Bins, make_pow2_bins, alloc, free, do_request_using, lower_bound, amount_proffered,
}
use roc_shmem.Memory.AddressRecord.Laws.{combine-split}
use roc_shmem.Memory.Binner.Bits.{find_first_set_one_bounds}
use roc_shmem.Memory.Pow2Bins.Invariant.{Inv, covers, total_bins, total_proffered}
use roc_shmem.Memory.Pow2Bins.Alloc.{Allocated, alloc-Allocated, alloc-lower_bound}
use roc_shmem.Memory.Pow2Bins.Free.{Released, free-Released}
use roc_shmem.Memory.Pow2Bins.Construct.{Constructed, make_pow2_bins-Constructed}
use roc_shmem.Memory.Pow2Bins.History.{Reach, built, next, allocates}
use roc_shmem.Memory.Pow2Bins.Safety.{
  free_twice, alloc_then_free, live_disjoint, live_within, amount_proffered_bounded,
}

abbrev rec : ℕ → ℕ → AddressRecord
rec a n = record { address = a; size = n }

-- 24 bytes before the first aligned address and 80 at the end are in no record.
abbrev small_heap : Pow2Bins
small_heap = record {
  bins = (128, rec 1792 128 ∷ []) ∷ (256, rec 1536 256 ∷ []) ∷ (512, rec 1024 512 ∷ []) ∷ [];
  proffered = [];
}

small_heap_built : make_pow2_bins 1000 1000 ≡ some small_heap
unfolding make_pow2_bins make_binner find_first_set_one clz_fn insert_empty_bins insert_bin
    pow2_sizes assign_heap_to_bins assign_heap_memory_to_bins ignore_unaligned_heap_memory
    assign_loop assign_heap_chunk
small_heap_built = refl

-- 100 bytes take the only record of 128.
abbrev one_block : Pow2Bins
one_block = record {
  bins = (128, []) ∷ (256, rec 1536 256 ∷ []) ∷ (512, rec 1024 512 ∷ []) ∷ [];
  proffered = (1792, rec 1792 128) ∷ [];
}

one_block_granted : alloc 100 small_heap ≡ some (1792, one_block)
unfolding alloc
one_block_granted = refl

-- 128 bytes more split the record of 256.
abbrev two_blocks : Pow2Bins
two_blocks = record {
  bins = (128, rec 1664 128 ∷ []) ∷ (256, []) ∷ (512, rec 1024 512 ∷ []) ∷ [];
  proffered = (1792, rec 1792 128) ∷ (1536, rec 1536 128) ∷ [];
}

two_blocks_granted : alloc 128 one_block ≡ some (1536, two_blocks)
unfolding alloc
two_blocks_granted = refl

small_heap-Constructed : Constructed 1000 1000 small_heap
small_heap-Constructed =
    Returns_at (Constructed 1000 1000) small_heap_built
      (make_pow2_bins-Constructed 1000 1000 (omega arith) (omega arith) (omega arith))

one_block-Allocated : Allocated 100 small_heap (1792, one_block)
one_block-Allocated =
    Returns_at (Allocated 100 small_heap) one_block_granted
      (alloc-Allocated small_heap small_heap-Constructed.inv 100 (omega arith))

two_blocks_reached : Reach 1000 1000 two_blocks
two_blocks_reached =
    next (next (built small_heap_built) (allocates 100 1792 one_block_granted))
      (allocates 128 1536 two_blocks_granted)

two_blocks-Inv : Inv two_blocks
two_blocks-Inv =
    (Returns_at (Allocated 128 one_block) two_blocks_granted
      (alloc-Allocated one_block one_block-Allocated.inv 128 (omega arith))).inv

-- One block after the other was freed.
abbrev last_block : Pow2Bins
last_block = record {
  bins = (128, rec 1792 128 ∷ rec 1664 128 ∷ []) ∷ (256, []) ∷ (512, rec 1024 512 ∷ []) ∷ [];
  proffered = (1536, rec 1536 128) ∷ [];
}

block_freed : free 1792 two_blocks ≡ some last_block
unfolding free
block_freed = refl

halves_combine :
    Returns
      (λ h. (combine h.0 h.1 ≡ some (rec 1536 256)) × (combine h.1 h.0 ≡ some (rec 1536 256)))
      (split (rec 1536 256))
halves_combine = combine-split (rec 1536 256) (omega arith) (omega arith) refl (omega arith)

find_first_set_one_1000 :
    (find_first_set_one 64 1000 < 64)
    × (2 ^ find_first_set_one 64 1000 ≤ 1000)
    × (1000 < 2 ^ suc (find_first_set_one 64 1000))
find_first_set_one_1000 = find_first_set_one_bounds 64 1000 (omega arith) (omega arith)

make_pow2_bins-Constructed_example : Returns (Constructed 1000 1000) (make_pow2_bins 1000 1000)
make_pow2_bins-Constructed_example =
    make_pow2_bins-Constructed 1000 1000 (omega arith) (omega arith) (omega arith)

alloc_100_lower_bound :
    alloc 100 small_heap ≡ do_request_using (lower_bound 100 small_heap.bins) small_heap
alloc_100_lower_bound = alloc-lower_bound small_heap small_heap-Constructed.inv 100 (omega arith)

alloc-Allocated_example : Returns (Allocated 128 one_block) (alloc 128 one_block)
alloc-Allocated_example = alloc-Allocated one_block one_block-Allocated.inv 128 (omega arith)

free-Released_example :
    Returns
      (Released two_blocks [] ((1536, rec 1536 128) ∷ []) (rec 1792 128))
      (free 1792 two_blocks)
free-Released_example =
    free-Released two_blocks two_blocks-Inv 1792 (rec 1792 128) [] ((1536, rec 1536 128) ∷ []) refl

free_twice_example : free 1792 last_block ≡ none
free_twice_example = free_twice two_blocks last_block 1792 two_blocks-Inv block_freed

alloc_then_free_example :
    Returns
      (λ t.
        (t.proffered ≡ one_block.proffered)
        × ((x : ℕ) → total_bins (covers x) t.bins ≡ total_bins (covers x) one_block.bins))
      (free 1536 two_blocks)
alloc_then_free_example =
    alloc_then_free one_block two_blocks 128 1536 one_block-Allocated.inv (omega arith)
      two_blocks_granted (omega arith)

live_disjoint_example : (1792 + 128 ≤ 1536) ⊎ (1536 + 128 ≤ 1792)
live_disjoint_example =
    live_disjoint (omega arith) (omega arith) (omega arith) two_blocks_reached 1792 1536
      (rec 1792 128) (rec 1536 128) [] [] [] refl

live_within_example : (1792 % 128 ≡ 0) × (1000 ≤ 1792) × (1792 + 128 ≤ 1000 + 1000)
live_within_example =
    live_within (omega arith) (omega arith) (omega arith) two_blocks_reached 1792 (rec 1792 128) []
      ((1536, rec 1536 128) ∷ []) refl

small_heap_proffered :
    (amount_proffered two_blocks ≡ total_proffered (λ r. r.size) two_blocks.proffered)
    × (amount_proffered two_blocks ≤ 1000)
small_heap_proffered =
    amount_proffered_bounded (omega arith) (omega arith) (omega arith) two_blocks_reached
