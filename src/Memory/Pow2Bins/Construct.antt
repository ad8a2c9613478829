-- ===== src/Memory/Pow2Bins/Construct.antt =====
-- library/src/memory/pow2_bins.hpp and binner.hpp: the constructor gives the bins the whole heap.
use native.Mathlib.Nat.{pow-le-pow_right}
use roc_shmem.Common.{
  ℕ, suc, ◌+◌, ◌-◌, ◌*◌, ◌/◌, ◌≤◌, ◌<◌, ◌≡◌, refl, List, [], arith, le→leb, unequal, some, Returns,
  Returns-bind,
}
use roc_shmem.Memory.AddressRecord.{AddressRecord, word_mod}
use roc_shmem.Memory.Binner.{
  Entry, alignment, uint_max, find_first_set_one, clz_fn, make_binner, ignore_unaligned_heap_memory,
  assign_heap_memory_to_bins, assign_heap_to_bins,
}
use roc_shmem.Memory.Binner.Bits.{find_first_set_one_bounds}
use roc_shmem.Memory.Pow2Bins.{Pow2Bins, make_pow2_bins}
use roc_shmem.Memory.Pow2Bins.Invariant.{Inv, total_bins, total, covers, cover}
use roc_shmem.Memory.Pow2Bins.Empty.{
  empty_bins, empty_bins-BinsOk, length-empty_bins, total-empty_bins, insert_empty_bins-append,
}
use roc_shmem.Memory.Pow2Bins.Fill.{
  region, Divisible, covers-Divisible, size-Divisible, ChunkOk, Filled, assign_loop-Filled,
}

align_position : find_first_set_one 32 alignment ≡ 7
unfolding find_first_set_one clz_fn
align_position = refl

-- A heap of `alignment` bytes or more has a highest bit no lower than that of `alignment`.
heap_position :
    (size : ℕ)
    → alignment ≤ size
    → size < word_mod
    → (7 ≤ find_first_set_one 64 size) × (find_first_set_one 64 size < 64)
heap_position size le lt =
    let b = find_first_set_one_bounds 64 size (omega arith) lt in
    let high : suc (find_first_set_one 64 size) ≤ 7 → ⊥ =
      λ h. omega (arith, pow-le-pow_right {n = 2} (omega arith) h, b.2) in
    (omega (arith, high), b.0)

make_binner_lem :
    (ptr size : ℕ)
    → alignment ≤ size
    → size < word_mod
    → make_binner [] ptr size
      ≡ some (record {
        bins = empty_bins alignment (find_first_set_one 64 size - 7 + 1);
        heap = region ptr size;
      })
unfolding make_binner
make_binner_lem ptr size le lt =
    let h = heap_position size le lt in
    rw (
      unequal (find_first_set_one 64 size) uint_max (omega (arith, h.1)),
      align_position,
      le→leb 7 (find_first_set_one 64 size) h.0,
      insert_empty_bins-append (find_first_set_one 64 size - 7 + 1) 7 [] tt,
    )

-- Where the records of a heap at `ptr` begin.
abbrev pub aligned_start : ℕ → ℕ
aligned_start ptr = (ptr + 127) / alignment * alignment

ignore_unaligned_heap_memory_lem :
    (ptr size : ℕ)
    → alignment ≤ size
    → ptr + size < word_mod
    → ignore_unaligned_heap_memory (region ptr size)
      ≡ region (aligned_start ptr) (ptr + size - aligned_start ptr)
unfolding ignore_unaligned_heap_memory
ignore_unaligned_heap_memory_lem ptr size le fits = ground arith

-- What is asked of the constructor on `size` bytes at `ptr`: nothing is proffered, and the records
-- of the bins hold each byte once from the first aligned address on, up to fewer than `alignment`
-- bytes before the end, and no other byte.
pub record Constructed (ptr size : ℕ) (p : Pow2Bins) : Type 0 where
  pub inv : Inv p
  pub none_proffered : p.proffered ≡ []
  pub left : ℕ
  pub small : left < alignment
  pub tiled :
      (x : ℕ)
      → cover p x ≡ covers x (region (aligned_start ptr) (ptr + size - aligned_start ptr - left))
  pub bytes : total (λ r. r.size) p ≡ ptr + size - aligned_start ptr - left

start_ChunkOk :
    (ptr size : ℕ)
    → 0 < ptr
    → alignment ≤ size
    → ptr + size < word_mod
    → ChunkOk (region (aligned_start ptr) (ptr + size - aligned_start ptr))
start_ChunkOk ptr size pos le fits = record {
  aligned = omega arith;
  nonnull = omega arith;
  fits = omega arith;
}

module _ (ptr size n : ℕ) where
  Filled-total :
      (bins : List Entry) (w : AddressRecord → ℕ)
      → Divisible w
      → (f : Filled
          (region (aligned_start ptr) (ptr + size - aligned_start ptr))
          (empty_bins alignment n)
          bins)
      → total_bins w bins + 0
        ≡ w (region (aligned_start ptr) (ptr + size - aligned_start ptr - f.left))
  Filled-total bins w div f = omega (arith, f.put w div, total-empty_bins w alignment n)

  Filled-Constructed :
      (bins : List Entry)
      → Filled
          (region (aligned_start ptr) (ptr + size - aligned_start ptr))
          (empty_bins alignment n)
          bins
      → Constructed ptr size (record { bins = bins; proffered = [] })
  Filled-Constructed bins f = record {
    inv = record {
      bins_ok = f.bins_ok;
      proffered_ok = tt;
      disjoint = λ x. ground (arith, Filled-total bins (covers x) (covers-Divisible x) f);
    };
    none_proffered = refl;
    left = f.left;
    small = f.small;
    tiled = λ x. Filled-total bins (covers x) (covers-Divisible x) f;
    bytes = Filled-total bins (λ r. r.size) size-Divisible f;
  }

assign_heap_to_bins-Filled :
    (ptr size n : ℕ)
    → 0 < ptr
    → alignment ≤ size
    → ptr + size < word_mod
    → 0 < n
    → Returns
        (Filled
          (region (aligned_start ptr) (ptr + size - aligned_start ptr))
          (empty_bins alignment n))
        (assign_heap_to_bins (record { bins = empty_bins alignment n; heap = region ptr size }))
unfolding assign_heap_to_bins assign_heap_memory_to_bins
assign_heap_to_bins-Filled ptr size n pos le fits some_bin =
    rw
      (
        unequal ptr 0 (omega arith),
        unequal size 0 (omega arith),
        ignore_unaligned_heap_memory_lem ptr size le fits,
      )
      (assign_loop-Filled _ _ (empty_bins alignment n) (omega arith)
        (start_ChunkOk ptr size pos le fits) (empty_bins-BinsOk alignment n)
        (omega (arith, length-empty_bins alignment n)))

-- On a heap of 128 bytes or more that does not begin at null and ends below 2^64 the constructor
-- returns a well-formed state: its loops end, no assertion fails, nothing is proffered, and the
-- bins hold once each byte from the first aligned address of the heap to less than 128 bytes
-- before its end, and no other byte.
pub make_pow2_bins-Constructed :
    (ptr size : ℕ)
    → 0 < ptr
    → alignment ≤ size
    → ptr + size < word_mod
    → Returns (Constructed ptr size) (make_pow2_bins ptr size)
unfolding make_pow2_bins
make_pow2_bins-Constructed ptr size pos le fits = rw (make_binner_lem ptr size le (omega arith)) (
    Returns-bind _ _ _ _
      (assign_heap_to_bins-Filled ptr size (find_first_set_one 64 size - 7 + 1) pos le fits
        (omega arith))
      (Filled-Constructed ptr size (find_first_set_one 64 size - 7 + 1)))
