-- ===== src/Memory/Binner.antt =====
-- library/src/memory/binner.hpp: the builder of the bins of a `Pow2Bins`.
pub mod Bits
use roc_shmem.Common.{
  ℕ, zero, suc, ◌+◌, ◌-◌, ◌/◌, ◌%◌, ◌^◌, Bool, true, false, not, List, [], ◌∷◌, Option, none, some,
  ltb, leb, ◌==◌, if◌then◌else◌, assert, ◌>>=◌, ◌>>◌,
}
use roc_shmem.Memory.AddressRecord.{AddressRecord, word_mod, invalid}
use roc_shmem.Memory.Bin
use roc_shmem.Memory.Bin.{Bin}

-- `ALIGNMENT` of library/src/constants.hpp.
abbrev pub alignment : ℕ
alignment = 128

abbrev pub uint_max : ℕ
uint_max = 2 ^ 32 - 1

-- The compiler's count of leading zeroes, for a value of `width` bits.
unfoldable pub clz_fn : ℕ → ℕ → ℕ
clz_fn zero v = 0
clz_fn (suc width) v = let rest = clz_fn width v in if leb (2 ^ width) v then 0 else suc rest

-- `width` is `sizeof(T) * CHAR_BIT`.
unfoldable pub find_first_set_one : ℕ → ℕ → ℕ
find_first_set_one width v =
    if v == 0
    then uint_max
    else let num_leading_zeroes = clz_fn width v in
      let last_zero_bit_position = width - num_leading_zeroes in last_zero_bit_position - 1

-- An entry of `std::map<size_t, Bin>`; a map is its entries in ascending order of the keys.
abbrev pub Entry : Type 0
Entry = ℕ × Bin AddressRecord

-- `std::map::insert`: an entry under the same key stays.
unfoldable pub insert_bin : ℕ → Bin AddressRecord → List Entry → List Entry
insert_bin k b [] = (k, b) ∷ []
insert_bin k b ((j, c) ∷ bins) =
    let rest = insert_bin k b bins in
    if ltb k j then (k, b) ∷ (j, c) ∷ bins else if k == j then (j, c) ∷ bins else (j, c) ∷ rest

-- The sizes that `std::generate` writes: `n` powers of two from `2 ^ position` on.
unfoldable pub pow2_sizes : ℕ → ℕ → List ℕ
pow2_sizes zero position = []
pow2_sizes (suc n) position = 2 ^ position ∷ pow2_sizes n (suc position)

unfoldable pub insert_empty_bins : List ℕ → List Entry → List Entry
insert_empty_bins [] bins = bins
insert_empty_bins (x ∷ v) bins = insert_empty_bins v (insert_bin x [] bins)

pub record Binner : Type 0 where
  pub bins : List Entry
  pub heap : AddressRecord

-- The constructor, over the bins that it is handed.
unfoldable pub make_binner : List Entry → ℕ → ℕ → Option Binner
make_binner bins heap_ptr heap_size = do
  let bit_position_heap = find_first_set_one 64 heap_size
  assert (not (bit_position_heap == uint_max))
  let bit_position_align = find_first_set_one 32 alignment
  assert (not (bit_position_align == uint_max))
  assert (leb bit_position_align bit_position_heap)
  let vector_size = bit_position_heap - bit_position_align + 1
  let v = pow2_sizes vector_size bit_position_align
  let heap : AddressRecord = record { address = heap_ptr; size = heap_size }
  some (record { bins = insert_empty_bins v bins; heap = heap })

-- The subtraction of `size_t` wraps.
unfoldable pub ignore_unaligned_heap_memory : AddressRecord → AddressRecord
ignore_unaligned_heap_memory heap =
    let off_by_bytes = heap.address % alignment in
    if off_by_bytes == 0
    then heap
    else let required_offset = alignment - off_by_bytes in
      record {
        address = (heap.address + required_offset) % word_mod;
        size = (heap.size + word_mod - required_offset) % word_mod;
      }

-- The largest bin that the chunk fills gets a record. The walk of the reverse iterator goes from the
-- last entry down: an entry is tried when none behind it took the chunk.
unfoldable pub put_in_largest : AddressRecord → List Entry → Option (ℕ × List Entry)
unfolding Bin.put
put_in_largest chunk [] = none
put_in_largest chunk ((k, bin) ∷ bins) = elim (put_in_largest chunk bins) [
  | some (taken, bins') ↦ some (taken, (k, bin) ∷ bins')
  | none ↦
      if leb k chunk.size
      then some (k, (k, Bin.put (record { address = chunk.address; size = k }) bin) ∷ bins)
      else none
]

-- What is left of the chunk, with the bins.
unfoldable pub assign_heap_chunk : AddressRecord → List Entry → AddressRecord × List Entry
unfolding put_in_largest
assign_heap_chunk chunk bins = elim (put_in_largest chunk bins) [
  | none ↦ (invalid, bins)
  | some (taken, bins') ↦
      (record { address = (chunk.address + taken) % word_mod; size = chunk.size - taken }, bins')
]

-- The loop, on fuel: `none` means that the fuel ran out.
unfoldable pub assign_loop : ℕ → AddressRecord → List Entry → Option (List Entry)
assign_loop zero chunk bins = none
assign_loop (suc fuel) chunk bins = elim (chunk.address == 0) [
  | true ↦ some bins
  | false ↦ let step = assign_heap_chunk chunk bins in assign_loop fuel step.0 step.1
]

-- Each round but the last takes at least `alignment` bytes off the chunk.
unfoldable pub assign_heap_memory_to_bins : Binner → Option (List Entry)
assign_heap_memory_to_bins b = assign_loop (b.heap.size / alignment + 2) b.heap b.bins

unfoldable pub assign_heap_to_bins : Binner → Option (List Entry)
assign_heap_to_bins b = do
  assert (not (b.heap.address == 0))
  assert (not (b.heap.size == 0))
  assign_heap_memory_to_bins (record b { heap = ignore_unaligned_heap_memory b.heap })
