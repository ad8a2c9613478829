-- ===== src/Memory/Pow2Bins.antt =====
-- library/src/memory/pow2_bins.hpp: the allocator over bins of power-of-two sizes.
pub mod Invariant
pub mod Split
pub mod Retrieve
pub mod Search
pub mod Request
pub mod Alloc
pub mod Free
pub mod Empty
pub mod Fill
pub mod Construct
pub mod History
pub mod Safety
use roc_shmem.Common.{
  ℕ, zero, suc, ◌+◌, ◌-◌, ◌/◌, ◌%◌, ◌^◌, ◌≡◌, refl, Bool, true, false, not, List, [], ◌∷◌, ◌++◌,
  Option, none, some, ltb, leb, ◌==◌, if◌then◌else◌, assert, ◌>>=◌, ◌>>◌, take, drop, length,
}
use roc_shmem.Memory.AddressRecord.{AddressRecord, word_mod, invalid, split}
use roc_shmem.Memory.Bin
use roc_shmem.Memory.Bin.{Bin}
use roc_shmem.Memory.Binner.{Entry, Binner, make_binner, assign_heap_to_bins}

-- An entry of `std::map<char *, AddressRecord>`.
abbrev pub Proffered : Type 0
Proffered = ℕ × AddressRecord

pub record Pow2Bins : Type 0 where
  pub bins : List Entry
  pub proffered : List Proffered

-- An iterator is the position of its entry; the end is the length of the map.
unfoldable pub find_bin : ℕ → List Entry → ℕ
find_bin k [] = 0
find_bin k ((j, _) ∷ bins) = let rest = find_bin k bins in if j == k then 0 else suc rest

unfoldable pub lower_bound : ℕ → List Entry → ℕ
lower_bound k [] = 0
lower_bound k ((j, _) ∷ bins) = let rest = lower_bound k bins in if leb k j then 0 else suc rest

-- `record.split()` into the bin before the one that the record comes from.
unfoldable pub split_into : ℕ → Bin AddressRecord → List Entry → Option (List Entry)
unfolding Bin.empty Bin.get Bin.put split
split_into k bin [] = none
split_into k bin ((j, next_bin) ∷ bins) =
    if Bin.empty next_bin then some ((k, bin) ∷ (j, next_bin) ∷ bins) else do
      (rec, next_rest) ← Bin.get next_bin
      (smaller, larger) ← split rec
      some ((k, Bin.put smaller (Bin.put larger bin)) ∷ (j, next_rest) ∷ bins)

-- The argument is the map from the iterator on, which is all that the call reads or writes.
unfoldable pub split_larger_bin : List Entry → Option (List Entry)
unfolding split_into
split_larger_bin [] = none
split_larger_bin (it ∷ []) = some (it ∷ [])
split_larger_bin ((k, bin) ∷ (j, next_bin) ∷ bins) =
    let deeper = split_larger_bin ((j, next_bin) ∷ bins) in
    (if Bin.empty next_bin then deeper else some ((j, next_bin) ∷ bins)) >>= split_into k bin

unfoldable pub try_to_ensure_bin_has_records : List Entry → Option (List Entry)
unfolding split_larger_bin
try_to_ensure_bin_has_records [] = none
try_to_ensure_bin_has_records ((k, bin) ∷ bins) =
    if Bin.empty bin then split_larger_bin ((k, bin) ∷ bins) else some ((k, bin) ∷ bins)

-- `bin.get()`, or the invalid record of an empty bin.
unfoldable pub take_record : List Entry → Option (AddressRecord × List Entry)
unfolding Bin.empty Bin.get
take_record [] = none
take_record ((k, bin) ∷ bins) =
    if Bin.empty bin
    then some (invalid, (k, bin) ∷ bins)
    else do (rec, rest) ← Bin.get bin; some (rec, (k, rest) ∷ bins)

unfoldable pub retrieve_record_from_bin : ℕ → List Entry → Option (AddressRecord × List Entry)
unfolding try_to_ensure_bin_has_records take_record
retrieve_record_from_bin it bins = do
  ready ← try_to_ensure_bin_has_records (drop it bins)
  (rec, entries) ← take_record ready
  some (rec, take it bins ++ entries)

-- `proffered_[k] = r`.
unfoldable pub assign_proffered : ℕ → AddressRecord → List Proffered → List Proffered
assign_proffered k r [] = (k, r) ∷ []
assign_proffered k r ((j, q) ∷ m) =
    let rest = assign_proffered k r m in if j == k then (k, r) ∷ m else (j, q) ∷ rest

unfoldable pub emplace_in_proffered : AddressRecord → List Proffered → Option (List Proffered)
unfolding assign_proffered
emplace_in_proffered r m = do assert (not (r.address == 0)); some (assign_proffered r.address r m)

-- The pointer that the request writes, with the new state; `it` may be the end.
unfoldable pub do_request_using : ℕ → Pow2Bins → Option (ℕ × Pow2Bins)
unfolding retrieve_record_from_bin emplace_in_proffered
do_request_using it p = if it == length p.bins then some (0, p) else do
  (rec, bins) ← retrieve_record_from_bin it p.bins
  proffered ← if rec.address == 0 then some p.proffered else emplace_in_proffered rec p.proffered
  some (rec.address, record { bins = bins; proffered = proffered })

unfoldable pub alloc : ℕ → Pow2Bins → Option (ℕ × Pow2Bins)
unfolding do_request_using find_bin lower_bound
alloc request_size p = if request_size == 0 then some (0, p) else do
  (ptr, q) ← do_request_using (find_bin request_size p.bins) p
  if ptr == 0 then do_request_using (lower_bound request_size q.bins) q else some (ptr, q)

-- The record under the pointer, with the entry erased.
unfoldable pub find_erase : ℕ → List Proffered → Option (AddressRecord × List Proffered)
find_erase ptr [] = none
find_erase ptr ((j, r) ∷ m) =
    let rest = find_erase ptr m in
    if j == ptr then some (r, m) else (rest >>= λ found. some (found.0, (j, r) ∷ found.1))

unfoldable pub retrieve_from_proffered :
    ℕ → List Proffered → Option (AddressRecord × List Proffered)
unfolding find_erase
retrieve_from_proffered ptr m = do assert (not (ptr == 0)); find_erase ptr m

unfoldable pub emplace_record_in_bin : AddressRecord → List Entry → Option (List Entry)
unfolding Bin.put
emplace_record_in_bin r [] = none
emplace_record_in_bin r ((k, bin) ∷ bins) =
    let rest = emplace_record_in_bin r bins in
    if k == r.size
    then some ((k, Bin.put r bin) ∷ bins)
    else (rest >>= λ bins'. some ((k, bin) ∷ bins'))

unfoldable pub free : ℕ → Pow2Bins → Option Pow2Bins
unfolding retrieve_from_proffered emplace_record_in_bin
free ptr p = do
  (rec, proffered) ← retrieve_from_proffered ptr p.proffered
  bins ← emplace_record_in_bin rec p.bins
  some (record { bins = bins; proffered = proffered })

-- The sum is of type `size_t`.
unfoldable pub sum_sizes : ℕ → List Proffered → ℕ
sum_sizes size [] = size
sum_sizes size ((_, r) ∷ m) = sum_sizes ((size + r.size) % word_mod) m

unfoldable pub amount_proffered : Pow2Bins → ℕ
unfolding sum_sizes
amount_proffered p = sum_sizes 0 p.proffered

-- The constructor, over the memory of the heap.
unfoldable pub make_pow2_bins : ℕ → ℕ → Option Pow2Bins
make_pow2_bins heap_ptr heap_size = do
  b ← make_binner [] heap_ptr heap_size
  bins ← assign_heap_to_bins b
  some (record { bins = bins; proffered = [] })
