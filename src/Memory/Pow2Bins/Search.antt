-- ===== src/Memory/Pow2Bins/Search.antt =====
-- library/src/memory/pow2_bins.hpp: `find` and `lower_bound` over sizes that double.
use roc_shmem.Common.{
  ℕ, zero, suc, ◌*◌, ◌≤◌, ◌<◌, ◌≡◌, refl, ◌⊎◌, inl, inr, List, [], ◌∷◌, arith, length, leb,
  Bool-cases,
}
use roc_shmem.Memory.Binner.{Entry}
use roc_shmem.Memory.Pow2Bins.{find_bin, lower_bound}
use roc_shmem.Memory.Pow2Bins.Invariant.{BinsOk, IsBinSize}
use roc_shmem.Memory.Pow2Bins.Retrieve.{size_at}

find_bin_above :
    (n k : ℕ) (bins : List Entry) → n < k → BinsOk k bins → find_bin n bins ≡ length bins
unfolding find_bin
find_bin_above n k [] lt ok = refl
find_bin_above n k ((j, b) ∷ bins) lt ok =
    ground (arith, find_bin_above n (2 * k) bins (omega arith) ok.2)

-- An exact match is the first entry that is large enough.
pub find_bin-lower_bound :
    (n k : ℕ) (bins : List Entry)
    → 0 < k
    → BinsOk k bins
    → (find_bin n bins ≡ length bins) ⊎ (find_bin n bins ≡ lower_bound n bins)
unfolding find_bin lower_bound
find_bin-lower_bound n k [] pos ok = inl refl
find_bin-lower_bound n k ((j, b) ∷ bins) pos ok =
    ground
      (arith, find_bin-lower_bound n (2 * k) bins (omega arith) ok.2, find_bin_above n (2 * k) bins)

pub lower_bound-le : (n : ℕ) (bins : List Entry) → lower_bound n bins ≤ length bins
unfolding lower_bound
lower_bound-le n [] = omega arith
lower_bound-le n ((j, b) ∷ bins) = ground (arith, lower_bound-le n bins)

-- The entry is large enough.
pub lower_bound-fits :
    (n k : ℕ) (bins : List Entry)
    → BinsOk k bins
    → lower_bound n bins < length bins
    → n ≤ size_at k (lower_bound n bins)
unfolding lower_bound
lower_bound-fits n k [] ok lt = elim lt [ ]
lower_bound-fits n k ((j, b) ∷ bins) ok lt = elim (Bool-cases (leb n j)) [
  | inl le ↦ rw le (ground arith)
  | inr gt ↦ rw gt (lower_bound-fits n (2 * k) bins ok.2 (ground arith))
]

-- No smaller bin is.
pub lower_bound_least :
    (n k i : ℕ) (bins : List Entry) → BinsOk k bins → i < lower_bound n bins → size_at k i < n
unfolding lower_bound
lower_bound_least n k i [] ok lt = elim lt [ ]
lower_bound_least n k zero ((j, b) ∷ bins) ok lt = ground arith
lower_bound_least n k (suc i) ((j, b) ∷ bins) ok lt =
    lower_bound_least n (2 * k) i bins ok.2 (ground arith)

pub IsBinSize-size_at : (k n it : ℕ) → it < n → IsBinSize (size_at k it) k n
IsBinSize-size_at k zero it lt = elim lt [ ]
IsBinSize-size_at k (suc n) zero lt = inl refl
IsBinSize-size_at k (suc n) (suc it) lt = inr (IsBinSize-size_at (2 * k) n it (omega arith))

pub IsBinSize-pos : (s k n : ℕ) → 0 < k → IsBinSize s k n → 0 < s
IsBinSize-pos s k zero pos h = elim h [ ]
IsBinSize-pos s k (suc n) pos (inl e) = omega arith
IsBinSize-pos s k (suc n) pos (inr h) = IsBinSize-pos s (2 * k) n (omega arith) h
