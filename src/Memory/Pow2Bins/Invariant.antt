-- ===== src/Memory/Pow2Bins/Invariant.antt =====
-- library/src/memory/pow2_bins.hpp: what holds of the bins and of the proffered records.
use roc_shmem.Common.{
  ℕ, zero, suc, ◌+◌, ◌*◌, ◌%◌, ◌≤◌, ◌<◌, ◌≡◌, ◌⊎◌, Bool, true, false, List, [], ◌∷◌, ltb, leb,
  if◌then◌else◌, ◌&&◌, length, All,
}
use roc_shmem.Memory.AddressRecord.{AddressRecord, word_mod}
use roc_shmem.Memory.Bin.{Bin}
use roc_shmem.Memory.Binner.{Entry, alignment}
use roc_shmem.Memory.Pow2Bins.{Pow2Bins, Proffered}

-- A record of a bin of size `k`.
pub record RecordOk (k : ℕ) (r : AddressRecord) : Type 0 where
  pub sized : r.size ≡ k
  pub aligned : r.address % alignment ≡ 0
  pub nonnull : 0 < r.address
  pub fits : r.address + r.size < word_mod

-- The sizes double from entry to entry, `k` the first.
abbrev pub BinsOk : ℕ → List Entry → Type 0
BinsOk k [] = Unit
BinsOk k ((j, bin) ∷ bins) = (j ≡ k) × All (RecordOk k) bin × BinsOk (2 * k) bins

-- One of the sizes of `n` bins, `k` the first.
abbrev pub IsBinSize : ℕ → ℕ → ℕ → Type 0
IsBinSize s k zero = ⊥
IsBinSize s k (suc n) = (s ≡ k) ⊎ IsBinSize s (2 * k) n

pub record ProfferedOk (n : ℕ) (e : Proffered) : Type 0 where
  pub keyed : e.0 ≡ (e.1).address
  pub sound : RecordOk (e.1).size e.1
  pub binned : IsBinSize (e.1).size alignment n

-- A quantity that the halves of a record share out.
abbrev pub Additive : (AddressRecord → ℕ) → Type 0
Additive w =
    (a n : ℕ)
    → w (record { address = a; size = n + n })
      ≡ w (record { address = a; size = n }) + w (record { address = a + n; size = n })

module _ (w : AddressRecord → ℕ) where
  abbrev pub total_bin : Bin AddressRecord → ℕ
  total_bin [] = 0
  total_bin (r ∷ rs) = w r + total_bin rs

  abbrev pub total_bins : List Entry → ℕ
  total_bins [] = 0
  total_bins (e ∷ es) = total_bin e.1 + total_bins es

  abbrev pub total_proffered : List Proffered → ℕ
  total_proffered [] = 0
  total_proffered (e ∷ es) = w e.1 + total_proffered es

  abbrev pub total : Pow2Bins → ℕ
  total p = total_bins p.bins + total_proffered p.proffered

-- 1 if the byte at `x` lies in the record.
abbrev pub covers : ℕ → AddressRecord → ℕ
covers x r = if leb r.address x && ltb x (r.address + r.size) then 1 else 0

-- How many records, free or proffered, hold the byte at `x`.
abbrev pub cover : Pow2Bins → ℕ → ℕ
cover p x = total (covers x) p

pub record Inv (p : Pow2Bins) : Type 0 where
  pub bins_ok : BinsOk alignment p.bins
  pub proffered_ok : All (ProfferedOk (length p.bins)) p.proffered
  pub disjoint : (x : ℕ) → cover p x ≤ 1

-- Some bin has a record.
abbrev pub available : List Entry → Bool
available [] = false
available ((_, []) ∷ bins) = available bins
available ((_, r ∷ rs) ∷ bins) = true

abbrev pub HeadFull : List Entry → Type 0
HeadFull [] = ⊥
HeadFull ((_, []) ∷ bins) = ⊥
HeadFull ((_, r ∷ rs) ∷ bins) = Unit
