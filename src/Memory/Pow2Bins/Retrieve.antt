-- ===== src/Memory/Pow2Bins/Retrieve.antt =====
-- library/src/memory/pow2_bins.hpp: a record taken out of the bin under an iterator.
use roc_shmem.Common.{
  ℕ, zero, suc, ◌+◌, ◌*◌, ◌%◌, ◌<◌, ◌≡◌, refl, ap, ◌⊎◌, inl, inr, true, false, List, [], ◌∷◌, ◌++◌,
  Option, none, some, arith, length, take, drop, Returns, Returns-bind, ◌>>=◌,
}
use roc_shmem.Memory.AddressRecord.{AddressRecord, invalid}
use roc_shmem.Memory.Binner.{Entry, alignment}
use roc_shmem.Memory.Pow2Bins.{try_to_ensure_bin_has_records, take_record, retrieve_record_from_bin}
use roc_shmem.Memory.Pow2Bins.Invariant.{RecordOk, BinsOk, Additive, total_bins, available}
use roc_shmem.Memory.Pow2Bins.Split.{Ensured, try_to_ensure_bin_has_records-Ensured}

-- The size of the bin at a position, `k` the first.
abbrev pub size_at : ℕ → ℕ → ℕ
size_at k zero = k
size_at k (suc it) = size_at (2 * k) it

-- A record of size `s` out of the bins, or the invalid record where `from` has no record.
abbrev pub Found : ℕ → List Entry → List Entry → AddressRecord × List Entry → Type 0
Found s from before (r, after) =
    ((available from ≡ true)
      × RecordOk s r
      × ((w : AddressRecord → ℕ) → Additive w → total_bins w after + w r ≡ total_bins w before))
    ⊎ ((available from ≡ false) × (r ≡ invalid) × (after ≡ before))

abbrev pub Retrieved : ℕ → ℕ → List Entry → List Entry → AddressRecord × List Entry → Type 0
Retrieved s k from before (r, after) =
    BinsOk k after × (length after ≡ length before) × Found s from before (r, after)

take_record-Retrieved :
    (k : ℕ) (before after : List Entry)
    → Ensured k before after
    → Returns (λ _. Unit {0}) (take_record after)
    → Returns (Retrieved k k before before) (take_record after)
unfolding take_record
take_record-Retrieved k before [] h ret = absurd ret
take_record-Retrieved k before ((j, []) ∷ bins) h ret = elim h.outcome [
  | inl o ↦ absurd o.1
  | inr o ↦ (h.bins_ok, h.same_length, inr (o.0, refl, o.1))
]
take_record-Retrieved k before ((j, r ∷ rs) ∷ bins) h ret = (
  (h.bins_ok.0, h.bins_ok.1.1, h.bins_ok.2),
  h.same_length,
  elim h.outcome [
    | inl o ↦ inl (o.0, h.bins_ok.1.0, λ w add. omega (arith, h.same_total w add))
    | inr o ↦ cc (o.0, ap available o.1)
  ],
)

take_record-returns :
    (after : List Entry) → 0 < length after → Returns (λ _. Unit {0}) (take_record after)
unfolding take_record
take_record-returns [] h = elim h [ ]
take_record-returns ((j, []) ∷ bins) h = tt
take_record-returns ((j, r ∷ rs) ∷ bins) h = tt

Retrieved-cons :
    (s k : ℕ) (e : Entry) (from bins : List Entry) (r : AddressRecord) (es : List Entry)
    → BinsOk k (e ∷ bins)
    → Retrieved s (2 * k) from bins (r, es)
    → Retrieved s k from (e ∷ bins) (r, e ∷ es)
Retrieved-cons s k e from bins r es ok rest = (
  (ok.0, ok.1, rest.0),
  ap suc rest.1,
  elim rest.2 [
    | inl f ↦ inl (f.0, f.1, λ w add. omega (arith, f.2 w add))
    | inr f ↦ inr (f.0, f.1, ap (λ bs. e ∷ bs) f.2)
  ],
)

-- The entries before the iterator stay as they are.
Retrieved-take :
    (s k it : ℕ) (bins : List Entry) (r : AddressRecord) (es : List Entry)
    → BinsOk k bins
    → it < length bins
    → Retrieved s (size_at k it) (drop it bins) (drop it bins) (r, es)
    → Retrieved s k (drop it bins) bins (r, take it bins ++ es)
Retrieved-take s k it [] r es ok lt h = elim lt [ ]
Retrieved-take s k zero (e ∷ bins) r es ok lt h = h
Retrieved-take s k (suc it) (e ∷ bins) r es ok lt h =
    Retrieved-cons s k e (drop it bins) bins r (take it bins ++ es) ok
      (Retrieved-take s (2 * k) it bins r es ok.2 (omega arith) h)

BinsOk-drop : (k it : ℕ) (bins : List Entry) → BinsOk k bins → BinsOk (size_at k it) (drop it bins)
BinsOk-drop k zero bins ok = ok
BinsOk-drop k (suc it) [] ok = tt
BinsOk-drop k (suc it) (e ∷ bins) ok = BinsOk-drop (2 * k) it bins ok.2

pub size_at_facts :
    (k it : ℕ) → 0 < k → k % alignment ≡ 0 → (0 < size_at k it) × (size_at k it % alignment ≡ 0)
size_at_facts k zero pos al = (pos, al)
size_at_facts k (suc it) pos al = size_at_facts (2 * k) it (omega arith) (omega arith)

from_suffix :
    (k : ℕ) (entries : List Entry)
    → 0 < k
    → k % alignment ≡ 0
    → BinsOk k entries
    → 0 < length entries
    → Returns
        (Retrieved k k entries entries)
        (try_to_ensure_bin_has_records entries >>= take_record)
from_suffix k [] pos al ok lt = elim lt [ ]
from_suffix k (e ∷ bins) pos al ok lt =
    Returns-bind (Ensured k (e ∷ bins)) _ (try_to_ensure_bin_has_records (e ∷ bins)) take_record
      (try_to_ensure_bin_has_records-Ensured k e bins pos al ok)
      λ after h.
        take_record-Retrieved k _ after h (take_record-returns after (omega (arith, h.same_length)))

length-drop-pos : (it : ℕ) (bins : List Entry) → it < length bins → 0 < length (drop it bins)
length-drop-pos it [] lt = elim lt [ ]
length-drop-pos zero (e ∷ bins) lt = omega arith
length-drop-pos (suc it) (e ∷ bins) lt = length-drop-pos it bins (omega arith)

-- Retrieval returns. It takes one record of the iterator's size out of what the bins hold, or no
-- bin from the iterator on has a record and nothing changes.
pub retrieve_record_from_bin-Retrieved :
    (k it : ℕ) (bins : List Entry)
    → 0 < k
    → k % alignment ≡ 0
    → BinsOk k bins
    → it < length bins
    → Returns (Retrieved (size_at k it) k (drop it bins) bins) (retrieve_record_from_bin it bins)
unfolding retrieve_record_from_bin
retrieve_record_from_bin-Retrieved k it bins pos al ok lt =
    rejoin (try_to_ensure_bin_has_records (drop it bins)) (
      from_suffix (size_at k it) (drop it bins) facts.0 facts.1 (BinsOk-drop k it bins ok)
        (length-drop-pos it bins lt))
  where
    facts : (0 < size_at k it) × (size_at k it % alignment ≡ 0)
    facts = size_at_facts k it pos al

    rejoin :
        (m : Option (List Entry))
        → Returns
            (Retrieved (size_at k it) (size_at k it) (drop it bins) (drop it bins))
            (m >>= take_record)
        → Returns
            (Retrieved (size_at k it) k (drop it bins) bins)
            (m >>= λ ready. take_record ready >>= λ found. some (found.0, take it bins ++ found.1))
    rejoin none h = elim h [ ]
    rejoin (some ready) h =
        Returns-bind _ _ (take_record ready) _ h
          λ found f. Retrieved-take (size_at k it) k it bins found.0 found.1 ok lt f
