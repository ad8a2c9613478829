-- ===== src/Memory/Pow2Bins/Split.antt =====
-- library/src/memory/pow2_bins.hpp: the search of a record in larger bins keeps all that the bins hold.
use roc_shmem.Common.{
  ℕ, ◌+◌, ◌*◌, ◌%◌, ◌<◌, ◌≡◌, refl, sym, subst, suc, ap, ◌∙◌, ◌≢◌, ◌⊎◌, inl, inr, true, false, List,
  [], ◌∷◌, some, arith, length, Returns, Returns-bind,
}
use roc_shmem.Memory.AddressRecord.{AddressRecord, split}
use roc_shmem.Memory.Bin
use roc_shmem.Memory.Binner.{Entry, alignment}
use roc_shmem.Memory.Pow2Bins.{split_into, split_larger_bin, try_to_ensure_bin_has_records}
use roc_shmem.Memory.Pow2Bins.Invariant.{
  RecordOk, BinsOk, Additive, total_bins, available, HeadFull,
}

-- The halves of a record of size `2 * k` are records of size `k`.
abbrev Halves : ℕ → AddressRecord → AddressRecord × AddressRecord → Type 0
Halves k r h =
    RecordOk k h.0 × RecordOk k h.1 × ((w : AddressRecord → ℕ) → Additive w → w r ≡ w h.0 + w h.1)

abbrev halves : ℕ → AddressRecord → AddressRecord × AddressRecord
halves k r =
    (record { address = r.address; size = k }, record { address = r.address + k; size = k })

split-halves :
    (k : ℕ) (r : AddressRecord) → 0 < k → RecordOk (2 * k) r → split r ≡ some (halves k r)
unfolding split
split-halves k r pos ok = ground arith

record-eta :
    (r : AddressRecord) (k : ℕ) → r.size ≡ 2 * k → r ≡ record { address = r.address; size = k + k }
record-eta r k e = ground arith

pub split-Halves :
    (k : ℕ) (r : AddressRecord)
    → 0 < k
    → k % alignment ≡ 0
    → RecordOk (2 * k) r
    → Returns (Halves k r) (split r)
split-Halves k r pos al ok = rw (split-halves k r pos ok) (
  record { sized = refl; aligned = ok.aligned; nonnull = ok.nonnull; fits = omega arith },
  record { sized = refl; aligned = omega arith; nonnull = omega arith; fits = omega arith },
  λ w add. ap w (record-eta r k ok.sized) ∙ add r.address k,
)

-- What a search of records leaves: as many bins, well formed, with the same total of whatever is
-- additive. The first bin has a record, or no bin had one and nothing changed.
pub record Ensured (k : ℕ) (before after : List Entry) : Type 0 where
  pub bins_ok : BinsOk k after
  pub same_length : length after ≡ length before
  pub same_total : (w : AddressRecord → ℕ) → Additive w → total_bins w after ≡ total_bins w before
  pub outcome :
      ((available before ≡ true) × HeadFull after) ⊎ ((available before ≡ false) × (after ≡ before))

Ensured-same :
    (k j : ℕ) (r : AddressRecord) (rs : Bin.Bin AddressRecord) (bins : List Entry)
    → BinsOk k ((j, r ∷ rs) ∷ bins)
    → Ensured k ((j, r ∷ rs) ∷ bins) ((j, r ∷ rs) ∷ bins)
Ensured-same k j r rs bins ok = record {
  bins_ok = ok;
  same_length = refl;
  same_total = λ w add. refl;
  outcome = inl (refl, tt);
}

-- One record of the next bin becomes two of an empty bin.
split_into-Ensured :
    (k : ℕ) (before after : List Entry)
    → 0 < k
    → k % alignment ≡ 0
    → before ≢ []
    → Ensured (2 * k) before after
    → Returns (Ensured k ((k, []) ∷ before)) (split_into k [] after)
unfolding split_into
split_into-Ensured k before [] pos al some_bin h = elim h.outcome [
  | inl o ↦ absurd o.1
  | inr o ↦ absurd (some_bin (sym o.1))
]
split_into-Ensured k before ((j, []) ∷ bins) pos al some_bin h = record {
  bins_ok = (refl, tt, h.bins_ok);
  same_length = ap suc h.same_length;
  same_total = λ w add. omega (arith, h.same_total w add);
  outcome = elim h.outcome [ inl o ↦ absurd o.1 | inr o ↦ inr (o.0, ap (λ e. (k, []) ∷ e) o.1) ];
}
split_into-Ensured k before ((j, r ∷ rs) ∷ bins) pos al some_bin h =
    Returns-bind (Halves k r) _ (split r) _ (split-Halves k r pos al h.bins_ok.1.0) λ halves hv.
      record {
        bins_ok = (refl, (hv.0, (hv.1, tt)), (h.bins_ok.0, h.bins_ok.1.1, h.bins_ok.2));
        same_length = ap suc h.same_length;
        same_total = λ w add. omega (arith, hv.2 w add, h.same_total w add);
        outcome = elim h.outcome [ inl o ↦ inl (o.0, tt) | inr o ↦ cc (o.0, ap available o.1) ];
      }

-- The recursion over larger and larger bins, from an empty one on.
split_larger_bin-Ensured :
    (k : ℕ) (bins : List Entry)
    → 0 < k
    → k % alignment ≡ 0
    → BinsOk (2 * k) bins
    → Returns (Ensured k ((k, []) ∷ bins)) (split_larger_bin ((k, []) ∷ bins))
unfolding split_larger_bin
split_larger_bin-Ensured k [] pos al ok = record {
  bins_ok = (refl, tt, tt);
  same_length = refl;
  same_total = λ w add. refl;
  outcome = inr (refl, refl);
}
split_larger_bin-Ensured k ((j, []) ∷ bins) pos al ok =
    subst
      (λ i.
        Returns (Ensured k ((k, []) ∷ (i, []) ∷ bins))
          (split_larger_bin ((k, []) ∷ (i, []) ∷ bins)))
      (sym ok.0)
      (Returns-bind (Ensured (2 * k) ((2 * k, []) ∷ bins)) _ (split_larger_bin ((2 * k, []) ∷ bins))
        _ (split_larger_bin-Ensured (2 * k) bins (omega arith) (omega arith) ok.2)
        λ after h. split_into-Ensured k ((2 * k, []) ∷ bins) after pos al (λ e. cc) h)
split_larger_bin-Ensured k ((j, r ∷ rs) ∷ bins) pos al ok =
    split_into-Ensured k ((j, r ∷ rs) ∷ bins) ((j, r ∷ rs) ∷ bins) pos al (λ e. cc)
      (Ensured-same (2 * k) j r rs bins ok)

-- Whatever bin the request starts from, the search returns and loses nothing.
pub try_to_ensure_bin_has_records-Ensured :
    (k : ℕ) (e : Entry) (bins : List Entry)
    → 0 < k
    → k % alignment ≡ 0
    → BinsOk k (e ∷ bins)
    → Returns (Ensured k (e ∷ bins)) (try_to_ensure_bin_has_records (e ∷ bins))
unfolding try_to_ensure_bin_has_records
try_to_ensure_bin_has_records-Ensured k (j, []) bins pos al ok =
    subst (λ i. Returns (Ensured k ((i, []) ∷ bins)) (split_larger_bin ((i, []) ∷ bins))) (sym ok.0)
      (split_larger_bin-Ensured k bins pos al ok.2)
try_to_ensure_bin_has_records-Ensured k (j, r ∷ rs) bins pos al ok = Ensured-same k j r rs bins ok
