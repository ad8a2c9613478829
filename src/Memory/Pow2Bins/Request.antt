-- ===== src/Memory/Pow2Bins/Request.antt =====
-- library/src/memory/pow2_bins.hpp: one request against the bin under an iterator.
use roc_shmem.Common.{
  ℕ, zero, suc, ◌+◌, ◌≤◌, ◌<◌, ◌≡◌, ◌≢◌, refl, ◌⊎◌, inl, inr, true, false, List, [], ◌∷◌, ◌++◌,
  some, arith, length, All, drop, Returns, Returns-bind, ◌>>=◌, Bool-cases, ◌==◌, ==_iff,
  if◌then◌else◌,
}
use roc_shmem.Memory.AddressRecord.{AddressRecord}
use roc_shmem.Memory.Binner.{Entry, alignment}
use roc_shmem.Memory.Pow2Bins.{
  Pow2Bins, Proffered, do_request_using, retrieve_record_from_bin, assign_proffered,
  emplace_in_proffered,
}
use roc_shmem.Memory.Pow2Bins.Invariant.{
  RecordOk, BinsOk, ProfferedOk, Inv, Additive, total_bins, total_proffered, covers, available,
}
use roc_shmem.Memory.Pow2Bins.Retrieve.{
  size_at, size_at_facts, Found, retrieve_record_from_bin-Retrieved,
}
use roc_shmem.Memory.Pow2Bins.Search.{IsBinSize-pos}

pub covers-Additive : (x : ℕ) → Additive (covers x)
covers-Additive x a n = ground arith

pub size-Additive : Additive (λ r. r.size)
size-Additive a n = refl

-- No entry is keyed by the address.
abbrev pub IsFresh : ℕ → List Proffered → Type 0
IsFresh a = All (λ e. e.0 ≢ a)

assign_proffered-fresh :
    (r : AddressRecord) (a : ℕ) (m : List Proffered)
    → IsFresh a m
    → assign_proffered a r m ≡ m ++ (a, r) ∷ []
unfolding assign_proffered
assign_proffered-fresh r a [] h = refl
assign_proffered-fresh r a ((j, q) ∷ m) h = ground (arith, assign_proffered-fresh r a m h.1)

-- A proffered record holds the byte at its key.
pub uncovered-IsFresh :
    (a n : ℕ) (m : List Proffered)
    → All (ProfferedOk n) m
    → total_proffered (covers a) m ≡ 0
    → IsFresh a m
uncovered-IsFresh a n [] ok z = tt
uncovered-IsFresh a n ((j, q) ∷ m) ok z = (
  λ e. ground (arith, ok.0.keyed, IsBinSize-pos q.size alignment n (omega arith) ok.0.binned),
  uncovered-IsFresh a n m ok.1 (omega arith),
)

-- The request took a record of size `s` out of the bins and proffered it.
pub record Granted (s : ℕ) (p : Pow2Bins) (ptr : ℕ) (q : Pow2Bins) : Type 0 where
  pub rec : AddressRecord
  pub found : RecordOk s rec
  pub pointer : ptr ≡ rec.address
  pub recorded : q.proffered ≡ p.proffered ++ (ptr, rec) ∷ []
  pub bins_ok : BinsOk alignment q.bins
  pub same_length : length q.bins ≡ length p.bins
  pub taken :
      (w : AddressRecord → ℕ) → Additive w → total_bins w q.bins + w rec ≡ total_bins w p.bins

abbrev pub Outcome : ℕ → List Entry → Pow2Bins → ℕ × Pow2Bins → Type 0
Outcome s from p (ptr, q) =
    ((available from ≡ true) × Granted s p ptr q) ⊎ ((available from ≡ false) × (ptr ≡ 0) × (q ≡ p))

pub nonzero : (a : ℕ) → 0 < a → (a == 0) ≡ false
nonzero a h = ground arith

pub drop_end : (it : ℕ) (bins : List Entry) → it ≡ length bins → available (drop it bins) ≡ false
drop_end zero [] e = refl
drop_end zero (b ∷ bins) e = absurd (omega arith)
drop_end (suc it) [] e = absurd (omega arith)
drop_end (suc it) (b ∷ bins) e = drop_end it bins (omega arith)

module _ (p : Pow2Bins) (inv : Inv p) where
  found-IsFresh :
      (s : ℕ) (r : AddressRecord) (after : List Entry)
      → 0 < s
      → RecordOk s r
      → total_bins (covers r.address) after + covers r.address r
        ≡ total_bins (covers r.address) p.bins
      → IsFresh r.address p.proffered
  found-IsFresh s r after pos ok e =
      uncovered-IsFresh r.address (length p.bins) p.proffered inv.proffered_ok
        (ground (arith, inv.disjoint r.address, ok.sized))

  proffer :
      (s : ℕ) (from : List Entry) (r : AddressRecord) (after : List Entry)
      → 0 < s
      → BinsOk alignment after
      → length after ≡ length p.bins
      → Found s from p.bins (r, after)
      → Returns (Outcome s from p) (
          (if r.address == 0 then some p.proffered else emplace_in_proffered r p.proffered)
          >>= λ proffered. some (r.address, record { bins = after; proffered = proffered }))
  unfolding emplace_in_proffered
  proffer s from r after pos ok same (inr (gone, e, unchanged)) =
      rw (e, unchanged) (inr (gone, refl, refl))
  proffer s from r after pos ok same (inl (have, sound, taken)) =
      let fresh : IsFresh r.address p.proffered =
        found-IsFresh s r after pos sound (taken (covers r.address) (covers-Additive r.address)) in
      rw (nonzero r.address sound.nonnull) (
        inl (
          have,
          record {
            rec = r;
            found = sound;
            pointer = refl;
            recorded = assign_proffered-fresh r r.address p.proffered fresh;
            bins_ok = ok;
            same_length = same;
            taken = taken;
          },
        ))

  -- A request returns. It grants a record of the size of the iterator's bin if the bins from there
  -- on have any record, and changes nothing otherwise; the end of the map is one of the positions.
  pub do_request_using-Outcome :
      (it : ℕ)
      → it ≤ length p.bins
      → Returns (Outcome (size_at alignment it) (drop it p.bins) p) (do_request_using it p)
  unfolding do_request_using
  do_request_using-Outcome it le = elim (Bool-cases (it == length p.bins)) [
    | inl end ↦ rw end (inr (drop_end it p.bins ((==_iff _ _).0 end), refl, refl))
    | inr inside ↦ rw inside (
        Returns-bind _ _ (retrieve_record_from_bin it p.bins) _
          (retrieve_record_from_bin-Retrieved alignment it p.bins (omega arith) refl inv.bins_ok
            (ground arith))
          λ found h.
            proffer (size_at alignment it) (drop it p.bins) found.0 found.1
              (size_at_facts alignment it (omega arith) refl).0 h.0 h.1 h.2)
  ]
