-- ===== src/Memory/Pow2Bins/Free.antt =====
-- library/src/memory/pow2_bins.hpp: `free`.
use roc_shmem.Common.{
  ℕ, suc, ◌+◌, ◌*◌, ◌≡◌, refl, sym, ap, subst, inl, inr, List, [], ◌∷◌, ◌++◌, none, some, arith,
  length, All, Returns, Returns-bind, Bool-cases, ◌==◌, ==_iff,
}
use roc_shmem.Memory.AddressRecord.{AddressRecord}
use roc_shmem.Memory.Binner.{Entry, alignment}
use roc_shmem.Memory.Pow2Bins.{
  Pow2Bins, Proffered, find_erase, retrieve_from_proffered, emplace_record_in_bin, free,
}
use roc_shmem.Memory.Pow2Bins.Invariant.{
  RecordOk, BinsOk, IsBinSize, ProfferedOk, Inv, total_bins, total_proffered, total, covers,
}
use roc_shmem.Memory.Pow2Bins.Search.{IsBinSize-pos}
use roc_shmem.Memory.Pow2Bins.Request.{IsFresh, uncovered-IsFresh, nonzero}
use roc_shmem.Memory.Pow2Bins.Alloc.{total_proffered-append, All-append}

-- The bins with one more record.
record Emplaced (k : ℕ) (r : AddressRecord) (before after : List Entry) : Type 0 where
  bins_ok : BinsOk k after
  same_length : length after ≡ length before
  put : (w : AddressRecord → ℕ) → total_bins w after ≡ total_bins w before + w r

emplace_record_in_bin-Emplaced :
    (k : ℕ) (r : AddressRecord) (bins : List Entry)
    → BinsOk k bins
    → RecordOk r.size r
    → IsBinSize r.size k (length bins)
    → Returns (Emplaced k r bins) (emplace_record_in_bin r bins)
unfolding emplace_record_in_bin
emplace_record_in_bin-Emplaced k r [] ok sound h = elim h [ ]
emplace_record_in_bin-Emplaced k r ((j, bin) ∷ bins) ok sound h = elim (Bool-cases (j == r.size)) [
  | inl hit ↦ rw hit (record {
    bins_ok = (ok.0, (subst (λ s. RecordOk s r) (ground arith) sound, ok.1), ok.2);
    same_length = refl;
    put = λ w. omega arith;
  })
  | inr miss ↦ rw miss (
      Returns-bind (Emplaced (2 * k) r bins) _ (emplace_record_in_bin r bins) _
        (emplace_record_in_bin-Emplaced (2 * k) r bins ok.2 sound
          (elim h [ inl e ↦ absurd (ground arith) | inr rest ↦ rest ]))
        λ after e. record {
          bins_ok = (ok.0, ok.1, e.bins_ok);
          same_length = ap suc e.same_length;
          put = λ w. omega (arith, e.put w);
        })
]

find_erase-append :
    (ptr : ℕ) (r : AddressRecord) (xs ys : List Proffered)
    → IsFresh ptr xs
    → find_erase ptr (xs ++ (ptr, r) ∷ ys) ≡ some (r, xs ++ ys)
unfolding find_erase
find_erase-append ptr r [] ys h = rw ((==_iff ptr ptr).1 refl)
find_erase-append ptr r ((j, q) ∷ xs) ys h = ground (arith, find_erase-append ptr r xs ys h.1)

find_erase-fresh : (ptr : ℕ) (m : List Proffered) → IsFresh ptr m → find_erase ptr m ≡ none
unfolding find_erase
find_erase-fresh ptr [] h = refl
find_erase-fresh ptr ((j, q) ∷ m) h = ground (arith, find_erase-fresh ptr m h.1)

pub All-split :
    (P : Proffered → Type 0) (xs : List Proffered) (e : Proffered) (ys : List Proffered)
    → All P (xs ++ e ∷ ys)
    → All P xs × P e × All P ys
All-split P [] e ys h = (tt, h.0, h.1)
All-split P (x ∷ xs) e ys h = let rest = All-split P xs e ys h.1 in ((h.0, rest.0), rest.1, rest.2)

-- What is asked of a release of the record between `xs` and `ys`.
pub record Released (p : Pow2Bins) (xs ys : List Proffered) (r : AddressRecord) (q : Pow2Bins)
    : Type 0 where
  pub inv : Inv q
  pub remaining : q.proffered ≡ xs ++ ys
  pub returned : (w : AddressRecord → ℕ) → total_bins w q.bins ≡ total_bins w p.bins + w r
  pub same_total : (w : AddressRecord → ℕ) → total w q ≡ total w p

module _ (p : Pow2Bins) (inv : Inv p) where
  module _ (ptr : ℕ) (r : AddressRecord) (xs ys : List Proffered)
      (e : p.proffered ≡ xs ++ (ptr, r) ∷ ys) where
    pub parts :
        All (ProfferedOk (length p.bins)) xs
        × ProfferedOk (length p.bins) (ptr, r)
        × All (ProfferedOk (length p.bins)) ys
    parts =
        All-split _ xs (ptr, r) ys (subst (All (ProfferedOk (length p.bins))) e inv.proffered_ok)

    pub total_parts :
        (w : AddressRecord → ℕ)
        → total_proffered w p.proffered ≡ total_proffered w xs + w r + total_proffered w ys
    total_parts w =
        omega (arith, ap (total_proffered w) e, total_proffered-append w xs ((ptr, r) ∷ ys))

    pub xs-IsFresh : IsFresh ptr xs
    xs-IsFresh = uncovered-IsFresh ptr (length p.bins) xs parts.0 (
        ground (
          arith,
          total_parts (covers ptr),
          inv.disjoint ptr,
          parts.1.keyed,
          parts.1.sound.fits,
          IsBinSize-pos r.size alignment (length p.bins) (omega arith) parts.1.binned,
        ))

    pub rest-IsFresh : IsFresh ptr (xs ++ ys)
    rest-IsFresh = All-append _ xs ys xs-IsFresh (
        uncovered-IsFresh ptr (length p.bins) ys parts.2 (
          ground (
            arith,
            total_parts (covers ptr),
            inv.disjoint ptr,
            parts.1.keyed,
            parts.1.sound.fits,
            IsBinSize-pos r.size alignment (length p.bins) (omega arith) parts.1.binned,
          )))

    retrieved : retrieve_from_proffered ptr p.proffered ≡ some (r, xs ++ ys)
    unfolding retrieve_from_proffered
    retrieved =
        rw (nonzero ptr (ground (arith, parts.1.keyed, parts.1.sound.nonnull)), e)
          (find_erase-append ptr r xs ys xs-IsFresh)

    released :
        (after : List Entry)
        → Emplaced alignment r p.bins after
        → Released p xs ys r (record { bins = after; proffered = xs ++ ys })
    released after em = record {
      inv = record {
        bins_ok = em.bins_ok;
        proffered_ok =
            subst (λ n. All (ProfferedOk n) (xs ++ ys)) (sym em.same_length)
              (All-append _ xs ys parts.0 parts.2);
        disjoint = λ x. omega (arith, same (covers x), inv.disjoint x);
      };
      remaining = refl;
      returned = em.put;
      same_total = same;
    }
      where
        same :
            (w : AddressRecord → ℕ) → total_bins w after + total_proffered w (xs ++ ys) ≡ total w p
        same w = omega (arith, em.put w, total_parts w, total_proffered-append w xs ys)

    -- From a well-formed state, freeing a proffered pointer returns: its record is proffered no
    -- more, the others are as they were, its bytes are back in the bins and the state stays well
    -- formed.
    pub free-Released : Returns (Released p xs ys r) (free ptr p)
    unfolding free
    free-Released = rw retrieved (
        Returns-bind (Emplaced alignment r p.bins) _ (emplace_record_in_bin r p.bins) _
          (emplace_record_in_bin-Emplaced alignment r p.bins inv.bins_ok parts.1.sound
            parts.1.binned)
          released)

  -- Freeing any other pointer, null or freed before, stops at an assertion.
  pub free_unknown : (ptr : ℕ) → IsFresh ptr p.proffered → free ptr p ≡ none
  unfolding free retrieve_from_proffered
  free_unknown ptr fresh = ground (arith, find_erase-fresh ptr p.proffered fresh)
