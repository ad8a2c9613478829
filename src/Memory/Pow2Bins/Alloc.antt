-- ===== src/Memory/Pow2Bins/Alloc.antt =====
-- library/src/memory/pow2_bins.hpp: `alloc`.
use roc_shmem.Common.{
  ℕ, suc, ◌+◌, ◌≤◌, ◌<◌, ◌≡◌, refl, sym, ap, subst, ◌⊎◌, inl, inr, Bool, true, false, List, [], ◌∷◌,
  ◌++◌, Option, none, some, arith, length, All, leb, le→leb, drop, Returns, Returns-map, ◌>>=◌,
  Bool-cases, ◌==◌, ==_iff, if◌then◌else◌,
}
use roc_shmem.Memory.AddressRecord.{AddressRecord}
use roc_shmem.Memory.Binner.{Entry, alignment}
use roc_shmem.Memory.Pow2Bins.{Pow2Bins, Proffered, do_request_using, lower_bound, alloc}
use roc_shmem.Memory.Pow2Bins.Invariant.{
  RecordOk, IsBinSize, ProfferedOk, Inv, Additive, total_proffered, total, covers, cover, available,
}
use roc_shmem.Memory.Pow2Bins.Retrieve.{size_at}
use roc_shmem.Memory.Pow2Bins.Search.{
  IsBinSize-size_at, find_bin-lower_bound, lower_bound-le, lower_bound-fits, lower_bound_least,
}
use roc_shmem.Memory.Pow2Bins.Request.{
  covers-Additive, size-Additive, Granted, Outcome, do_request_using-Outcome, drop_end,
}

pub total_proffered-append :
    (w : AddressRecord → ℕ) (xs ys : List Proffered)
    → total_proffered w (xs ++ ys) ≡ total_proffered w xs + total_proffered w ys
total_proffered-append w [] ys = omega arith
total_proffered-append w (x ∷ xs) ys = omega (arith, total_proffered-append w xs ys)

pub All-append :
    (P : Proffered → Type 0) (xs ys : List Proffered) → All P xs → All P ys → All P (xs ++ ys)
All-append P [] ys hx hy = hy
All-append P (x ∷ xs) ys hx hy = (hx.0, All-append P xs ys hx.1 hy)

end_position : (bins : List Entry) → (length bins == length bins) ≡ true
end_position bins = (==_iff _ _).1 refl

at_end : (p : Pow2Bins) → do_request_using (length p.bins) p ≡ some (0, p)
unfolding do_request_using
at_end p = rw (end_position p.bins)

module _ (p : Pow2Bins) (inv : Inv p) where
  -- A second request after one that failed meets the same state.
  retry :
      (n : ℕ) (first : Option (ℕ × Pow2Bins))
      → do_request_using (lower_bound n p.bins) p ≡ first
      → Returns
          (Outcome
            (size_at alignment (lower_bound n p.bins))
            (drop (lower_bound n p.bins) p.bins)
            p)
          first
      → (first >>= λ answer.
          (if answer.0 == 0
            then do_request_using (lower_bound n (answer.1).bins) answer.1
            else some (answer.0, answer.1)))
        ≡ first
  retry n none e h = refl
  retry n (some answer) e (inl (have, granted)) =
      let nonzero : (answer.0 == 0) ≡ false = ground (arith, granted.pointer, granted.found) in
      rw nonzero
  retry n (some (ptr, q)) e (inr (gone, null, same)) = rw null (
      subst (λ s. do_request_using (lower_bound n s.bins) s ≡ some (0, q)) (sym same)
        (subst (λ v. do_request_using (lower_bound n p.bins) p ≡ some (v, q)) null e))

  -- From a well-formed state, `alloc` of a byte or more is one request on the first bin that is
  -- large enough: the attempt at an exact match finds nothing that this search does not find.
  pub alloc-lower_bound : (n : ℕ) → 0 < n → alloc n p ≡ do_request_using (lower_bound n p.bins) p
  unfolding alloc
  alloc-lower_bound n pos =
      rw (positive n pos)
        (elim (find_bin-lower_bound n alignment p.bins (omega arith) inv.bins_ok) [
          | inl none_exact ↦ rw none_exact (no_exact n)
          | inr exact ↦ rw exact (
              retry n _ refl
                (do_request_using-Outcome p inv (lower_bound n p.bins) (lower_bound-le n p.bins)))
        ])
    where
      positive : (n : ℕ) → 0 < n → (n == 0) ≡ false
      positive n h = ground arith

      no_exact :
          (n : ℕ)
          → (do_request_using (length p.bins) p >>= λ answer.
              (if answer.0 == 0
                then do_request_using (lower_bound n (answer.1).bins) answer.1
                else some (answer.0, answer.1)))
            ≡ do_request_using (lower_bound n p.bins) p
      no_exact n = rw (at_end p)

-- No bin of size `n` or more has a record.
abbrev pub IsExhausted : ℕ → List Entry → Type 0
IsExhausted n = All (λ e. n ≤ e.0 → e.1 ≡ [])

empty_bins : (n : ℕ) (bins : List Entry) → available bins ≡ false → IsExhausted n bins
empty_bins n [] h = tt
empty_bins n ((k, []) ∷ bins) h = (λ _. refl, empty_bins n bins h)
empty_bins n ((k, r ∷ rs) ∷ bins) h = cc

exhausted :
    (n : ℕ) (bins : List Entry)
    → available (drop (lower_bound n bins) bins) ≡ false
    → IsExhausted n bins
unfolding lower_bound
exhausted n [] h = tt
exhausted n ((k, b) ∷ bins) h = elim (Bool-cases (leb n k)) [
  | inl le ↦ empty_bins n ((k, b) ∷ bins) (
      subst
        (λ (t : Bool).
          available (drop (if t then 0 else suc (lower_bound n bins)) ((k, b) ∷ bins)) ≡ false)
        le h)
  | inr gt ↦ (
    λ h'. cc (le→leb n k h'),
    exhausted n bins (
        subst
          (λ (t : Bool).
            available (drop (if t then 0 else suc (lower_bound n bins)) ((k, b) ∷ bins)) ≡ false)
          gt h),
  )
]

-- The pointer is that of a record of the least bin size that holds the request, proffered beside
-- the records proffered before. Or it is null, no bin large enough has a record, and nothing
-- changed.
abbrev pub Answer : ℕ → Pow2Bins → ℕ → Pow2Bins → Type 0
Answer n p ptr q =
    ((i : ℕ) × (r : AddressRecord) × (n ≤ size_at alignment i)
      × ((j : ℕ) → j < i → size_at alignment j < n)
      × (ptr ≡ r.address)
      × RecordOk (size_at alignment i) r
      × (q.proffered ≡ p.proffered ++ (ptr, r) ∷ []))
    ⊎ ((ptr ≡ 0) × (q ≡ p) × IsExhausted n p.bins)

-- What is asked of an allocation of `n` bytes: the state stays well formed, each byte is held as
-- often as before, so that none is lost or held twice, and the answer is right.
pub record Allocated (n : ℕ) (p : Pow2Bins) (answer : ℕ × Pow2Bins) : Type 0 where
  pub inv : Inv answer.1
  pub same_cover : (x : ℕ) → cover answer.1 x ≡ cover p x
  pub same_bytes : total (λ r. r.size) answer.1 ≡ total (λ r. r.size) p
  pub right : Answer n p answer.0 answer.1

module _ (p : Pow2Bins) (inv : Inv p) where
  Granted-total :
      (s ptr : ℕ) (q : Pow2Bins)
      → Granted s p ptr q
      → (w : AddressRecord → ℕ) → Additive w
      → total w q ≡ total w p
  Granted-total s ptr q g w add = omega (
    arith,
    ap (total_proffered w) g.recorded,
    total_proffered-append w p.proffered ((ptr, g.rec) ∷ []),
    g.taken w add,
  )

  available_inside :
      (it : ℕ) (bins : List Entry)
      → it ≤ length bins
      → available (drop it bins) ≡ true
      → it < length bins
  available_inside it bins le have = elim (Bool-cases (it == length bins)) [
    | inl end ↦ cc (have, drop_end it bins ((==_iff _ _).0 end))
    | inr inside ↦ ground arith
  ]

  granted-Inv :
      (i ptr : ℕ) (q : Pow2Bins) → i < length p.bins → Granted (size_at alignment i) p ptr q → Inv q
  granted-Inv i ptr q lt g = record {
    bins_ok = g.bins_ok;
    proffered_ok =
        subst (λ n. All (ProfferedOk n) q.proffered) (sym g.same_length)
          (subst (All (ProfferedOk (length p.bins))) (sym g.recorded) (
            All-append (ProfferedOk (length p.bins)) p.proffered ((ptr, g.rec) ∷ [])
              inv.proffered_ok (entry_ok, tt)));
    disjoint = λ x. omega (
      arith,
      Granted-total (size_at alignment i) ptr q g (covers x) (covers-Additive x),
      inv.disjoint x,
    );
  }
    where
      entry_ok : ProfferedOk (length p.bins) (ptr, g.rec)
      entry_ok = record {
        keyed = g.pointer;
        sound = subst (λ k. RecordOk k g.rec) (sym g.found.sized) g.found;
        binned =
            subst (λ k. IsBinSize k alignment (length p.bins)) (sym g.found.sized)
              (IsBinSize-size_at alignment (length p.bins) i lt);
      }

  outcome-Allocated :
      (n : ℕ) (answer : ℕ × Pow2Bins)
      → Outcome
          (size_at alignment (lower_bound n p.bins))
          (drop (lower_bound n p.bins) p.bins)
          p
          answer
      → Allocated n p answer
  outcome-Allocated n (ptr, q) (inl (have, g)) = record {
    inv = granted-Inv (lower_bound n p.bins) ptr q inside g;
    same_cover = λ x. Granted-total _ ptr q g (covers x) (covers-Additive x);
    same_bytes = Granted-total _ ptr q g (λ r. r.size) size-Additive;
    right = inl (
      lower_bound n p.bins,
      g.rec,
      lower_bound-fits n alignment p.bins inv.bins_ok inside,
      λ j lt. lower_bound_least n alignment j p.bins inv.bins_ok lt,
      g.pointer,
      g.found,
      g.recorded,
    );
  }
    where
      inside : lower_bound n p.bins < length p.bins
      inside = available_inside (lower_bound n p.bins) p.bins (lower_bound-le n p.bins) have
  outcome-Allocated n (ptr, q) (inr (gone, null, same)) = record {
    inv = subst Inv (sym same) inv;
    same_cover = λ x. ap (λ s. cover s x) same;
    same_bytes = ap (total (λ r. r.size)) same;
    right = inr (null, same, exhausted n p.bins gone);
  }

  -- From a well-formed state, `alloc` returns for every request of a byte or more, with no failed
  -- assertion: it grants an aligned block of a large enough bin and proffers just its record, or
  -- gives null with nothing proffered where no bin is large enough, or none from there on has a
  -- record; the state stays well formed and the bytes of the bins and of the proffered records
  -- together stay the same.
  pub alloc-Allocated : (n : ℕ) → 0 < n → Returns (Allocated n p) (alloc n p)
  alloc-Allocated n pos = subst (Returns (Allocated n p)) (sym (alloc-lower_bound p inv n pos)) (
      Returns-map _ _ _ (outcome-Allocated n)
        (do_request_using-Outcome p inv (lower_bound n p.bins) (lower_bound-le n p.bins)))
