-- ===== src/Memory/Pow2Bins/History.antt =====
-- library/src/memory/pow2_bins.hpp: histories of `alloc` and `free` from the constructor on.
use roc_shmem.Common.{
  ℕ, ◌+◌, ◌≤◌, ◌<◌, ◌≡◌, refl, ◌∙◌, subst, inl, inr, List, [], ◌∷◌, ◌++◌, arith, ◌==◌, ◌>>=◌,
  if◌then◌else◌, Option, none, some, Bool-cases, Returns_at, Option-cases, ==_iff,
}
use roc_shmem.Memory.AddressRecord.{AddressRecord, word_mod}
use roc_shmem.Memory.Binner.{alignment}
use roc_shmem.Memory.Pow2Bins.{
  Pow2Bins, Proffered, make_pow2_bins, alloc, free, find_erase, retrieve_from_proffered,
}
use roc_shmem.Memory.Pow2Bins.Invariant.{Inv, cover, total, covers}
use roc_shmem.Memory.Pow2Bins.Alloc.{Allocated, alloc-Allocated}
use roc_shmem.Memory.Pow2Bins.Free.{Released, free-Released}
use roc_shmem.Memory.Pow2Bins.Construct.{Constructed, make_pow2_bins-Constructed}

-- A call that returns.
pub data Step (p q : Pow2Bins) : Type 0 where
  allocates : (n ptr : ℕ) → alloc n p ≡ some (ptr, q) → Step p q
  frees : (ptr : ℕ) → free ptr p ≡ some q → Step p q

pub data Reach (base size : ℕ) : Pow2Bins → Type 0 where
  built : {p : Pow2Bins} → make_pow2_bins base size ≡ some p → Reach base size p
  next : {p q : Pow2Bins} → Reach base size p → Step p q → Reach base size q

-- What `find_erase` finds stands in the list under the pointer.
abbrev pub Erased : ℕ → List Proffered → AddressRecord → Type 0
Erased ptr m r = (xs : List Proffered) × (ys : List Proffered) × (m ≡ xs ++ (ptr, r) ∷ ys)

step_of_erase :
    (ptr j : ℕ) (q : AddressRecord) (m : List Proffered) (found : AddressRecord × List Proffered)
    (rest : Option (AddressRecord × List Proffered))
    → ((f : AddressRecord × List Proffered) → rest ≡ some f → Erased ptr m f.0)
    → (if j == ptr then some (q, m) else (rest >>= λ f. some (f.0, (j, q) ∷ f.1))) ≡ some found
    → Erased ptr ((j, q) ∷ m) found.0
step_of_erase ptr j q m found none ih e = ([], m, ground arith)
step_of_erase ptr j q m found (some f) ih e = elim (Bool-cases (j == ptr)) [
  | inl hit ↦ ([], m, ground arith)
  | inr miss ↦ let (xs, ys, split) = ih f refl in ((j, q) ∷ xs, ys, ground arith)
]

find_erase-Erased :
    (ptr : ℕ) (m : List Proffered) (found : AddressRecord × List Proffered)
    → find_erase ptr m ≡ some found
    → Erased ptr m found.0
unfolding find_erase
find_erase-Erased ptr [] found e = cc
find_erase-Erased ptr ((j, q) ∷ m) found e =
    step_of_erase ptr j q m found (find_erase ptr m) (find_erase-Erased ptr m) e

freed-Erased :
    (ptr : ℕ) (p q : Pow2Bins)
    → free ptr p ≡ some q
    → (r : AddressRecord) × Erased ptr p.proffered r
unfolding free retrieve_from_proffered
freed-Erased ptr p q e = elim (Option-cases (find_erase ptr p.proffered)) [
  | inl none_found ↦ absurd (ground arith)
  | inr (found, e') ↦ (found.0, find_erase-Erased ptr p.proffered found e')
]

-- A release that returns did what it should.
pub freed-Released :
    (ptr : ℕ) (p q : Pow2Bins)
    → Inv p
    → free ptr p ≡ some q
    → (r : AddressRecord) × (xs : List Proffered) × (ys : List Proffered) × (p.proffered
        ≡ xs ++ (ptr, r) ∷ ys)
      × Released p xs ys r q
freed-Released ptr p q inv e =
    let (r, erased) = freed-Erased ptr p q e in
    let (xs, ys, split) = erased in
    (r, xs, ys, split, Returns_at (Released p xs ys r) e (free-Released p inv ptr r xs ys split))

-- Every step keeps the invariant and how often each byte is held.
pub record Kept (p q : Pow2Bins) : Type 0 where
  pub inv : Inv q
  pub same_cover : (x : ℕ) → cover q x ≡ cover p x
  pub same_bytes : total (λ r. r.size) q ≡ total (λ r. r.size) p

alloc_zero : (p q : Pow2Bins) (ptr : ℕ) → alloc 0 p ≡ some (ptr, q) → p ≡ q
unfolding alloc
alloc_zero p q ptr e = ground arith

alloc-Kept : (n ptr : ℕ) (p q : Pow2Bins) → Inv p → alloc n p ≡ some (ptr, q) → Kept p q
alloc-Kept n ptr p q inv e = elim (Bool-cases (n == 0)) [
  | inl none_asked ↦
      subst (Kept p)
        (alloc_zero p q ptr (subst (λ k. alloc k p ≡ some (ptr, q)) ((==_iff n 0).0 none_asked) e))
        (record { inv = inv; same_cover = λ x. refl; same_bytes = refl })
  | inr asked ↦
      let done : Allocated n p (ptr, q) =
        Returns_at (Allocated n p) e (alloc-Allocated p inv n (ground arith)) in
      record { inv = done.inv; same_cover = done.same_cover; same_bytes = done.same_bytes }
]

pub Step-Kept : {p q : Pow2Bins} → Inv p → Step p q → Kept p q
Step-Kept {p} {q} inv (allocates n ptr e) = alloc-Kept n ptr p q inv e
Step-Kept {p} {q} inv (frees ptr e) =
    let (r, xs, ys, split, done) = freed-Released ptr p q inv e in
    record {
      inv = done.inv;
      same_cover = λ x. done.same_total (covers x);
      same_bytes = done.same_total (λ r. r.size);
    }

-- After any history the records, free or proffered, hold what the constructor gave the bins.
pub Reach-Kept :
    {base size : ℕ} {p : Pow2Bins}
    → 0 < base
    → alignment ≤ size
    → base + size < word_mod
    → Reach base size p
    → (start : Pow2Bins) × Constructed base size start × Kept start p
Reach-Kept {base} {size} {p} pos le fits (built e) =
    let made : Constructed base size p =
      Returns_at (Constructed base size) e (make_pow2_bins-Constructed base size pos le fits) in
    (p, made, record { inv = made.inv; same_cover = λ x. refl; same_bytes = refl })
Reach-Kept pos le fits (next r st) =
    let (start, made, before) = Reach-Kept pos le fits r in
    let after = Step-Kept before.inv st in
    (
      start,
      made,
      record {
        inv = after.inv;
        same_cover = λ x. after.same_cover x ∙ before.same_cover x;
        same_bytes = after.same_bytes ∙ before.same_bytes;
      },
    )
