-- ===== src/Memory/Pow2Bins/Safety.antt =====
-- library/src/memory/pow2_bins.hpp: what a client of the heap may rely on after any history.
use mathlib.Core.List.{append-nil}
use roc_shmem.Common.{
  ℕ, ◌+◌, ◌-◌, ◌%◌, ◌≤◌, ◌<◌, ◌≡◌, ◌≢◌, sym, ap, ◌∙◌, subst, ◌⊎◌, inl, inr, List, [], ◌∷◌, ◌++◌,
  arith, length, none, some, Returns, Returns-map, Returns_at,
}
use roc_shmem.Memory.AddressRecord.{AddressRecord, word_mod}
use roc_shmem.Memory.Binner.{alignment}
use roc_shmem.Memory.Pow2Bins.{Pow2Bins, Proffered, alloc, free, sum_sizes, amount_proffered}
use roc_shmem.Memory.Pow2Bins.Invariant.{Inv, ProfferedOk, covers, total_bins, total_proffered}
use roc_shmem.Memory.Pow2Bins.Request.{IsFresh}
use roc_shmem.Memory.Pow2Bins.Search.{IsBinSize-pos}
use roc_shmem.Memory.Pow2Bins.Alloc.{Allocated, Answer, alloc-Allocated, total_proffered-append}
use roc_shmem.Memory.Pow2Bins.Free.{
  free-Released, free_unknown, parts, total_parts, rest-IsFresh, All-split,
}
use roc_shmem.Memory.Pow2Bins.History.{Reach, Reach-Kept, freed-Released}

sum_sizes-total :
    (acc : ℕ) (m : List Proffered)
    → acc + total_proffered (λ r. r.size) m < word_mod
    → sum_sizes acc m ≡ acc + total_proffered (λ r. r.size) m
unfolding sum_sizes
sum_sizes-total acc [] h = omega arith
sum_sizes-total acc ((j, r) ∷ m) h =
    sum_sizes-total ((acc + r.size) % word_mod) m (omega arith) ∙ omega arith

-- What the invariant says of one proffered record.
abbrev Live : ℕ → AddressRecord → Type 0
Live a r = (a ≡ r.address) × (0 < r.size) × (r.address % alignment ≡ 0)

ProfferedOk-Live : (n a : ℕ) (r : AddressRecord) → ProfferedOk n (a, r) → Live a r
ProfferedOk-Live n a r ok =
    (ok.keyed, IsBinSize-pos r.size alignment n (omega arith) ok.binned, ok.sound.aligned)

covered_twice :
    (a b : ℕ) (r s : AddressRecord)
    → Live a r
    → Live b s
    → ((x : ℕ) → covers x r + covers x s ≤ 1)
    → (a + r.size ≤ b) ⊎ (b + s.size ≤ a)
covered_twice a b r s lr ls once = ground (arith, once a, once b)

two_parts :
    (w : AddressRecord → ℕ) (xs ys zs : List Proffered) (a b : ℕ) (r s : AddressRecord)
    → w r + w s ≤ total_proffered w (xs ++ (a, r) ∷ (ys ++ (b, s) ∷ zs))
two_parts w xs ys zs a b r s = omega (
  arith,
  total_proffered-append w xs ((a, r) ∷ (ys ++ (b, s) ∷ zs)),
  total_proffered-append w ys ((b, s) ∷ zs),
)

module _ {base size : ℕ} {p : Pow2Bins} (pos : 0 < base) (le : alignment ≤ size)
    (fits : base + size < word_mod) (reach : Reach base size p) where
  reach-Inv : Inv p
  reach-Inv = let (start, made, kept) = Reach-Kept pos le fits reach in kept.inv

  -- After any history of allocations and frees on a heap of 128 bytes or more that does not begin
  -- at null and ends below 2^64, two proffered records share no byte.
  pub live_disjoint :
      (a b : ℕ) (r s : AddressRecord) (xs ys zs : List Proffered)
      → p.proffered ≡ xs ++ (a, r) ∷ (ys ++ (b, s) ∷ zs)
      → (a + r.size ≤ b) ⊎ (b + s.size ≤ a)
  live_disjoint a b r s xs ys zs e =
      let ok = parts p reach-Inv a r xs (ys ++ (b, s) ∷ zs) e in
      let ok' = All-split _ ys (b, s) zs ok.2 in
      covered_twice a b r s (ProfferedOk-Live (length p.bins) a r ok.1)
        (ProfferedOk-Live (length p.bins) b s ok'.1)
        λ x. omega (
          arith,
          two_parts (covers x) xs ys zs a b r s,
          ap (total_proffered (covers x)) e,
          reach-Inv.disjoint x,
        )

  bytes_once :
      (a : ℕ) (r : AddressRecord) (xs ys : List Proffered)
      → p.proffered ≡ xs ++ (a, r) ∷ ys
      → (x : ℕ) → r.address ≤ x
      → x < r.address + r.size
      → (base ≤ x) × (x < base + size)
  bytes_once a r xs ys e x from to =
      let (start, made, kept) = Reach-Kept pos le fits reach in
      ground
        (arith, total_parts p reach-Inv a r xs ys e (covers x), kept.same_cover x, made.tiled x)

  -- After any history of allocations and frees on a heap of 128 bytes or more that does not begin
  -- at null and ends below 2^64, a proffered record is aligned to 128 bytes and lies in the heap.
  pub live_within :
      (a : ℕ) (r : AddressRecord) (xs ys : List Proffered)
      → p.proffered ≡ xs ++ (a, r) ∷ ys
      → (a % alignment ≡ 0) × (base ≤ a) × (a + r.size ≤ base + size)
  live_within a r xs ys e =
      let live = ProfferedOk-Live (length p.bins) a r (parts p reach-Inv a r xs ys e).1 in
      omega (
        arith,
        bytes_once a r xs ys e r.address (omega arith) (omega (arith, live)),
        bytes_once a r xs ys e (r.address + r.size - 1) (omega (arith, live)) (omega (arith, live)),
        live,
      )

  -- After any history of allocations and frees on a heap of 128 bytes or more that does not begin
  -- at null and ends below 2^64, `amount_proffered` is the sum of the proffered sizes, with no
  -- wrap, and is at most the size of the heap.
  pub amount_proffered_bounded :
      (amount_proffered p ≡ total_proffered (λ r. r.size) p.proffered) × (amount_proffered p ≤ size)
  unfolding amount_proffered
  amount_proffered_bounded =
      let (start, made, kept) = Reach-Kept pos le fits reach in
      let small : total_proffered (λ r. r.size) p.proffered ≤ size =
        omega (arith, kept.same_bytes, made.bytes) in
      let e = sum_sizes-total 0 p.proffered (omega arith) in (omega (arith, e), omega (arith, e))

-- From a well-formed state, a pointer whose `free` returned cannot be freed again: the second
-- call stops at an assertion.
pub free_twice : (p q : Pow2Bins) (ptr : ℕ) → Inv p → free ptr p ≡ some q → free ptr q ≡ none
free_twice p q ptr inv e =
    let (r, xs, ys, split, done) = freed-Released ptr p q inv e in
    free_unknown q done.inv ptr
      (subst (IsFresh ptr) (sym done.remaining) (rest-IsFresh p inv ptr r xs ys split))

-- From a well-formed state, a block that `alloc` grants for a request of a byte or more is freed
-- without a failed assertion; the proffered records are then those from before, and the bins hold
-- the bytes that they held before.
pub alloc_then_free :
    (p q : Pow2Bins) (n ptr : ℕ)
    → Inv p
    → 0 < n
    → alloc n p ≡ some (ptr, q)
    → ptr ≢ 0
    → Returns
        (λ t.
          (t.proffered ≡ p.proffered)
          × ((x : ℕ) → total_bins (covers x) t.bins ≡ total_bins (covers x) p.bins))
        (free ptr q)
alloc_then_free p q n ptr inv pos e nonnull = by_answer done.right
  where
    done : Allocated n p (ptr, q)
    done = Returns_at (Allocated n p) e (alloc-Allocated p inv n pos)

    by_answer :
        Answer n p ptr q
        → Returns
            (λ t.
              (t.proffered ≡ p.proffered)
              × ((x : ℕ) → total_bins (covers x) t.bins ≡ total_bins (covers x) p.bins))
            (free ptr q)
    by_answer (inl (i, r, large, least, pointer, sound, recorded)) =
        Returns-map _ _ (free ptr q)
          (λ t f. (
            f.remaining ∙ append-nil p.proffered,
            λ x. omega (
              arith,
              f.returned (covers x),
              done.same_cover x,
              ap (total_proffered (covers x)) recorded,
              total_proffered-append (covers x) p.proffered ((ptr, r) ∷ []),
            ),
          ))
          (free-Released q done.inv ptr r p.proffered [] recorded)
    by_answer (inr (null, same, gone)) = absurd (nonnull null)
