-- ===== src/Transport/Counting.antt =====
-- library/src/reverse_offload/mpi_transport.cpp: the requests of each queue, counted, and what the
-- removal of completed requests takes from the count.
use roc_shmem.Common.{
  ℕ, zero, suc, ◌+◌, ◌<◌, ◌≡◌, ◌≢◌, refl, sym, ap, ◌∙◌, List, [], ◌∷◌, ◌++◌, Bool, true, false,
  if◌then◌else◌, ltb, ◌==◌, Option, none, some, Returns, Returns-bind, Returns-map, Bool-cases, inl,
  inr, length, get_elem?, All, arith,
}
use roc_shmem.Common.Int.{ℤ, pos, negsuc}
use roc_shmem.Transport.{RequestProperties}
use roc_shmem.Transport.Progress.{erase, insert_greater, sort_greater, erase_all}

-- 1 for a request of the queue.
abbrev pub one_of : ℕ → ℤ → ℕ
one_of w (pos v) = if v == w then 1 else 0
one_of w (negsuc n) = 0

abbrev pub one_at : ℕ → Option RequestProperties → ℕ
one_at w none = 0
one_at w (some r) = one_of w r.wg_id

-- The number of the requests of the queue.
abbrev pub count : ℕ → List RequestProperties → ℕ
count w [] = 0
count w (r ∷ rs) = one_of w r.wg_id + count w rs

-- The number of the indices that are of requests of the queue.
abbrev pub owed : ℕ → List RequestProperties → List ℕ → ℕ
owed w rs [] = 0
owed w rs (i ∷ is) = one_at w (get_elem? rs i) + owed w rs is

abbrev pub Descending : List ℕ → Type 0
Descending [] = Unit
Descending (i ∷ is) = All (λ j. j < i) is × Descending is

abbrev pub Distinct : List ℕ → Type 0
Distinct [] = Unit
Distinct (i ∷ is) = All (λ j. j ≢ i) is × Distinct is

-- Whether the index is in the list.
abbrev pub listed : ℕ → List ℕ → Bool
listed i [] = false
listed i (j ∷ js) = if j == i then true else listed i js

-- The requests, numbered from `k` on, whose numbers are not in the list, in their order.
abbrev pub without : List ℕ → ℕ → List RequestProperties → List RequestProperties
without is k [] = []
without is k (r ∷ rs) = if listed k is then without is (k + 1) rs else r ∷ without is (k + 1) rs

pub count-append :
    (w : ℕ) (rs : List RequestProperties) (r : RequestProperties)
    → count w (rs ++ r ∷ []) ≡ count w rs + one_of w r.wg_id
count-append w [] r = omega arith
count-append w (x ∷ rs) r = omega (arith, count-append w rs r)

module _ {P Q : ℕ → Type 0} where
  pub All-imply : ((j : ℕ) → P j → Q j) → (js : List ℕ) → All P js → All Q js
  All-imply f [] a = tt
  All-imply f (j ∷ js) a = (f j a.0, All-imply f js a.1)

module _ (P : ℕ → Type 0) where
  insert-All : (i : ℕ) (js : List ℕ) → P i → All P js → All P (insert_greater i js)
  unfolding insert_greater
  insert-All i [] p a = (p, tt)
  insert-All i (j ∷ js) p a = elim (Bool-cases (ltb i j)) [
    | inl e ↦ rw e (a.0, insert-All i js p a.1)
    | inr e ↦ rw e (p, a)
  ]

  pub sort-All : (is : List ℕ) → All P is → All P (sort_greater is)
  unfolding sort_greater
  sort-All [] a = tt
  sort-All (i ∷ is) a = insert-All i (sort_greater is) a.0 (sort-All is a.1)

insert-Descending :
    (i : ℕ) (js : List ℕ) → All (λ j. j ≢ i) js → Descending js → Descending (insert_greater i js)
unfolding insert_greater
insert-Descending i [] n d = (tt, tt)
insert-Descending i (j ∷ js) n d = elim (Bool-cases (ltb i j)) [
  | inl e ↦ rw e (insert-All (λ k. k < j) i js (ground arith) d.0, insert-Descending i js n.1 d.1)
  | inr e ↦ rw e (((above e, All-imply (λ k h. omega (arith, h, above e)) js d.0), d))
]
  where
    above : ltb i j ≡ false → j < i
    above e = let m = n.0 in ground arith

pub sort-Descending : (is : List ℕ) → Distinct is → Descending (sort_greater is)
unfolding sort_greater
sort-Descending [] d = tt
sort-Descending (i ∷ is) d =
    insert-Descending i (sort_greater is) (sort-All (λ j. j ≢ i) is d.0) (sort-Descending is d.1)

insert-owed :
    (w : ℕ) (rs : List RequestProperties) (i : ℕ) (js : List ℕ)
    → owed w rs (insert_greater i js) ≡ owed w rs (i ∷ js)
unfolding insert_greater
insert-owed w rs i [] = refl
insert-owed w rs i (j ∷ js) = elim (Bool-cases (ltb i j)) [
  | inl e ↦ rw (e, insert-owed w rs i js) (omega arith)
  | inr e ↦ rw e refl
]

pub sort-owed :
    (w : ℕ) (rs : List RequestProperties) (is : List ℕ) → owed w rs (sort_greater is) ≡ owed w rs is
unfolding sort_greater
sort-owed w rs [] = refl
sort-owed w rs (i ∷ is) =
    insert-owed w rs i (sort_greater is)
    ∙ ap (λ n. one_at w (get_elem? rs i) + n) (sort-owed w rs is)

insert-length : (i : ℕ) (js : List ℕ) → length (insert_greater i js) ≡ suc (length js)
unfolding insert_greater
insert-length i [] = refl
insert-length i (j ∷ js) = elim (Bool-cases (ltb i j)) [
  | inl e ↦ rw (e, insert-length i js) refl
  | inr e ↦ rw e refl
]

pub length-sort : (is : List ℕ) → length (sort_greater is) ≡ length is
unfolding sort_greater
length-sort [] = refl
length-sort (i ∷ is) = insert-length i (sort_greater is) ∙ ap suc (length-sort is)

insert-listed : (k i : ℕ) (js : List ℕ) → listed k (insert_greater i js) ≡ listed k (i ∷ js)
unfolding insert_greater
insert-listed k i [] = refl
insert-listed k i (j ∷ js) = elim (Bool-cases (ltb i j)) [
  | inl e ↦ rw (e, insert-listed k i js) (swap (i == k) (j == k) (listed k js))
  | inr e ↦ rw e refl
]
  where
    swap :
        (a b c : Bool)
        → (if b then true else if a then true else c) ≡ (if a then true else if b then true else c)
    swap true true c = refl
    swap true false c = refl
    swap false b c = refl

sort-listed : (k : ℕ) (is : List ℕ) → listed k (sort_greater is) ≡ listed k is
unfolding sort_greater
sort-listed k [] = refl
sort-listed k (i ∷ is) =
    insert-listed k i (sort_greater is) ∙ ap (λ b. if i == k then true else b) (sort-listed k is)

pub sort-without :
    (is : List ℕ) (k : ℕ) (rs : List RequestProperties)
    → without (sort_greater is) k rs ≡ without is k rs
sort-without is k [] = refl
sort-without is k (r ∷ rs) = rw (sort-listed k is, sort-without is (k + 1) rs) refl

not_listed : (k : ℕ) (is : List ℕ) → All (λ j. j < k) is → listed k is ≡ false
not_listed k [] a = refl
not_listed k (j ∷ js) a =
    let e : (j == k) ≡ false = (let h = a.0 in ground (arith, h)) in rw e (not_listed k js a.1)

-- No index is as large as the numbers.
without-none :
    (is : List ℕ) (k : ℕ) (rs : List RequestProperties) → All (λ j. j < k) is → without is k rs ≡ rs
without-none is k [] a = refl
without-none is k (r ∷ rs) a =
    rw (not_listed k is a)
      (ap (λ t. r ∷ t) (without-none is (k + 1) rs (All-imply (λ j h. omega (arith, h)) is a)))

-- The list `ys` is `xs` without its element `i`.
pub record Without (P : RequestProperties → Type 0) (i : ℕ) (xs ys : List RequestProperties)
    : Type 0 where
  pub shorter : length xs ≡ suc (length ys)
  pub counted : (w : ℕ) → count w ys + one_at w (get_elem? xs i) ≡ count w xs
  pub before : (j : ℕ) → j < i → get_elem? ys j ≡ get_elem? xs j
  pub rest :
      (k : ℕ) (is : List ℕ)
      → All (λ j. j < k + i) is
      → without is k ys ≡ without ((k + i) ∷ is) k xs
  pub kept : All P xs → All P ys

erase-Without :
    (P : RequestProperties → Type 0) (i : ℕ) (xs : List RequestProperties)
    → i < length xs
    → Returns (Without P i xs) (erase i xs)
unfolding erase
erase-Without P i [] h = absurd (ground (h, arith))
erase-Without P zero (x ∷ xs) h = record {
  shorter = refl;
  counted = λ w. omega arith;
  before = λ j l. absurd (ground (l, arith));
  rest = λ k is a.
      (let b : All (λ j. j < k) is = All-imply (λ j h. omega (arith, h)) is a in
        let e : (k + 0 == k) ≡ true = ground arith in
        without-none is k xs b
        ∙ sym (
            rw e (
              without-none ((k + 0) ∷ is) (k + 1) xs
                ((omega arith), All-imply (λ j h. omega (arith, h)) is b))));
  kept = λ a. a.1;
}
erase-Without P (suc i) (x ∷ xs) h =
    Returns-bind (Without P i xs) (Without P (suc i) (x ∷ xs)) (erase i xs) (λ ys. some (x ∷ ys))
      (erase-Without P i xs (ground (h, arith)))
      (λ ys g. record {
        shorter = ap suc g.shorter;
        counted = λ w. omega (arith, g.counted w);
        before = λ j l. head_or j ys l g.before;
        rest =
            λ k is a. later k is ys (g.rest (k + 1) is (All-imply (λ j h. omega (arith, h)) is a));
        kept = λ a. (a.0, g.kept a.1);
      })
  where
    later :
        (k : ℕ) (is : List ℕ) (ys : List RequestProperties)
        → without is (k + 1) ys ≡ without ((k + 1 + i) ∷ is) (k + 1) xs
        → without is k (x ∷ ys) ≡ without ((k + suc i) ∷ is) k (x ∷ xs)
    later k is ys e =
        let n : (k + suc i == k) ≡ false = ground arith in
        let q : without is (k + 1) ys ≡ without ((k + suc i) ∷ is) (k + 1) xs =
          e ∙ ap (λ m. without (m ∷ is) (k + 1) xs) (omega arith) in
        rw (n, q) refl

    head_or :
        (j : ℕ) (ys : List RequestProperties)
        → j < suc i
        → ((j : ℕ) → j < i → get_elem? ys j ≡ get_elem? xs j)
        → get_elem? (x ∷ ys) j ≡ get_elem? (x ∷ xs) j
    head_or zero ys l b = refl
    head_or (suc j) ys l b = b j (ground (l, arith))

owed-same :
    (w : ℕ) (xs ys : List RequestProperties) (i : ℕ) (is : List ℕ)
    → ((j : ℕ) → j < i → get_elem? ys j ≡ get_elem? xs j)
    → All (λ j. j < i) is
    → owed w ys is ≡ owed w xs is
owed-same w xs ys i [] b a = refl
owed-same w xs ys i (j ∷ js) b a = rw (b j a.0, owed-same w xs ys i js b a.1) refl

-- The list `ys` is `xs` without the elements at the indices `is`.
pub record Left (P : RequestProperties → Type 0) (is : List ℕ) (xs ys : List RequestProperties)
    : Type 0 where
  pub shorter : length xs ≡ length is + length ys
  pub counted : (w : ℕ) → count w ys + owed w xs is ≡ count w xs
  pub kept : All P xs → All P ys
  pub rest : ys ≡ without is 0 xs

-- The erasure at descending indices finds every element at the place that its index names.
pub erase_all-Left :
    (P : RequestProperties → Type 0) (is : List ℕ) (xs : List RequestProperties)
    → Descending is
    → All (λ i. i < length xs) is
    → Returns (Left P is xs) (erase_all is xs)
unfolding erase_all
erase_all-Left P [] xs d a = record {
  shorter = omega arith;
  counted = λ w. omega arith;
  kept = λ h. h;
  rest = sym (without-none [] 0 xs tt);
}
erase_all-Left P (i ∷ is) xs d a =
    Returns-bind (Without P i xs) (Left P (i ∷ is) xs) (erase i xs) (λ ys. erase_all is ys)
      (erase-Without P i xs a.0)
      (λ ys g.
        Returns-map (Left P is ys) (Left P (i ∷ is) xs) (erase_all is ys)
          (λ zs l. record {
            shorter = omega (arith, g.shorter, l.shorter);
            counted =
                λ w. omega (arith, g.counted w, l.counted w, owed-same w xs ys i is g.before d.0);
            kept = λ h. l.kept (g.kept h);
            rest =
                l.rest
                ∙ g.rest 0 is (All-imply (λ j h. omega (arith, h)) is d.0)
                ∙ ap (λ m. without (m ∷ is) 0 xs) (omega arith);
          })
          (erase_all-Left P is ys d.1 (All-imply (λ j h. omega (arith, h, a.0, g.shorter)) is d.0)))
