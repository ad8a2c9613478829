-- ===== src/TeamPool/Bits.antt =====
-- library/src/gpu_ib/backend_ib.cpp: the bits of the masks and the search for one that is set.
use native.Mathlib.Nat.{div-add-mod'}
use roc_shmem.Common.{
  ℕ, zero, suc, ◌+◌, ◌/◌, ◌%◌, ◌<◌, ◌≤◌, ◌≡◌, ◌≢◌, refl, ap, ◌∙◌, subst, arith, ◌⊎◌, inl, inr, Bool,
  true, false, not, ◌||◌, ltb, ltb→lt, ◌==◌, Bool-cases, Option, none, some, equal,
  update_elsewhere,
}
use roc_shmem.TeamPool.{
  Bitmask, get_bit, set_bit, ls_non_zero_from, get_ls_non_zero_bit, set_from, reduced_bitmask,
  create_new_team, mark,
}

pub get_bit-set_bit : (m : Bitmask) (i : ℕ) (v : Bool) → get_bit (set_bit m i v) i ≡ v
unfolding get_bit set_bit
get_bit-set_bit m i v = rw (equal (i / 8), equal (i % 8)) refl

pub get_bit-set_bit_elsewhere :
    (m : Bitmask) (i j : ℕ) (v : Bool) → i ≢ j → get_bit (set_bit m i v) j ≡ get_bit m j
unfolding get_bit set_bit
get_bit-set_bit_elsewhere m i j v n = elim (Bool-cases (i / 8 == j / 8)) [
  | inr other ↦ rw other refl
  | inl same ↦
      (let q : i / 8 ≡ j / 8 = ground (arith, same) in
        let c : i % 8 ≢ j % 8 = λ e.
          n (let a = div-add-mod' i 8 in let b = div-add-mod' j 8 in omega (arith, a, b, q, e)) in
        rw same (update_elsewhere (m (i / 8)) (i % 8) (j % 8) v c ∙ ap (λ b. m b (j % 8)) q))
]

-- What the search finds.
Searched : Bitmask → ℕ → ℕ → Option ℕ → Type 0
Searched m i left none = (j : ℕ) → i ≤ j → j < i + left → get_bit m j ≡ false
Searched m i left (some k) = (i ≤ k) × (k < i + left) × (get_bit m k ≡ true)

ls_non_zero_from-Searched :
    (i left : ℕ) (m : Bitmask) → Searched m i left (ls_non_zero_from i left m)
unfolding Searched ls_non_zero_from
ls_non_zero_from-Searched i zero m = λ j h l. absurd (omega (arith, h, l))
ls_non_zero_from-Searched i (suc left) m = elim (Bool-cases (get_bit m i)) [
  | inl set ↦ rw set (omega arith, omega arith, set)
  | inr clear ↦
      rw clear
        (later (ls_non_zero_from (i + 1) left m) clear (ls_non_zero_from-Searched (i + 1) left m))
]
  where
    later :
        (r : Option ℕ) → get_bit m i ≡ false → Searched m (i + 1) left r → Searched m i (suc left) r
    later none c f = λ j h l. elim (Bool-cases (j == i)) [
      | inl e ↦ (let q : i ≡ j = ground (arith, e) in subst (λ j. get_bit m j ≡ false) q c)
      | inr n ↦ f j (ground (arith, n, h)) (omega (arith, l))
    ]
    later (some k) c (a, b, e) = (omega (arith, a), omega (arith, b), e)

-- A bit of the reduced mask is set just where it is on every PE of the team.
reduced_set :
    (n : ℕ) (member : ℕ → Bool) (masks : ℕ → Bitmask) (byte bit : ℕ)
    → reduced_bitmask n member masks byte bit ≡ true
    → (pe : ℕ) → pe < n
    → member pe ≡ true
    → masks pe byte bit ≡ true
unfolding reduced_bitmask
reduced_set zero member masks byte bit h pe l m = absurd (omega (arith, l))
reduced_set (suc n) member masks byte bit h pe l m = elim (Bool-cases (ltb pe n)) [
  | inl lt ↦ reduced_set n member masks byte bit (ground (arith, h)) pe (ltb→lt _ _ lt) m
  | inr ge ↦
      (let q : n ≡ pe = ground (arith, ge, l) in
        let k : member n ≡ true = ap member q ∙ m in
        let g : masks n byte bit ≡ true = ground (arith, h, k) in
        subst (λ pe. masks pe byte bit ≡ true) q g)
]

reduced_clear :
    (n : ℕ) (member : ℕ → Bool) (masks : ℕ → Bitmask) (byte bit : ℕ)
    → reduced_bitmask n member masks byte bit ≡ false
    → (pe : ℕ) × (pe < n) × (member pe ≡ true) × (masks pe byte bit ≡ false)
unfolding reduced_bitmask
reduced_clear zero member masks byte bit h = absurd (ground (arith, h))
reduced_clear (suc n) member masks byte bit h =
    elim (Bool-cases (not (member n) || masks n byte bit)) [
      | inr here ↦ (n, omega arith, ground (arith, here), ground (arith, here))
      | inl there ↦
          (let (pe, l, m, c) = reduced_clear n member masks byte bit (ground (arith, h, there)) in
            (pe, omega (arith, l), m, c))
    ]

-- What `create_new_team` gives.
unfoldable pub Created : ℕ → ℕ → (ℕ → Bool) → (ℕ → Bitmask) → Option ℕ → Type 0
Created num_pes max member masks none =
    (i : ℕ)
    → i < max
    → (pe : ℕ) × (pe < num_pes) × (member pe ≡ true) × (get_bit (masks pe) i ≡ false)
Created num_pes max member masks (some i) =
    (i < max) × ((pe : ℕ) → pe < num_pes → member pe ≡ true → get_bit (masks pe) i ≡ true)

by_search :
    (num_pes max : ℕ) (member : ℕ → Bool) (masks : ℕ → Bitmask) (r : Option ℕ)
    → Searched (reduced_bitmask num_pes member masks) 0 max r
    → Created num_pes max member masks r
unfolding Searched Created get_bit
by_search num_pes max member masks none f =
    λ i l. reduced_clear num_pes member masks (i / 8) (i % 8) (f i (omega arith) (omega (arith, l)))
by_search num_pes max member masks (some k) (a, b, e) =
    (omega (arith, b), λ pe l m. reduced_set num_pes member masks (k / 8) (k % 8) e pe l m)

pub create_new_team-Created :
    (num_pes max : ℕ) (member : ℕ → Bool) (masks : ℕ → Bitmask)
    → Created num_pes max member masks (create_new_team num_pes max member masks)
unfolding create_new_team get_ls_non_zero_bit
create_new_team-Created num_pes max member masks =
    by_search num_pes max member masks
      (ls_non_zero_from 0 max (reduced_bitmask num_pes member masks))
      (ls_non_zero_from-Searched 0 max (reduced_bitmask num_pes member masks))

-- The bits that a loop sets, and the others.
set_from_set :
    (i left : ℕ) (m : Bitmask) (j : ℕ) → get_bit m j ≡ true → get_bit (set_from i left m) j ≡ true
unfolding set_from
set_from_set i zero m j h = h
set_from_set i (suc left) m j h =
    set_from_set (i + 1) left (set_bit m i true) j (elim (Bool-cases (i == j)) [
      | inl e ↦
          (let q : i ≡ j = ground (arith, e) in
            subst (λ j. get_bit (set_bit m i true) j ≡ true) q (get_bit-set_bit m i true))
      | inr e ↦ get_bit-set_bit_elsewhere m i j true (λ q. ground (arith, e, q)) ∙ h
    ])

pub get_bit-set_from :
    (i left : ℕ) (m : Bitmask) (j : ℕ) → i ≤ j → j < i + left → get_bit (set_from i left m) j ≡ true
unfolding set_from
get_bit-set_from i zero m j h l = absurd (omega (arith, h, l))
get_bit-set_from i (suc left) m j h l = elim (Bool-cases (i == j)) [
  | inl e ↦ set_from_set (i + 1) left (set_bit m i true) j (
      let q : i ≡ j = ground (arith, e) in
      subst (λ j. get_bit (set_bit m i true) j ≡ true) q (get_bit-set_bit m i true))
  | inr e ↦
      get_bit-set_from (i + 1) left (set_bit m i true) j (ground (arith, e, h)) (omega (arith, l))
]

pub get_bit-set_from_below :
    (i left : ℕ) (m : Bitmask) (j : ℕ) → j < i → get_bit (set_from i left m) j ≡ get_bit m j
unfolding set_from
get_bit-set_from_below i zero m j h = refl
get_bit-set_from_below i (suc left) m j h =
    get_bit-set_from_below (i + 1) left (set_bit m i true) j (omega (arith, h))
    ∙ get_bit-set_bit_elsewhere m i j true (λ q. omega (arith, q, h))

-- A bit of a PE after a team has marked it.
pub mark-cases :
    (member : ℕ → Bool) (i : ℕ) (v : Bool) (masks : ℕ → Bitmask) (pe j : ℕ)
    → ((member pe ≡ true) × (i ≡ j) × (get_bit (mark member i v masks pe) j ≡ v))
      ⊎ (((member pe ≡ false) ⊎ (i ≢ j))
          × (get_bit (mark member i v masks pe) j ≡ get_bit (masks pe) j))
unfolding mark
mark-cases member i v masks pe j = elim (Bool-cases (member pe)) [
  | inr out ↦ inr (inl out, rw out refl)
  | inl into ↦ elim (Bool-cases (i == j)) [
    | inl e ↦
        (let q : i ≡ j = ground (arith, e) in
          inl (
            into,
            q,
            rw into (
                subst (λ j. get_bit (set_bit (masks pe) i v) j ≡ v) q
                  (get_bit-set_bit (masks pe) i v)),
          ))
    | inr e ↦
        (let n : i ≢ j = λ q. ground (arith, e, q) in
          inr (inr n, rw into (get_bit-set_bit_elsewhere (masks pe) i j v n)))
  ]
]
