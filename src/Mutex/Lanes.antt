-- ===== src/Mutex/Lanes.antt =====
-- library/src/device_mutex.cpp: the numbers of the active lanes. A bit vector is the function from
-- the positions of its 64 bits.
use roc_shmem.Common.{
  ℕ, zero, suc, ◌+◌, ◌-◌, ◌<◌, ◌≤◌, ◌≡◌, refl, ap, ◌∙◌, subst, arith, inl, inr, Bool, true, false,
  not, ◌&&◌, if◌then◌else◌, ltb, Bool-cases, sum,
}

abbrev pub bit : ℕ → Bool → ℕ
bit j b = if b then 1 else 0

-- `__popcll`.
abbrev pub popcll : (ℕ → Bool) → ℕ
popcll = sum bit 64

-- The ballot of the active lanes is an argument.
unfoldable pub number_active_lanes : (ℕ → Bool) → ℕ
number_active_lanes ballot = popcll ballot

unfoldable pub active_logical_lane_id : (ℕ → Bool) → ℕ → ℕ
active_logical_lane_id ballot my_physical_lane_id =
    let lane_mask : ℕ → Bool = λ j. not (ltb j my_physical_lane_id) in
    let inverted_mask : ℕ → Bool = λ j. not (lane_mask j) in
    let lower_active_lanes : ℕ → Bool = λ j. ballot j && inverted_mask j in
    popcll lower_active_lanes

module _ (ballot : ℕ → Bool) where
  -- The bits below the lane.
  abbrev lower : ℕ → ℕ → Bool
  lower lane j = ballot j && not (not (ltb j lane))

  lower_all : (lane n : ℕ) → n ≤ lane → sum bit n (lower lane) ≡ sum bit n ballot
  lower_all lane zero h = refl
  lower_all lane (suc n) h =
      let t : ltb n lane ≡ true = ground (arith, h) in
      let r = lower_all lane n (omega (arith, h)) in
      elim (Bool-cases (ballot n)) [
        | inl on ↦ rw (on, t) (omega (arith, r))
        | inr off ↦ rw off (omega (arith, r))
      ]

  lower_first : (lane more : ℕ) → sum bit (more + lane) (lower lane) ≡ sum bit lane ballot
  lower_first lane zero =
      let e : zero + lane ≡ lane = omega arith in
      ap (λ n. sum bit n (lower lane)) e ∙ lower_all lane lane (omega arith)
  lower_first lane (suc more) =
      let e : suc more + lane ≡ suc (more + lane) = omega arith in
      let f : ltb (more + lane) lane ≡ false = ground arith in
      let r = lower_first lane more in
      ap (λ n. sum bit n (lower lane)) e ∙ (elim (Bool-cases (ballot (more + lane))) [
        | inl on ↦ rw (on, f) (omega (arith, r))
        | inr off ↦ rw off (omega (arith, r))
      ])

  -- The number of a lane is the count of the active lanes below it.
  active_logical_lane_id-sum :
      (lane : ℕ) → lane ≤ 64 → active_logical_lane_id ballot lane ≡ sum bit lane ballot
  unfolding active_logical_lane_id
  active_logical_lane_id-sum lane h =
      let e : 64 ≡ (64 - lane) + lane = omega (arith, h) in
      ap (λ n. sum bit n (lower lane)) e ∙ lower_first lane (64 - lane)

  sum_grows : (a more : ℕ) → ballot a ≡ true → sum bit a ballot + 1 ≤ sum bit (more + suc a) ballot
  sum_grows a zero on =
      let e : suc a ≡ zero + suc a = omega arith in
      subst (λ n. sum bit a ballot + 1 ≤ sum bit n ballot) e (rw on (omega arith))
  sum_grows a (suc more) on =
      let e : suc (more + suc a) ≡ suc more + suc a = omega arith in
      let r = sum_grows a more on in
      subst (λ n. sum bit a ballot + 1 ≤ sum bit n ballot) e (omega (arith, r))

  ordered : (a b : ℕ) → a < b → ballot a ≡ true → sum bit a ballot < sum bit b ballot
  ordered a b h on =
      let e : b - suc a + suc a ≡ b = omega (arith, h) in
      let r = subst (λ n. sum bit a ballot + 1 ≤ sum bit n ballot) e (sum_grows a (b - suc a) on) in
      omega (arith, r)

  -- For every ballot, the logical numbers of the active lanes below 64 rise with the lanes and
  -- are below the number of active lanes.
  pub active_logical_lane_id_ordered :
      ((a b : ℕ)
        → a < b
        → b < 64
        → ballot a ≡ true
        → active_logical_lane_id ballot a < active_logical_lane_id ballot b)
      × ((a : ℕ)
          → a < 64
          → ballot a ≡ true
          → active_logical_lane_id ballot a < number_active_lanes ballot)
  unfolding number_active_lanes
  active_logical_lane_id_ordered = (
    λ a b h l on.
        let p = active_logical_lane_id-sum a (omega (arith, h, l)) in
        let q = active_logical_lane_id-sum b (omega (arith, l)) in
        let r = ordered a b h on in omega (arith, p, q, r),
    λ a l on.
        let p = active_logical_lane_id-sum a (omega (arith, l)) in
        let r = ordered a 64 l on in omega (arith, p, r),
  )
