-- ===== src/Wavefront/Runs.antt =====
-- library/src/wf_coal_policy.cpp: the run of lanes that a sender answers for.
use roc_shmem.Common.{
  ℕ, zero, suc, ◌+◌, ◌^◌, ◌<◌, ◌≤◌, ◌≡◌, sym, ap, ◌∙◌, inl, inr, Bool, true, false, ◌==◌,
  Bool-cases, arith,
}
use roc_shmem.Wavefront.{recombine, first_clear, through_int}

pub first_clear_lem :
    (left j r : ℕ) (bits : ℕ → Bool)
    → ((i : ℕ) → j ≤ i → i < r → bits i ≡ true)
    → bits r ≡ false
    → j ≤ r
    → r < j + left
    → first_clear left j bits ≡ r + 1
unfolding first_clear
first_clear_lem zero j r bits ones clear le lt = absurd (omega (arith, le, lt))
first_clear_lem (suc left) j r bits ones clear le lt = elim (Bool-cases (bits j)) [
  | inl on ↦ rw on (
      first_clear_lem left (j + 1) r bits (λ i h k. ones i (omega (arith, h)) k) clear
        (elim (Bool-cases (j == r)) [
          | inl same ↦ absurd (
              let q : j ≡ r = ground (arith, same) in
              let c : true ≡ false = sym on ∙ ap bits q ∙ clear in cc)
          | inr other ↦ ground (arith, le, other)
        ])
        (omega (arith, lt)))
  | inr off ↦ rw off (elim (Bool-cases (j == r)) [
    | inl same ↦ ground (arith, same)
    | inr other ↦
        absurd (
          let c : true ≡ false = sym (ones j (omega arith) (ground (arith, le, other))) ∙ off in cc)
  ])
]

-- The first clear bit, which there is when some bit is clear.
pub record Run (bits : ℕ → Bool) (r : ℕ) : Type 0 where
  pub ones : (i : ℕ) → i < r → bits i ≡ true
  pub clear : bits r ≡ false

pub run_below : (n : ℕ) (bits : ℕ → Bool) → bits n ≡ false → (r : ℕ) × (r ≤ n) × Run bits r
run_below zero bits h =
    (0, omega arith, record { ones = λ i l. absurd (omega (arith, l)); clear = h })
run_below (suc n) bits h = elim (Bool-cases (bits zero)) [
  | inr off ↦ (0, omega arith, record { ones = λ i l. absurd (omega (arith, l)); clear = off })
  | inl on ↦
      (let (r, le, run) = run_below n (λ i. bits (suc i)) h in
        (suc r, omega (arith, le), record { ones = all_ones on run.ones; clear = run.clear }))
]
  where
    all_ones :
        {r : ℕ}
        → bits zero ≡ true
        → ((i : ℕ) → i < r → bits (suc i) ≡ true)
        → (i : ℕ) → i < suc r
        → bits i ≡ true
    all_ones on h zero l = on
    all_ones on h (suc i) l = h i (omega (arith, l))

pub recombine_lem : (v : ℕ) → v < 2 ^ 64 → recombine v ≡ v
unfolding recombine
recombine_lem v h = omega (arith, h)

pub through_int_lem : (n : ℕ) → n < 2 ^ 31 → through_int n ≡ n
unfolding through_int
through_int_lem n h = ground (arith, h)
