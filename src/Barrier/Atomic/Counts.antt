-- ===== src/Barrier/Atomic/Counts.antt =====
-- library/src/gpu_ib/gpu_ib_gpu_coll.cpp: the count of an atomic barrier is the number of PEs that
-- have come.
use roc_shmem.Common.{
  ℕ, zero, suc, ◌+◌, ◌-◌, ◌<◌, ◌≤◌, ◌≡◌, false, refl, sym, ap, ◌∙◌, arith, inl, inr, if◌then◌else◌,
  ◌==◌, Bool-cases, sum, ltb, ltb→lt,
}

-- What a PE counts that has entered `e` times, where `c` arrivals of each have been taken.
abbrev pub pending : ℕ → ℕ → ℕ → ℕ
pending c i e = if i == 0 then 0 else e - c

module _ (c : ℕ) (entered : ℕ → ℕ) where
  -- Each PE counts at most once.
  pub sum_bounded :
      (n : ℕ) → ((i : ℕ) → 0 < i → i < n → entered i ≤ c + 1) → sum (pending c) n entered ≤ n - 1
  sum_bounded zero h = omega arith
  sum_bounded (suc zero) h = omega arith
  sum_bounded (suc (suc n)) h =
      let r = sum_bounded (suc n) (λ i z l. h i z (omega (arith, l))) in
      let e = h (suc n) (omega arith) (omega arith) in
      let f : (suc n == 0) ≡ false = ground arith in rw f (omega (arith, r, e))

  -- Where all have come, each has.
  pub sum_full :
      (n : ℕ)
      → ((i : ℕ) → 0 < i → i < n → entered i ≤ c + 1)
      → n - 1 ≤ sum (pending c) n entered
      → (i : ℕ) → 0 < i
      → i < n
      → entered i ≡ c + 1
  sum_full zero h full i z l = absurd (omega (arith, l))
  sum_full (suc zero) h full i z l = absurd (omega (arith, l, z))
  sum_full (suc (suc n)) h full i z l =
      let f : (suc n == 0) ≡ false = ground arith in
      let b = sum_bounded (suc n) (λ i z l. h i z (omega (arith, l))) in
      let e = h (suc n) (omega arith) (omega arith) in
      let g : suc (suc n) - 1 ≤ entered (suc n) - c + sum (pending c) (suc n) entered =
        rw f at full in
      elim (Bool-cases (ltb i (suc n))) [
        | inl lt ↦
            sum_full (suc n) (λ i z l. h i z (omega (arith, l))) (omega (arith, g, e)) i z
              (ltb→lt _ _ lt)
        | inr ge ↦
            (let q : suc n ≡ i = ground (arith, ge, l) in
              ap entered (sym q) ∙ omega (arith, g, b, e))
      ]

  pub sum_empty :
      (n : ℕ) → ((i : ℕ) → 0 < i → i < n → entered i ≤ c) → sum (pending c) n entered ≡ 0
  sum_empty zero h = refl
  sum_empty (suc n) h =
      let r = sum_empty n (λ i z l. h i z (omega (arith, l))) in
      elim (Bool-cases (n == 0)) [
        | inl t ↦ rw t (omega (arith, r))
        | inr f ↦ (let e = h n (ground (arith, f)) (omega arith) in rw f (omega (arith, r, e)))
      ]
