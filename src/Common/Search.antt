-- ===== src/Common/Search.antt =====
-- A search among the numbers below a bound.
use Prim.Native.Nat.{ℕ, zero, suc, ◌<◌}
use mathlib.Core.Path.{◌≡◌, subst}
use mathlib.Core.Logic.{◌⊎◌, inl, inr}
use mathlib.Core.Bool.{Bool, true, false}
use native.Mathlib.Omega.{arith}
use roc_shmem.Common.Tests.{ltb, Bool-cases}

-- A test that holds of all numbers below a bound, or one that it fails for.
pub find_failure :
    (P : ℕ → Bool) (n : ℕ) → ((p : ℕ) → p < n → P p ≡ true) ⊎ ((p : ℕ) × (p < n) × (P p ≡ false))
find_failure P zero = inl (λ p l. absurd (omega (arith, l)))
find_failure P (suc n) = elim (find_failure P n) [
  | inr (p, l, f) ↦ inr (p, omega (arith, l), f)
  | inl all ↦ elim (Bool-cases (P n)) [
    | inr f ↦ inr (n, omega arith, f)
    | inl t ↦ inl (λ p l. elim (Bool-cases (ltb p n)) [
      | inl m ↦ all p (ground (arith, m))
      | inr m ↦ (let e : n ≡ p = ground (arith, m, l) in subst (λ p. P p ≡ true) e t)
    ])
  ]
]
