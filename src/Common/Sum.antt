-- ===== src/Common/Sum.antt =====
-- Sums over the numbers below a bound of what each one counts.
use Prim.Native.Nat.{ℕ, zero, suc, ◌+◌, ◌<◌, ◌≤◌}
use mathlib.Core.Path.{◌≡◌, refl, ap}
use mathlib.Core.Logic.{inl, inr}
use mathlib.Core.Bool.{false}
use native.Mathlib.Omega.{arith}
use roc_shmem.Common.Tests.{◌==◌, unequal}
use roc_shmem.Common.Update.{update, update-cases}

module _ {A : Type 0} (count : ℕ → A → ℕ) where
  abbrev pub sum : ℕ → (ℕ → A) → ℕ
  sum zero f = 0
  sum (suc n) f = count n (f n) + sum n f

  sum_unchanged : (n : ℕ) (f : ℕ → A) (i : ℕ) (v : A) → n ≤ i → sum n (update f i v) ≡ sum n f
  sum_unchanged zero f i v h = refl
  sum_unchanged (suc n) f i v h =
      let q : (i == n) ≡ false = unequal i n (λ e. omega (arith, e, h)) in
      rw q (ap (λ m. count n (f n) + m) (sum_unchanged n f i v (omega (arith, h))))

  pub sum-update :
      (n : ℕ) (f : ℕ → A) (i : ℕ) (v : A)
      → i < n
      → sum n (update f i v) + count i (f i) ≡ sum n f + count i v
  sum-update zero f i v h = absurd (omega (arith, h))
  sum-update (suc n) f i v h = elim (update-cases f i v n) [
    | inl (e, k) ↦
        (let u = sum_unchanged n f i v (omega (arith, e)) in
          let a = ap (count n) k in
          let b : count i (f i) ≡ count n (f n) = ap (λ j. count j (f j)) e in
          let c : count i v ≡ count n v = ap (λ j. count j v) e in omega (arith, u, a, b, c))
    | inr (d, k) ↦
        (let r = sum-update n f i v (omega (arith, h, d)) in
          let a = ap (count n) k in omega (arith, r, a))
  ]
