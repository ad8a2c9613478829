-- ===== src/Common/Update.antt =====
-- Functions from numbers that change at one place: arrays, and states by thread or by PE.
use Prim.Native.Nat.{ℕ}
use mathlib.Core.Path.{◌≡◌, refl}
use mathlib.Core.Logic.{◌≢◌, ◌⊎◌, inl, inr}
use mathlib.Core.Bool.{true}
use native.Mathlib.Omega.{arith}
use roc_shmem.Common.Tests.{◌==◌, if◌then◌else◌, Bool-cases}

abbrev pub update {ℓ} : {A : Type ℓ} → (ℕ → A) → ℕ → A → ℕ → A
update f i v j = if i == j then v else f j

pub equal : (n : ℕ) → (n == n) ≡ true
equal n = ground arith

pub update_elsewhere : {A : Type 0} (f : ℕ → A) (i j : ℕ) (v : A) → i ≢ j → update f i v j ≡ f j
update_elsewhere f i j v n = elim (Bool-cases (i == j)) [
  | inl same ↦ absurd (n (ground (arith, same)))
  | inr other ↦ rw other refl
]

pub update_same : {A : Type 0} (f : ℕ → A) (i : ℕ) (v : A) → update f i v i ≡ v
update_same f i v = rw (equal i) refl

-- What the function is after the change.
pub update-cases :
    {A : Type 0} (f : ℕ → A) (i : ℕ) (v : A) (j : ℕ)
    → ((i ≡ j) × (update f i v j ≡ v)) ⊎ ((i ≢ j) × (update f i v j ≡ f j))
update-cases f i v j = elim (Bool-cases (i == j)) [
  | inl same ↦ inl (ground (arith, same), rw same refl)
  | inr other ↦ inr (ground (arith, other), rw other refl)
]
