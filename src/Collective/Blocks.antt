-- ===== src/Collective/Blocks.antt =====
-- The arithmetic of ranks by cluster and position, and of buffers in blocks.
use native.Mathlib.Nat.{
  div-lt_iff_lt-mul, div-add-mod', add-mul-div_right, add-mul-mod_self_right, mul-le-mul_right,
  div-eq_of_lt, mod-eq_of_lt,
}
use roc_shmem.Common.{
  ℕ, ◌+◌, ◌-◌, ◌*◌, ◌/◌, ◌%◌, ◌<◌, ◌≤◌, ◌≡◌, ◌≢◌, refl, sym, ◌∙◌, subst, arith, true, false,
  Bool-cases, inl, inr, ◌⊎◌, leb, ltb, ltb→lt,
}
use roc_shmem.Collective.{copy}

pub pair-div : (k c size : ℕ) → c < size → (c + k * size) / size ≡ k
pair-div k c size h =
    let e = add-mul-div_right c k {z = size} (omega (arith, h)) in
    let z : c / size ≡ 0 = div-eq_of_lt h in omega (arith, e, z)

pub pair-mod : (k c size : ℕ) → c < size → (c + k * size) % size ≡ c
pair-mod k c size h = add-mul-mod_self_right c k size ∙ mod-eq_of_lt h

-- The block that ends at `k * b` is before the one that begins there.
pub block_before : (i k b : ℕ) → i < k → i * b + b ≤ k * b
block_before i k b h =
    let m : (i + 1) * b ≤ k * b = mul-le-mul_right b (omega (arith, h)) in
    let e : (i + 1) * b ≡ i * b + b = grind arith in omega (arith, m, e)

-- Offsets in two blocks differ.
pub blocks_apart : (i k b u : ℕ) → i ≢ k → u < b → (i * b + u < k * b) ⊎ (k * b + b ≤ i * b + u)
blocks_apart i k b u n h = elim (Bool-cases (ltb i k)) [
  | inl lt ↦ (let m = block_before i k b (ltb→lt _ _ lt) in inl (omega (arith, m, h)))
  | inr ge ↦ (let m = block_before k i b (ground (arith, ge, n)) in inr (omega (arith, m, h)))
]

module _ (from : ℕ → ℕ) (offset len : ℕ) (to : ℕ → ℕ) (at : ℕ) where
  pub copy_inside : (u : ℕ) → u < len → copy from offset len to at (at + u) ≡ from (offset + u)
  unfolding copy
  copy_inside u h =
      let a : leb at (at + u) ≡ true = ground arith in
      let b : ltb (at + u) (at + len) ≡ true = ground (arith, h) in
      let e : at + u - at ≡ u = omega arith in rw (a, b, e) refl

  pub copy_outside : (j : ℕ) → (j < at) ⊎ (at + len ≤ j) → copy from offset len to at j ≡ to j
  unfolding copy
  copy_outside j (inl h) = let a : leb at j ≡ false = ground (arith, h) in rw a refl
  copy_outside j (inr h) =
      let b : ltb j (at + len) ≡ false = ground (arith, h) in
      elim (Bool-cases (leb at j)) [ inl a ↦ rw (a, b) refl | inr a ↦ rw a refl ]

-- The ranks of the cluster of a rank.
pub cluster_inside :
    (p k nc size n : ℕ) → nc * size ≡ n → p < n → k < size → p / size * size + k < n
cluster_inside p k nc size n e h l =
    let z : 0 < size = omega (arith, l) in
    let q : p / size < nc =
      (div-lt_iff_lt-mul {k = size} {x = p} {y = nc} z).1 (subst (λ n. p < n) (sym e) h) in
    let m = block_before (p / size) nc size q in omega (arith, m, e, l)

-- A rank is the sum of its place in the cluster and the ranks of the clusters before.
pub rank_place : (p size : ℕ) → p % size + p / size * size ≡ p
rank_place p size = let d = div-add-mod' p size in omega (arith, d)
