-- ===== src/Memory/Binner/Bits.antt =====
-- library/src/memory/binner.hpp: the position of the highest bit of a value.
use roc_shmem.Common.{
  ℕ, zero, suc, ◌-◌, ◌^◌, ◌≤◌, ◌<◌, ◌≡◌, subst, inl, inr, false, arith, leb, Bool-cases, ◌==◌,
}
use roc_shmem.Memory.Binner.{clz_fn, find_first_set_one}

-- The bits below the leading zeroes are those of the value.
record Width (width v z : ℕ) : Type 0 where
  few : z < width
  above : v < 2 ^ (width - z)
  below : 2 ^ (width - z - 1) ≤ v

Width-high : (width v : ℕ) → v < 2 ^ suc width → 2 ^ width ≤ v → Width (suc width) v 0
Width-high width v lt le = record {
  few = omega arith;
  above = subst (λ n. v < 2 ^ n) (omega arith) lt;
  below = subst (λ n. 2 ^ n ≤ v) (omega arith) le;
}

Width-low : (width v z : ℕ) → Width width v z → Width (suc width) v (suc z)
Width-low width v z w = record {
  few = omega (arith, w.few);
  above = subst (λ n. v < 2 ^ n) (omega arith) w.above;
  below = subst (λ n. 2 ^ n ≤ v) (omega arith) w.below;
}

clz_fn-Width : (width v : ℕ) → 0 < v → v < 2 ^ width → Width width v (clz_fn width v)
unfolding clz_fn
clz_fn-Width zero v pos lt = absurd (omega arith)
clz_fn-Width (suc width) v pos lt = elim (Bool-cases (leb (2 ^ width) v)) [
  | inl high ↦ rw high (Width-high width v lt (ground arith))
  | inr low ↦ rw low (Width-low width v _ (clz_fn-Width width v pos (ground arith)))
]

-- For a value from 1 to below 2 ^ width, `find_first_set_one` returns the position of its highest
-- one bit.
pub find_first_set_one_bounds :
    (width v : ℕ)
    → 0 < v
    → v < 2 ^ width
    → (find_first_set_one width v < width)
      × (2 ^ find_first_set_one width v ≤ v)
      × (v < 2 ^ suc (find_first_set_one width v))
unfolding find_first_set_one
find_first_set_one_bounds width v pos lt =
    rw (positive v pos)
      (omega (arith, w.few), w.below, subst (λ n. v < 2 ^ n) (same_width w.few) w.above)
  where
    w : Width width v (clz_fn width v)
    w = clz_fn-Width width v pos lt

    positive : (v : ℕ) → 0 < v → (v == 0) ≡ false
    positive v h = ground arith

    same_width : {z : ℕ} → z < width → width - z ≡ suc (width - z - 1)
    same_width h = omega arith
