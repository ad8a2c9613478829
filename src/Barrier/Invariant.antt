-- ===== src/Barrier/Invariant.antt =====
-- library/src/gpu_ib/gpu_ib_gpu_coll.cpp: where the flags of a direct barrier are.
use native.Mathlib.Nat.{mul-le-mul_right, mul-div_left}
use roc_shmem.Common.{
  ℕ, ◌+◌, ◌-◌, ◌*◌, ◌/◌, ◌<◌, ◌≤◌, ◌≡◌, ◌≢◌, refl, sym, ap, ◌∙◌, arith, ◌⊎◌, inl, inr, equal,
  Bool-cases, ltb, ◌==◌, if◌then◌else◌,
}
use roc_shmem.Barrier.{Triplet, member, Stage, outside, waiting, announcing, System, write}

-- The flags that the first PE has taken from the PE at an offset, and the announcements that it has
-- sent there, after it has left `r` barriers.
abbrev pub collected : ℕ → Stage → ℕ → ℕ
collected r outside i = r
collected r (waiting k) i = if ltb i k then r + 1 else r
collected r (announcing k) i = r + 1

abbrev pub announced : ℕ → Stage → ℕ → ℕ
announced r outside i = r
announced r (waiting k) i = r
announced r (announcing k) i = if ltb i k then r + 1 else r

abbrev pub inside : Stage → ℕ
inside outside = 0
inside (waiting k) = 1
inside (announcing k) = 1

-- The arithmetic of one PE at offset `i` after the first: a flag is in one place at a time.
pub record Balanced (r : ℕ) (stage : Stage) (i : ℕ)
    (flag flag_flying answer answer_flying entered left : ℕ) : Type 0 where
  pub arrivals : entered ≡ collected r stage i + flag + flag_flying
  pub answers : announced r stage i ≡ left + answer + answer_flying
  pub once : left ≤ entered
  pub at_most : entered ≤ left + 1

pub record Inv (t : Triplet) (s : System) : Type 0 where
  pub others :
      (i : ℕ)
      → 0 < i
      → i < t.n_pes
      → Balanced
          (s.left t.pe_start)
          s.stage
          i
          (s.psync t.pe_start i)
          (s.flying t.pe_start i)
          (s.psync (member t i) 0)
          (s.flying (member t i) 0)
          (s.entered (member t i))
          (s.left (member t i))
  pub root : s.entered t.pe_start ≡ s.left t.pe_start + inside s.stage

module _ (t : Triplet) (apart : 0 < t.stride) where
  pub not_root : (i : ℕ) → 0 < i → t.pe_start ≢ member t i
  not_root i h e =
      let m : 1 * t.stride ≤ i * t.stride = mul-le-mul_right t.stride h in
      omega (arith, m, e, apart)

  pub offset_of : (i : ℕ) → (member t i - t.pe_start) / t.stride ≡ i
  offset_of i =
      let e : member t i - t.pe_start ≡ i * t.stride = omega arith in
      ap (λ x. x / t.stride) e ∙ mul-div_left i apart

  pub member_injective : (i j : ℕ) → member t i ≡ member t j → i ≡ j
  member_injective i j e = sym (offset_of i) ∙ ap (λ x. (x - t.pe_start) / t.stride) e ∙ offset_of j

-- A place of an array after a write.
pub write-cases :
    (m : ℕ → ℕ → ℕ) (pe at v pe' at' : ℕ)
    → ((pe ≡ pe') × (at ≡ at') × (write m pe at v pe' at' ≡ v))
      ⊎ (((pe ≢ pe') ⊎ (at ≢ at')) × (write m pe at v pe' at' ≡ m pe' at'))
write-cases m pe at v pe' at' = elim (Bool-cases (pe == pe')) [
  | inr other ↦ inr (inl (λ e. ground (arith, other, e)), rw other refl)
  | inl same ↦
      (let e : pe ≡ pe' = ground (arith, same) in
        elim (Bool-cases (at == at')) [
          | inl here ↦ inl (e, ground (arith, here), rw (same, here) refl)
          | inr there ↦
              inr (inr (λ q. ground (arith, there, q)), rw (same, there) (ap (λ p. m p at') e))
        ])
]

pub write_here : (m : ℕ → ℕ → ℕ) (pe at v : ℕ) → write m pe at v pe at ≡ v
write_here m pe at v = rw (equal pe, equal at) refl

pub write_elsewhere :
    (m : ℕ → ℕ → ℕ) (pe at v pe' at' : ℕ)
    → (pe ≢ pe') ⊎ (at ≢ at')
    → write m pe at v pe' at' ≡ m pe' at'
write_elsewhere m pe at v pe' at' n = elim (write-cases m pe at v pe' at') [
  | inr (o, e) ↦ e
  | inl (a, b, e) ↦ absurd (elim n [ inl n ↦ n a | inr n ↦ n b ])
]
