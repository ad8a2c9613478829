-- ===== src/Workgroup/Reserve.antt =====
-- library/src/wg_state.cpp: the search of `reserve_wg_buffers` ends.
use native.Mathlib.Nat.{mod-lt, mod-add-mod, mod-eq_of_lt, add-mod_right}
use roc_shmem.Common.{
  ℕ, zero, suc, ◌+◌, ◌-◌, ◌%◌, ◌<◌, ◌≡◌, refl, sym, ap, ◌∙◌, arith, inl, inr, if◌then◌else◌, ltb,
  ◌==◌, Bool-cases, true, false, ◌⊎◌, Option, none, some, update,
}

-- The tokens after `atomicCAS(&buffer_tokens[buffer_index], 0, 1)`, which gives the token before.
unfoldable pub compare_and_swap : (ℕ → ℕ) → ℕ → ℕ → ℕ
compare_and_swap tokens i = if tokens i == 0 then update tokens i 1 else tokens

-- `reserve_wg_buffers` where no other work-group comes in between, on fuel: the buffer that it
-- takes and the tokens after.
unfoldable pub probe : ℕ → ℕ → ℕ → (ℕ → ℕ) → Option (ℕ × (ℕ → ℕ))
unfolding compare_and_swap
probe zero num_buffers buffer_index tokens = none
probe (suc fuel) num_buffers buffer_index tokens =
    let rest = probe fuel num_buffers ((buffer_index + 1) % num_buffers) tokens in
    if tokens buffer_index == 1
    then rest
    else some (buffer_index, compare_and_swap tokens buffer_index)

unfoldable pub reserve_wg_buffers : ℕ → ℕ → (ℕ → ℕ) → Option (ℕ × (ℕ → ℕ))
unfolding probe
reserve_wg_buffers hw_wv_slot num_buffers tokens =
    probe num_buffers num_buffers (hw_wv_slot % num_buffers) tokens

module _ (n : ℕ) (tokens : ℕ → ℕ) (free : ℕ) (there : free < n) (clear : tokens free ≡ 0)
    (sound : (i : ℕ) → i < n → (tokens i ≡ 0) ⊎ (tokens i ≡ 1)) where
  -- What a search gives.
  abbrev pub Reserved : Option (ℕ × (ℕ → ℕ)) → Type 0
  Reserved r = (i : ℕ) × (i < n) × (tokens i ≡ 0) × (r ≡ some (i, update tokens i 1))

  probe-Reserved :
      (fuel d i : ℕ) → d < fuel → i < n → (i + d) % n ≡ free → Reserved (probe fuel n i tokens)
  unfolding probe compare_and_swap
  probe-Reserved zero d i h l e = absurd (omega (arith, h))
  probe-Reserved (suc fuel) zero i h l e =
      let q : i ≡ free = sym (mod-eq_of_lt l) ∙ ap (λ x. x % n) (omega arith) ∙ e in
      let z : tokens i ≡ 0 = ap tokens q ∙ clear in
      let f : (tokens i == 1) ≡ false = ground (arith, z) in
      let y : (tokens i == 0) ≡ true = ground (arith, z) in (i, l, z, rw (f, y) refl)
  probe-Reserved (suc fuel) (suc d) i h l e = elim (Bool-cases (tokens i == 1)) [
    | inr f ↦
        (let z : tokens i ≡ 0 = elim (sound i l) [
          | inl z ↦ z
          | inr o ↦ absurd (ground (arith, o, f))
        ] in
          let y : (tokens i == 0) ≡ true = ground (arith, z) in (i, l, z, rw (f, y) refl))
    | inl t ↦
        (let z : 0 < n = omega (arith, l) in
          let q : ((i + 1) % n + d) % n ≡ free =
            mod-add-mod (i + 1) n d ∙ ap (λ x. x % n) (omega arith) ∙ e in
          rw t (probe-Reserved fuel d ((i + 1) % n) (omega (arith, h)) (mod-lt (i + 1) z) q))
  ]

  -- Where each token is 0 or 1, the token of a buffer is 0 and no other work-group comes in
  -- between, `reserve_wg_buffers` ends within as many probes as there are buffers, from whichever
  -- slot, takes a buffer whose token was 0, and changes just that token, to 1.
  pub reserve_wg_buffers-Reserved :
      (hw_wv_slot : ℕ) → Reserved (reserve_wg_buffers hw_wv_slot n tokens)
  unfolding reserve_wg_buffers
  reserve_wg_buffers-Reserved slot =
      let z : 0 < n = omega (arith, there) in
      let s = slot % n in
      let l : s < n = mod-lt slot z in
      elim (Bool-cases (ltb free s)) [
        | inr ahead ↦
            probe-Reserved n (free - s) s (omega (arith, there, l)) l
              (ap (λ x. x % n) (ground (arith, ahead)) ∙ mod-eq_of_lt there)
        | inl behind ↦ probe-Reserved n (free + n - s) s (ground (arith, behind, there)) l (
            ap (λ x. x % n) (ground (arith, behind, l)) ∙ add-mod_right free n ∙ mod-eq_of_lt there)
      ]
