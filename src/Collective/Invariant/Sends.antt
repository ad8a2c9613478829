-- ===== src/Collective/Invariant/Sends.antt =====
-- library/src/reverse_offload/mpi_transport.cpp: a send of step 2 keeps what the buffers hold.
use native.Mathlib.Nat.{mod-lt}
use roc_shmem.Common.{
  ℕ, ◌+◌, ◌*◌, ◌/◌, ◌%◌, ◌<◌, ◌≡◌, ◌≢◌, refl, sym, ap, ◌∙◌, subst, arith, ◌⊎◌, inl, inr, update,
  Bool-cases, ◌==◌,
}
use roc_shmem.Collective.{Call, Transfer, sending, System, copy, put}
use roc_shmem.Collective.Exchange.{Variant, puts_done}
use roc_shmem.Collective.Blocks.{
  pair-div, pair-mod, blocks_apart, copy_inside, copy_outside, rank_place,
}
use roc_shmem.Collective.Invariant.{bytes, Inv}

module _ (c : Call) (x : Transfer) (v : Variant) (src : ℕ → ℕ → ℕ) (s : System)
    (inv : Inv c x v src s) (p₀ : ℕ) (below : p₀ < c.pe_size) (i₀ : ℕ)
    (was : s.phases p₀ ≡ sending i₀) (some_place : 0 < c.clust_size) where
  abbrev block : ℕ
  block = bytes c * c.clust_size

  abbrev target : ℕ
  target = p₀ % c.clust_size + i₀ * c.clust_size

  -- The destination of the PE that is sent to.
  abbrev received : ℕ → ℕ
  received =
      copy (s.ata_buff p₀) (x.sent_offset i₀) block (s.dst target) (p₀ / c.clust_size * block)

  pub put_dst : (put c x p₀ i₀ s).dst ≡ update s.dst target received
  unfolding put
  put_dst =
      let e : p₀ / c.clust_size * c.type_size * c.size * c.clust_size ≡ p₀ / c.clust_size * block =
        grind arith in
      let l : c.size * c.clust_size * c.type_size ≡ block = grind arith in rw (e, l) refl

  puts_before :
      (p i : ℕ)
      → i < puts_done c x (update s.phases p₀ (sending (i₀ + 1)) p)
      → ((p₀ ≡ p) × (i ≡ i₀)) ⊎ (i < puts_done c x (s.phases p))
  puts_before p i h = elim (Bool-cases (p₀ == p)) [
    | inr other ↦ inr (rw other at h)
    | inl same ↦
        (let q : p₀ ≡ p = ground (arith, same) in
          let l : i < i₀ + 1 = rw same at h in
          elim (Bool-cases (i == i₀)) [
            | inl e ↦ inl (q, ground (arith, e))
            | inr e ↦ inr (
                subst (λ ph. i < puts_done c x ph) (sym was ∙ ap s.phases q) (ground (arith, e, l)))
          ])
  ]

  -- A PE that is sent to from the same place by another read is the same.
  same_place :
      (p i : ℕ)
      → target ≡ p % c.clust_size + i * c.clust_size
      → (p₀ % c.clust_size ≡ p % c.clust_size) × (i₀ ≡ i)
  same_place p i e =
      let a : p₀ % c.clust_size < c.clust_size = mod-lt p₀ some_place in
      let b : p % c.clust_size < c.clust_size = mod-lt p some_place in
      (
        sym (pair-mod i₀ (p₀ % c.clust_size) c.clust_size a)
            ∙ ap (λ z. z % c.clust_size) e
            ∙ pair-mod i (p % c.clust_size) c.clust_size b,
        sym (pair-div i₀ (p₀ % c.clust_size) c.clust_size a)
            ∙ ap (λ z. z / c.clust_size) e
            ∙ pair-div i (p % c.clust_size) c.clust_size b,
      )

  same_rank :
      (p : ℕ) → p₀ % c.clust_size ≡ p % c.clust_size → p₀ / c.clust_size ≡ p / c.clust_size → p₀ ≡ p
  same_rank p e q =
      sym (rank_place p₀ c.clust_size)
      ∙ ap (λ z. z + p₀ / c.clust_size * c.clust_size) e
      ∙ ap (λ z. p % c.clust_size + z * c.clust_size) q
      ∙ rank_place p c.clust_size

  received_lem :
      (p i u : ℕ)
      → p < c.pe_size
      → target ≡ p % c.clust_size + i * c.clust_size
      → ((p₀ ≡ p) × (i ≡ i₀)) ⊎ (i < puts_done c x (s.phases p))
      → u < block
      → received (p / c.clust_size * block + u) ≡ s.ata_buff p (x.sent_offset i + u)
  received_lem p i u l e h m =
      let (place, again) = same_place p i e in
      elim (Bool-cases (p₀ / c.clust_size == p / c.clust_size)) [
        | inl q ↦
            (let k : p₀ / c.clust_size ≡ p / c.clust_size = ground (arith, q) in
              ap (λ z. received (z * block + u)) (sym k)
              ∙ copy_inside (s.ata_buff p₀) (x.sent_offset i₀) block (s.dst target)
                  (p₀ / c.clust_size * block) u m
              ∙ ap (λ z. s.ata_buff z (x.sent_offset i₀ + u)) (same_rank p place k)
              ∙ ap (λ z. s.ata_buff p (x.sent_offset z + u)) again)
        | inr q ↦
            (let k : p / c.clust_size ≢ p₀ / c.clust_size = λ k. ground (arith, q, k) in
              let old : i < puts_done c x (s.phases p) = elim h [
                | inr old ↦ old
                | inl (z, w) ↦ absurd (k (ap (λ z. z / c.clust_size) (sym z)))
              ] in
              copy_outside (s.ata_buff p₀) (x.sent_offset i₀) block (s.dst target)
                (p₀ / c.clust_size * block) (p / c.clust_size * block + u)
                (blocks_apart (p / c.clust_size) (p₀ / c.clust_size) block u k m)
              ∙ ap (λ z. s.dst z (p / c.clust_size * block + u)) e
              ∙ inv.sent p i u l old m)
      ]

  pub sent_after :
      (p i u : ℕ)
      → p < c.pe_size
      → i < puts_done c x (update s.phases p₀ (sending (i₀ + 1)) p)
      → u < block
      → update s.dst target received
          (p % c.clust_size + i * c.clust_size)
          (p / c.clust_size * block + u)
        ≡ s.ata_buff p (x.sent_offset i + u)
  sent_after p i u l h m = elim (Bool-cases (target == p % c.clust_size + i * c.clust_size)) [
    | inl same ↦ rw same (received_lem p i u l (ground (arith, same)) (puts_before p i h) m)
    | inr other ↦ rw other (
        inv.sent p i u l
          (elim (puts_before p i h) [
            | inr old ↦ old
            | inl (z, w) ↦ absurd (
                let n : target ≢ p % c.clust_size + i * c.clust_size =
                  λ e. ground (arith, other, e) in
                n (
                  ap (λ z. z % c.clust_size + i₀ * c.clust_size) z
                  ∙ ap (λ z. p % c.clust_size + z * c.clust_size) (sym w)))
          ])
          m)
  ]
