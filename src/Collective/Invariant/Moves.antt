-- ===== src/Collective/Invariant/Moves.antt =====
-- library/src/reverse_offload/mpi_transport.cpp: a read of step 1 and a send of step 2 keep what the
-- buffers hold.
use native.Mathlib.Nat.{div-add-mod', mod-lt}
use roc_shmem.Common.{
  ℕ, ◌+◌, ◌*◌, ◌/◌, ◌%◌, ◌<◌, ◌≡◌, ◌≢◌, refl, sym, ap, ◌∙◌, subst, arith, inl, inr, update,
  Bool-cases, ◌==◌,
}
use roc_shmem.Collective.{Call, Transfer, reading, System, copy, rget}
use roc_shmem.Collective.Exchange.{Variant, Present, reads_done, puts_done}
use roc_shmem.Collective.Blocks.{pair-div, blocks_apart, copy_inside, copy_outside}
use roc_shmem.Collective.Calls.{clusters_have_places}
use roc_shmem.Collective.Invariant.{bytes, Inv}

module _ (c : Call) (x : Transfer) (v : Variant) (src : ℕ → ℕ → ℕ) (s : System)
    (inv : Inv c x v src s) (p₀ : ℕ) (below : p₀ < c.pe_size)
    (whole : c.num_clust * c.clust_size ≡ c.pe_size) where
  pub some_place : 0 < c.clust_size
  some_place = clusters_have_places c whole (omega (arith, below))

  abbrev source : ℕ → ℕ
  source i = p₀ / c.clust_size * c.clust_size + i % c.clust_size

  module _ (i₀ : ℕ) (was : s.phases p₀ ≡ reading i₀) (more : i₀ < x.reads)
      (entered : Present (s.phases (p₀ / c.clust_size * c.clust_size + i₀ % c.clust_size))) where
    -- The buffer after the read.
    abbrev filled : ℕ → ℕ
    filled = copy (s.src (source i₀)) (x.read_offset p₀ i₀) (bytes c) (s.ata_buff p₀) (i₀ * bytes c)

    pub rget_buff : (rget c x p₀ i₀ s).ata_buff ≡ update s.ata_buff p₀ filled
    unfolding rget
    rget_buff =
        let e : i₀ * c.type_size * c.size ≡ i₀ * bytes c = grind arith in
        let l : c.size * c.type_size ≡ bytes c = grind arith in rw (e, l) refl

    -- The source that the PE reads is as it was at the call.
    fresh :
        p₀ / c.clust_size * c.clust_size + i₀ % c.clust_size < c.pe_size
        → s.src (source i₀) ≡ src (source i₀)
    fresh small =
        let m : i₀ % c.clust_size < c.clust_size = mod-lt i₀ some_place in
        let k : p₀ % c.clust_size < c.clust_size = mod-lt p₀ some_place in
        let d : p₀ / c.clust_size * c.clust_size + p₀ % c.clust_size ≡ p₀ =
          div-add-mod' p₀ c.clust_size in
        let o : source i₀ ≡ i₀ % c.clust_size + p₀ / c.clust_size * c.clust_size = omega arith in
        let q : source i₀ / c.clust_size ≡ p₀ / c.clust_size =
          ap (λ z. z / c.clust_size) o
          ∙ pair-div (p₀ / c.clust_size) (i₀ % c.clust_size) c.clust_size m in
        inv.kept (source i₀) (p₀ % c.clust_size) small k entered (
          subst (λ ph. reads_done c x ph < x.reads)
            (sym
              (ap (λ z. s.phases (z * c.clust_size + p₀ % c.clust_size)) q ∙ ap s.phases d ∙ was))
            more)

    module _ (small : p₀ / c.clust_size * c.clust_size + i₀ % c.clust_size < c.pe_size) where
      filled_lem :
          (i t : ℕ)
          → i < i₀ + 1
          → t < bytes c
          → filled (i * bytes c + t) ≡ src (source i) (x.read_offset p₀ i + t)
      filled_lem i t h l = elim (Bool-cases (i == i₀)) [
        | inl e ↦
            (let q : i₀ ≡ i = ground (arith, e) in
              subst (λ i. filled (i * bytes c + t) ≡ src (source i) (x.read_offset p₀ i + t)) q
                (copy_inside (s.src (source i₀)) (x.read_offset p₀ i₀) (bytes c) (s.ata_buff p₀)
                    (i₀ * bytes c) t l
                  ∙ ap (λ f. f (x.read_offset p₀ i₀ + t)) (fresh small)))
        | inr e ↦
            (let n : i ≢ i₀ = λ q. ground (arith, e, q) in
              let b : i < reads_done c x (s.phases p₀) =
                subst (λ ph. i < reads_done c x ph) (sym was) (ground (arith, e, h)) in
              copy_outside (s.src (source i₀)) (x.read_offset p₀ i₀) (bytes c) (s.ata_buff p₀)
                (i₀ * bytes c) (i * bytes c + t) (blocks_apart i i₀ (bytes c) t n l)
              ∙ inv.read p₀ i t below b l)
      ]

      pub read_after :
          (p i t : ℕ)
          → p < c.pe_size
          → i < reads_done c x (update s.phases p₀ (reading (i₀ + 1)) p)
          → t < bytes c
          → update s.ata_buff p₀ filled p (i * bytes c + t)
            ≡ src (p / c.clust_size * c.clust_size + i % c.clust_size) (x.read_offset p i + t)
      read_after p i t l h m = elim (Bool-cases (p₀ == p)) [
        | inr other ↦ rw other (inv.read p i t l (rw other at h) m)
        | inl same ↦
            (let q : p₀ ≡ p = ground (arith, same) in
              rw same (
                subst
                  (λ p.
                    filled (i * bytes c + t)
                    ≡ src (p / c.clust_size * c.clust_size + i % c.clust_size)
                        (x.read_offset p i + t))
                  q (filled_lem i t (rw same at h) m)))
      ]

      -- A PE that has sent has no reads left.
      pub sent_after_read :
          (p i u : ℕ)
          → p < c.pe_size
          → i < puts_done c x (update s.phases p₀ (reading (i₀ + 1)) p)
          → u < bytes c * c.clust_size
          → s.dst
              (p % c.clust_size + i * c.clust_size)
              (p / c.clust_size * (bytes c * c.clust_size) + u)
            ≡ update s.ata_buff p₀ filled p (x.sent_offset i + u)
      sent_after_read p i u l h m = elim (Bool-cases (p₀ == p)) [
        | inr other ↦ rw other (inv.sent p i u l (rw other at h) m)
        | inl same ↦ absurd (let z : i < 0 = rw same at h in omega (arith, z))
      ]
