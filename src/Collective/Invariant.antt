-- ===== src/Collective/Invariant.antt =====
-- library/src/reverse_offload/mpi_transport.cpp: what holds in every interleaving of a collective
-- over clusters.
pub mod Moves
pub mod Sends
pub mod Steps
use roc_shmem.Common.{
  ℕ, ◌+◌, ◌*◌, ◌/◌, ◌%◌, ◌<◌, ◌≡◌, ◌≢◌, sym, ap, ◌∙◌, subst, arith, ◌⊎◌, inl, inr, update,
  update-cases,
}
use roc_shmem.Collective.{Call, Transfer, Phase, away, reading, sending, left, System}
use roc_shmem.Collective.Exchange.{
  Variant, gcen2, reads_done, puts_done, ClusterRead, RingSent, Present,
}

-- The bytes of a block.
abbrev pub bytes : Call → ℕ
bytes c = c.type_size * c.size

abbrev pub Past : Phase → Type 0
Past away = ⊥
Past (reading i) = ⊥
Past (sending i) = Unit
Past left = Unit

-- `src` is what the sources hold at the calls.
pub record Inv (c : Call) (x : Transfer) (v : Variant) (src : ℕ → ℕ → ℕ) (s : System) : Type 0 where
  pub read :
      (p i t : ℕ)
      → p < c.pe_size
      → i < reads_done c x (s.phases p)
      → t < bytes c
      → s.ata_buff p (i * bytes c + t)
        ≡ src (p / c.clust_size * c.clust_size + i % c.clust_size) (x.read_offset p i + t)
  pub sent :
      (p i u : ℕ)
      → p < c.pe_size
      → i < puts_done c x (s.phases p)
      → u < bytes c * c.clust_size
      → s.dst
          (p % c.clust_size + i * c.clust_size)
          (p / c.clust_size * (bytes c * c.clust_size) + u)
        ≡ s.ata_buff p (x.sent_offset i + u)
  -- A source of a PE that has called, which a PE of the cluster has still to read, is as it was.
  pub kept :
      (p k : ℕ)
      → p < c.pe_size
      → k < c.clust_size
      → Present (s.phases p)
      → reads_done c x (s.phases (p / c.clust_size * c.clust_size + k)) < x.reads
      → s.src p ≡ src p
  pub passed : v ≡ gcen2 → (p : ℕ) → p < c.pe_size → Past (s.phases p) → ClusterRead c x s.phases p
  pub ended : (p : ℕ) → p < c.pe_size → s.phases p ≡ left → RingSent c x s.phases p

-- A phase that comes later: what is complete stays complete.
module _ (c : Call) (x : Transfer) where
  pub record Advance (ph ph' : Phase) : Type 0 where
    pub reads_stay : reads_done c x ph ≡ x.reads → reads_done c x ph' ≡ x.reads
    pub puts_stay : puts_done c x ph ≡ c.num_clust → puts_done c x ph' ≡ c.num_clust
    pub reads_open : reads_done c x ph' < x.reads → reads_done c x ph < x.reads

  module _ (phases : ℕ → Phase) (p₀ : ℕ) (ph ph' : Phase) (was : phases p₀ ≡ ph)
      (a : Advance ph ph') where
    abbrev after : ℕ → Phase
    after = update phases p₀ ph'

    -- A property of the phase of a PE holds after the step.
    transfer : (P : Phase → Type 0) (q : ℕ) → (P ph → P ph') → P (phases q) → P (after q)
    transfer P q f h = elim (update-cases phases p₀ ph' q) [
      | inl (e, k) ↦ subst P (sym k) (f (subst P (ap phases (sym e) ∙ was) h))
      | inr (n, k) ↦ subst P (sym k) h
    ]

    pub after-ClusterRead : (p : ℕ) → ClusterRead c x phases p → ClusterRead c x after p
    after-ClusterRead p h k l =
        transfer (λ ph. reads_done c x ph ≡ x.reads) (p / c.clust_size * c.clust_size + k)
          a.reads_stay (h k l)

    pub after-RingSent : (p : ℕ) → RingSent c x phases p → RingSent c x after p
    after-RingSent p h k l =
        transfer (λ ph. puts_done c x ph ≡ c.num_clust) (p % c.clust_size + k * c.clust_size)
          a.puts_stay (h k l)

    pub before_open :
        (q : ℕ) → reads_done c x (after q) < x.reads → reads_done c x (phases q) < x.reads
    before_open q h = elim (update-cases phases p₀ ph' q) [
      | inl (e, k) ↦
          subst (λ ph. reads_done c x ph < x.reads) (sym was ∙ ap phases e)
            (a.reads_open (subst (λ ph. reads_done c x ph < x.reads) k h))
      | inr (n, k) ↦ subst (λ ph. reads_done c x ph < x.reads) k h
    ]

  -- A PE that has just left its reads behind, or the call.
  module _ (v : Variant) (src : ℕ → ℕ → ℕ) (s : System) (inv : Inv c x v src s) (p₀ : ℕ)
      (ph ph' : Phase) (was : s.phases p₀ ≡ ph) (a : Advance ph ph') where
    pub kept_after :
        Present ph
        → (p k : ℕ) → p < c.pe_size
        → k < c.clust_size
        → Present (update s.phases p₀ ph' p)
        → reads_done c x (update s.phases p₀ ph' (p / c.clust_size * c.clust_size + k)) < x.reads
        → s.src p ≡ src p
    kept_after present p k l m here h =
        inv.kept p k l m
          (elim (update-cases s.phases p₀ ph' p) [
            | inl (e, k) ↦ subst Present (sym was ∙ ap s.phases e) present
            | inr (n, k) ↦ subst Present k here
          ])
          (before_open s.phases p₀ ph ph' was a _ h)

    pub passed_after :
        (v ≡ gcen2 → Past ph' → ClusterRead c x s.phases p₀)
        → v ≡ gcen2
        → (p : ℕ) → p < c.pe_size
        → Past (update s.phases p₀ ph' p)
        → ClusterRead c x (update s.phases p₀ ph') p
    passed_after f g p l h =
        after-ClusterRead s.phases p₀ ph ph' was a p (elim (update-cases s.phases p₀ ph' p) [
          | inl (e, k) ↦ subst (λ p. ClusterRead c x s.phases p) e (f g (subst Past k h))
          | inr (n, k) ↦ inv.passed g p l (subst Past k h)
        ])

    pub ended_after :
        (ph' ≡ left → RingSent c x s.phases p₀)
        → (p : ℕ) → p < c.pe_size
        → update s.phases p₀ ph' p ≡ left
        → RingSent c x (update s.phases p₀ ph') p
    ended_after f p l h =
        after-RingSent s.phases p₀ ph ph' was a p (elim (update-cases s.phases p₀ ph' p) [
          | inl (e, k) ↦ subst (λ p. RingSent c x s.phases p) e (f (sym k ∙ h))
          | inr (n, k) ↦ inv.ended p l (sym k ∙ h)
        ])
