-- ===== src/Collective/Invariant/Steps.antt =====
-- library/src/reverse_offload/mpi_transport.cpp: every step of a PE in a collective over clusters
-- keeps the invariant.
use native.Mathlib.Nat.{mod-lt}
use roc_shmem.Common.{
  ℕ, ◌+◌, ◌*◌, ◌/◌, ◌%◌, ◌<◌, ◌≡◌, refl, sym, ap, ◌∙◌, subst, arith, inl, inr, update, update-cases,
  update_elsewhere,
}
use roc_shmem.Collective.{Call, Transfer, Phase, away, reading, sending, left, System, rget, put}
use roc_shmem.Collective.Exchange.{
  Variant, variant_cases, gcen, gcen2, Step, prepares, calls, reads, synchronizes, sends, leaves,
  reuses, Entered, Present, Opens, comm_cluster, comm_ring, reads_done, puts_done, ClusterRead,
  RingSent,
}
use roc_shmem.Collective.Blocks.{cluster_inside}
use roc_shmem.Collective.Invariant.{
  bytes, Inv, Advance, Past, kept_after, passed_after, ended_after, before_open,
}
use roc_shmem.Collective.Invariant.Moves.{some_place, rget_buff, read_after, sent_after_read}
use roc_shmem.Collective.Invariant.Sends.{put_dst, sent_after}

module _ (c : Call) (x : Transfer) (v : Variant) (src : ℕ → ℕ → ℕ)
    (whole : c.num_clust * c.clust_size ≡ c.pe_size) where
  module _ (s : System) (inv : Inv c x v src s) (p₀ : ℕ) (below : p₀ < c.pe_size) where
    -- A step of a PE that changes its phase alone.
    module _ (ph ph' : Phase) (was : s.phases p₀ ≡ ph) (a : Advance c x ph ph')
        (fewer : (reads_done c x ph' ≡ reads_done c x ph)
          × (puts_done c x ph' ≡ puts_done c x ph)) where
      count_before :
          (P : ℕ → ℕ → Type 0) (p : ℕ)
          → P (reads_done c x (update s.phases p₀ ph' p)) (puts_done c x (update s.phases p₀ ph' p))
          → P (reads_done c x (s.phases p)) (puts_done c x (s.phases p))
      count_before P p h = elim (update-cases s.phases p₀ ph' p) [
        | inr (n, k) ↦ subst (λ ph. P (reads_done c x ph) (puts_done c x ph)) k h
        | inl (e, k) ↦
            subst (λ ph. P (reads_done c x ph) (puts_done c x ph)) (sym was ∙ ap s.phases e)
              (subst (λ n. P n (puts_done c x ph)) fewer.0
                (subst (λ n. P (reads_done c x ph') n) fewer.1
                  (subst (λ ph. P (reads_done c x ph) (puts_done c x ph)) k h)))
      ]

      pub phase-Inv :
          Present ph
          → (v ≡ gcen2 → Past ph' → ClusterRead c x s.phases p₀)
          → (ph' ≡ left → RingSent c x s.phases p₀)
          → Inv c x v src (record s { phases = update s.phases p₀ ph' })
      phase-Inv present f g = record {
        read = λ p i t l h. inv.read p i t l (count_before (λ n m. i < n) p h);
        sent = λ p i u l h. inv.sent p i u l (count_before (λ n m. i < m) p h);
        kept = kept_after c x v src s inv p₀ ph ph' was a present;
        passed = passed_after c x v src s inv p₀ ph ph' was a f;
        ended = ended_after c x v src s inv p₀ ph ph' was a g;
      }

    rget-Inv :
        (i : ℕ)
        → i < x.reads
        → s.phases p₀ ≡ reading i
        → Present (s.phases (p₀ / c.clust_size * c.clust_size + i % c.clust_size))
        → Inv c x v src (rget c x p₀ i s)
    unfolding rget
    rget-Inv i more was entered =
        let small =
          cluster_inside p₀ (i % c.clust_size) c.num_clust c.clust_size c.pe_size whole below
            (mod-lt i (some_place c x v src s inv p₀ below whole)) in
        let a : Advance c x (reading i) (reading (i + 1)) = record {
          reads_stay = λ e. omega (arith, e, more);
          puts_stay = λ e. e;
          reads_open = λ h. omega (arith, h);
        } in
        let now = sym (rget_buff c x v src s inv p₀ below whole i was more entered) in
        record {
          read = λ p j t l h m.
              subst
                (λ buff.
                  buff p (j * bytes c + t)
                  ≡ src (p / c.clust_size * c.clust_size + j % c.clust_size)
                      (x.read_offset p j + t))
                now
                (read_after c x v src s inv p₀ below whole i was more entered small p j t l h m);
          sent = λ p j u l h m.
              subst
                (λ buff.
                  s.dst (p % c.clust_size + j * c.clust_size)
                    (p / c.clust_size * (bytes c * c.clust_size) + u)
                  ≡ buff p (x.sent_offset j + u))
                now
                (sent_after_read c x v src s inv p₀ below whole i was more entered small p j u l h
                  m);
          kept = kept_after c x v src s inv p₀ _ _ was a tt;
          passed = passed_after c x v src s inv p₀ _ _ was a (λ e past. elim past [ ]);
          ended = ended_after c x v src s inv p₀ _ _ was a (λ e. absurd (ground (arith, e)));
        }

    put-Inv : (i : ℕ) → i < c.num_clust → s.phases p₀ ≡ sending i → Inv c x v src (put c x p₀ i s)
    unfolding put
    put-Inv i more was =
        let a : Advance c x (sending i) (sending (i + 1)) = record {
          reads_stay = λ e. e;
          puts_stay = λ e. omega (arith, e, more);
          reads_open = λ h. h;
        } in
        let z = some_place c x v src s inv p₀ below whole in
        let now = sym (put_dst c x v src s inv p₀ below i was z) in
        record {
          read = λ p j t l h m.
              inv.read p j t l
                (elim (update-cases s.phases p₀ (sending (i + 1)) p) [
                  | inr (n, k) ↦ subst (λ ph. j < reads_done c x ph) k h
                  | inl (e, k) ↦
                      subst (λ ph. j < reads_done c x ph) (sym was ∙ ap s.phases e)
                        (subst (λ ph. j < reads_done c x ph) k h)
                ])
                m;
          sent = λ p j u l h m.
              subst
                (λ dst.
                  dst (p % c.clust_size + j * c.clust_size)
                    (p / c.clust_size * (bytes c * c.clust_size) + u)
                  ≡ s.ata_buff p (x.sent_offset j + u))
                now (sent_after c x v src s inv p₀ below i was z p j u l h m);
          kept = kept_after c x v src s inv p₀ _ _ was a tt;
          passed =
              passed_after c x v src s inv p₀ _ _ was a
                (λ g past. inv.passed g p₀ below (subst Past (sym was) tt));
          ended = ended_after c x v src s inv p₀ _ _ was a (λ e. absurd (ground (arith, e)));
        }

    -- The source that a PE writes to is one that its cluster has read.
    reuse-Inv :
        (new : ℕ → ℕ)
        → s.phases p₀ ≡ left
        → (v ≡ gcen → ClusterRead c x s.phases p₀)
        → Inv c x v src (record s { src = update s.src p₀ new })
    reuse-Inv new was f =
        let complete : ClusterRead c x s.phases p₀ =
          variant_cases v f (λ g. inv.passed g p₀ below (subst Past (sym was) tt)) in
        record {
          read = inv.read;
          sent = inv.sent;
          kept = λ p k l m here h. elim (update-cases s.src p₀ new p) [
            | inr (n, e) ↦ e ∙ inv.kept p k l m here h
            | inl (q, e) ↦ absurd (
                let d =
                  subst
                    (λ p. reads_done c x (s.phases (p / c.clust_size * c.clust_size + k)) ≡ x.reads)
                    q (complete k m) in
                omega (arith, d, h))
          ];
          passed = inv.passed;
          ended = inv.ended;
        }

    -- A PE that has not called writes to its source.
    prepare-Inv :
        (new : ℕ → ℕ) → s.phases p₀ ≡ away → Inv c x v src (record s { src = update s.src p₀ new })
    prepare-Inv new was = record {
      read = inv.read;
      sent = inv.sent;
      kept = λ p k l m here h. elim (update-cases s.src p₀ new p) [
        | inr (n, e) ↦ e ∙ inv.kept p k l m here h
        | inl (q, e) ↦ elim (subst Present (ap s.phases (sym q) ∙ was) here) [ ]
      ];
      passed = inv.passed;
      ended = inv.ended;
    }

    call-Inv :
        s.phases p₀ ≡ away
        → Inv c x v src
            (record s { phases = update s.phases p₀ (reading 0); src = update s.src p₀ (src p₀) })
    call-Inv was =
        let a : Advance c x away (reading 0) = record {
          reads_stay = λ e. e;
          puts_stay = λ e. e;
          reads_open = λ h. h;
        } in
        record {
          read = λ p i t l h.
              inv.read p i t l
                (count_before away (reading 0) was a (refl, refl) (λ n m. i < n) p h);
          sent = λ p i u l h.
              inv.sent p i u l
                (count_before away (reading 0) was a (refl, refl) (λ n m. i < m) p h);
          kept = λ p k l m here h. elim (update-cases s.src p₀ (src p₀) p) [
            | inl (q, e) ↦ e ∙ ap src q
            | inr (n, e) ↦
                e
                ∙ inv.kept p k l m
                    (subst Present (update_elsewhere s.phases p₀ p (reading 0) n) here)
                    (before_open c x s.phases p₀ away (reading 0) was a _ h)
          ];
          passed = passed_after c x v src s inv p₀ _ _ was a (λ e past. elim past [ ]);
          ended = ended_after c x v src s inv p₀ _ _ was a (λ e. absurd (ground (arith, e)));
        }

  -- A barrier on the communicator of the cluster, or of the ring.
  comm_cluster-ClusterRead :
      (s : System) (p : ℕ)
      → Opens (comm_cluster c) (λ q. reads_done c x (s.phases q) ≡ x.reads) p
      → ClusterRead c x s.phases p
  unfolding comm_cluster
  comm_cluster-ClusterRead s p o k l =
      ap (λ n. reads_done c x (s.phases (p / c.clust_size * c.clust_size + n))) (omega arith)
      ∙ o.come k l

  comm_ring-RingSent :
      (s : System) (p : ℕ)
      → Opens (comm_ring c) (λ q. puts_done c x (s.phases q) ≡ c.num_clust) p
      → RingSent c x s.phases p
  unfolding comm_ring
  comm_ring-RingSent s p o k l =
      ap (λ n. puts_done c x (s.phases (p % c.clust_size + k * n))) (omega arith) ∙ o.come k l

  pub Step-Inv :
      (s s' : System) (st : Step c x v src s s')
      → Entered c x v src s s' st
      → Inv c x v src s
      → Inv c x v src s'
  unfolding Entered
  Step-Inv _ _ (prepares s p new l was) en inv = prepare-Inv s inv p l new was
  Step-Inv _ _ (calls s p l was) en inv = call-Inv s inv p l was
  Step-Inv _ _ (reads s p i l m was) en inv = rget-Inv s inv p l i m was en
  Step-Inv _ _ (synchronizes s p l was f) en inv =
      phase-Inv s inv p l (reading x.reads) (sending 0) was
        (record { reads_stay = λ e. refl; puts_stay = λ e. e; reads_open = λ h. h }) (refl, refl) tt
        (λ g past. comm_cluster-ClusterRead s p (f g)) (λ e. absurd (ground (arith, e)))
  Step-Inv _ _ (sends s p i l m was) en inv = put-Inv s inv p l i m was
  Step-Inv _ _ (leaves s p l was f) en inv =
      phase-Inv s inv p l (sending c.num_clust) left was
        (record { reads_stay = λ e. e; puts_stay = λ e. refl; reads_open = λ h. h }) (refl, refl) tt
        (λ g past. inv.passed g p l (subst Past (sym was) tt)) (λ e. comm_ring-RingSent s p f)
  Step-Inv _ _ (reuses s p new l was f) en inv = reuse-Inv s inv p l new was f
