-- ===== src/Collective/Exchange.antt =====
-- library/src/reverse_offload/mpi_transport.cpp: the steps of the PEs in a collective over clusters,
-- in any order, with the barriers of the two variants.
use roc_shmem.Common.{ℕ, ◌+◌, ◌*◌, ◌/◌, ◌%◌, ◌<◌, ◌≡◌, refl, update}
use roc_shmem.Collective.{Call, Transfer, Phase, away, reading, sending, left, System, rget, put}

-- `gcen2` waits for the cluster between its steps; the barrier of `gcen` on the cluster does not
-- block.
pub data Variant : Type 0 where
  gcen : Variant
  gcen2 : Variant

pub variant_cases : {A : Type 0} (v : Variant) → (v ≡ gcen → A) → (v ≡ gcen2 → A) → A
variant_cases gcen f g = f refl
variant_cases gcen2 f g = g refl

-- The call of the PE has begun.
abbrev pub Present : Phase → Type 0
Present away = ⊥
Present (reading i) = Unit
Present (sending i) = Unit
Present left = Unit

-- A communicator of the ranks `start`, `start + stride` and so on.
pub record Triplet : Type 0 where
  pub start : ℕ
  pub stride : ℕ
  pub size : ℕ

-- The communicators that a PE makes for the barriers on its cluster and on its ring, by the ranks in
-- the team.
unfoldable pub comm_cluster : Call → ℕ → Triplet
comm_cluster c new_rank =
    let clust_id = new_rank / c.clust_size in
    record { start = clust_id * c.clust_size; stride = 1; size = c.clust_size }

unfoldable pub comm_ring : Call → ℕ → Triplet
comm_ring c new_rank = record {
  start = new_rank % c.clust_size;
  stride = 1 * c.clust_size;
  size = c.num_clust;
}

abbrev pub member : Triplet → ℕ → ℕ
member g k = g.start + k * g.stride

-- A barrier lets a PE go when it is on a communicator that has the PE, all of whose PEs have come to
-- a barrier on the same communicator.
pub record Opens (comm_of : ℕ → Triplet) (HasCome : ℕ → Type 0) (p : ℕ) : Type 0 where
  pub own : (k : ℕ) × (k < (comm_of p).size) × (member (comm_of p) k ≡ p)
  pub agreed : (k : ℕ) → k < (comm_of p).size → comm_of (member (comm_of p) k) ≡ comm_of p
  pub come : (k : ℕ) → k < (comm_of p).size → HasCome (member (comm_of p) k)

module _ (c : Call) (x : Transfer) where
  -- The reads that a PE has done, and the clusters that it has sent to.
  abbrev pub reads_done : Phase → ℕ
  reads_done away = 0
  reads_done (reading i) = i
  reads_done (sending i) = x.reads
  reads_done left = x.reads

  abbrev pub puts_done : Phase → ℕ
  puts_done away = 0
  puts_done (reading i) = 0
  puts_done (sending i) = i
  puts_done left = c.num_clust

  -- Every PE of the cluster of a PE has done its reads.
  abbrev pub ClusterRead : (ℕ → Phase) → ℕ → Type 0
  ClusterRead phases p =
      (k : ℕ)
      → k < c.clust_size
      → reads_done (phases (p / c.clust_size * c.clust_size + k)) ≡ x.reads

  -- Every PE of the ring of a PE has sent to each cluster.
  abbrev pub RingSent : (ℕ → Phase) → ℕ → Type 0
  RingSent phases p =
      (k : ℕ)
      → k < c.num_clust
      → puts_done (phases (p % c.clust_size + k * c.clust_size)) ≡ c.num_clust

  -- A PE that has not called, or has left the call, may write to its source; after `gcen` it has to
  -- know that its cluster has read. A PE reads the sources of its cluster whether their PEs have
  -- called or not: nothing synchronizes them before. `src` is what the sources hold at the calls.
  pub data Step (v : Variant) (src : ℕ → ℕ → ℕ) : System → System → Type 0 where
    prepares :
        (s : System) (p : ℕ) (new : ℕ → ℕ)
        → p < c.pe_size
        → s.phases p ≡ away
        → Step v src s (record s { src = update s.src p new })
    calls :
        (s : System) (p : ℕ)
        → p < c.pe_size
        → s.phases p ≡ away
        → Step v src s
            (record s { phases = update s.phases p (reading 0); src = update s.src p (src p) })
    reads :
        (s : System) (p i : ℕ)
        → p < c.pe_size
        → i < x.reads
        → s.phases p ≡ reading i
        → Step v src s (rget c x p i s)
    synchronizes :
        (s : System) (p : ℕ)
        → p < c.pe_size
        → s.phases p ≡ reading x.reads
        → (v ≡ gcen2 → Opens (comm_cluster c) (λ q. reads_done (s.phases q) ≡ x.reads) p)
        → Step v src s (record s { phases = update s.phases p (sending 0) })
    sends :
        (s : System) (p i : ℕ)
        → p < c.pe_size
        → i < c.num_clust
        → s.phases p ≡ sending i
        → Step v src s (put c x p i s)
    leaves :
        (s : System) (p : ℕ)
        → p < c.pe_size
        → s.phases p ≡ sending c.num_clust
        → Opens (comm_ring c) (λ q. puts_done (s.phases q) ≡ c.num_clust) p
        → Step v src s (record s { phases = update s.phases p left })
    reuses :
        (s : System) (p : ℕ) (new : ℕ → ℕ)
        → p < c.pe_size
        → s.phases p ≡ left
        → (v ≡ gcen → ClusterRead s.phases p)
        → Step v src s (record s { src = update s.src p new })

  -- No PE has called at the start.
  pub data Reach (v : Variant) (src : ℕ → ℕ → ℕ) : System → Type 0 where
    starts : (s : System) → ((p : ℕ) → p < c.pe_size → s.phases p ≡ away) → Reach v src s
    steps : (s s' : System) → Reach v src s → Step v src s s' → Reach v src s'

  -- A read is of a PE that has called.
  unfoldable pub Entered :
      (v : Variant) (src : ℕ → ℕ → ℕ) (s s' : System) → Step v src s s' → Type 0
  Entered v src _ _ (reads s p i l m was) =
      Present (s.phases (p / c.clust_size * c.clust_size + i % c.clust_size))
  Entered v src _ _ (prepares s p new l was) = Unit
  Entered v src _ _ (calls s p l was) = Unit
  Entered v src _ _ (synchronizes s p l was f) = Unit
  Entered v src _ _ (sends s p i l m was) = Unit
  Entered v src _ _ (leaves s p l was f) = Unit
  Entered v src _ _ (reuses s p new l was f) = Unit

  unfoldable pub AllEntered : (v : Variant) (src : ℕ → ℕ → ℕ) (s : System) → Reach v src s → Type 0
  unfolding Entered
  AllEntered v src _ (starts s f) = Unit
  AllEntered v src _ (steps s s' r st) = AllEntered v src s r × Entered v src s s' st
