-- ===== src/Collective/Progress/Barriers.antt =====
-- library/src/reverse_offload/mpi_transport.cpp: the barriers on the communicators of clusters and
-- rings let their PEs go when all PEs have come.
use native.Mathlib.Nat.{mod-lt, div-lt_iff_lt-mul}
use roc_shmem.Common.{ℕ, ◌+◌, ◌*◌, ◌/◌, ◌%◌, ◌<◌, ◌≡◌, sym, ap, ◌∙◌, subst, arith}
use roc_shmem.Collective.{Call}
use roc_shmem.Collective.Exchange.{Opens, comm_cluster, comm_ring}
use roc_shmem.Collective.Blocks.{cluster_inside, block_before, pair-div, pair-mod, rank_place}

module _ (c : Call) (whole : c.num_clust * c.clust_size ≡ c.pe_size) (some_place : 0 < c.clust_size)
    (HasCome : ℕ → Type 0) (all_come : (q : ℕ) → q < c.pe_size → HasCome q) (p : ℕ)
    (below : p < c.pe_size) where
  place : p % c.clust_size < c.clust_size
  place = mod-lt p some_place

  pub comm_cluster-Opens : Opens (comm_cluster c) HasCome p
  unfolding comm_cluster
  comm_cluster-Opens = record {
    own = (p % c.clust_size, place, (let d = rank_place p c.clust_size in omega (arith, d)));
    agreed = λ k l.
        (let o : p / c.clust_size * c.clust_size + k * 1 ≡ k + p / c.clust_size * c.clust_size =
            omega arith in
          let q : (p / c.clust_size * c.clust_size + k * 1) / c.clust_size ≡ p / c.clust_size =
            ap (λ z. z / c.clust_size) o ∙ pair-div (p / c.clust_size) k c.clust_size l in
          ap (λ z. record { start = z * c.clust_size; stride = 1; size = c.clust_size }) q);
    come = λ k l. all_come _ (
        let m = cluster_inside p k c.num_clust c.clust_size c.pe_size whole below l in
        omega (arith, m));
  }

  cluster_number : p / c.clust_size < c.num_clust
  cluster_number =
      (div-lt_iff_lt-mul {k = c.clust_size} {x = p} {y = c.num_clust} some_place).1
        (subst (λ n. p < n) (sym whole) below)

  pub comm_ring-Opens : Opens (comm_ring c) HasCome p
  unfolding comm_ring
  comm_ring-Opens = record {
    own = (
      p / c.clust_size,
      cluster_number,
      ap (λ n. p % c.clust_size + p / c.clust_size * n) (omega arith) ∙ rank_place p c.clust_size,
    );
    agreed = λ k l.
        (let q : (p % c.clust_size + k * (1 * c.clust_size)) % c.clust_size ≡ p % c.clust_size =
            ap (λ n. (p % c.clust_size + k * n) % c.clust_size) (omega arith)
            ∙ pair-mod k (p % c.clust_size) c.clust_size place in
          ap (λ z. record { start = z; stride = 1 * c.clust_size; size = c.num_clust }) q);
    come = λ k l. all_come _ (
        let b = block_before k c.num_clust c.clust_size l in
        let e : k * (1 * c.clust_size) ≡ k * c.clust_size = ap (λ n. k * n) (omega arith) in
        omega (arith, b, place, whole, e));
  }
