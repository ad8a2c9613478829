-- ===== src/Collective/Calls.antt =====
-- library/src/reverse_offload/mpi_transport.cpp: the sizes of the clusters of a call.
use roc_shmem.Common.{
  ℕ, ◌+◌, ◌-◌, ◌*◌, ◌/◌, ◌<◌, ◌≡◌, subst, arith, some, inl, inr, ◌==◌, Bool-cases, ==_iff,
}
use roc_shmem.Collective.{Call, make_call}

-- The clusters have the same size.
pub make_call-whole :
    (sqrt : ℕ → ℕ) (n type_size size : ℕ) (c : Call)
    → make_call sqrt n type_size size ≡ some c
    → c.num_clust * c.clust_size ≡ c.pe_size
unfolding make_call
make_call-whole sqrt n type_size size c e =
    elim (Bool-cases (sqrt n * ((n + sqrt n - 1) / sqrt n) == n)) [
      | inl h ↦
          (let q : sqrt n * ((n + sqrt n - 1) / sqrt n) ≡ n = (==_iff _ _).0 h in
            let r = rw h at e in cc)
      | inr h ↦ absurd (let r = rw h at e in ground (arith, r))
    ]

pub clusters_have_places :
    (c : Call) → c.num_clust * c.clust_size ≡ c.pe_size → 0 < c.pe_size → 0 < c.clust_size
clusters_have_places c whole l = elim (Bool-cases (c.clust_size == 0)) [
  | inr e ↦ ground (arith, e)
  | inl e ↦ absurd (
      let z : c.clust_size ≡ 0 = (==_iff _ _).0 e in
      let m : c.num_clust * 0 ≡ c.pe_size = subst (λ k. c.num_clust * k ≡ c.pe_size) z whole in
      omega (arith, m, l))
]
