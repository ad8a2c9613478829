-- ===== src/Collective/Progress/Work.antt =====
-- library/src/reverse_offload/mpi_transport.cpp: what the PEs of a collective have still to do.
use roc_shmem.Common.{
  sum, sum-update, ℕ, ◌+◌, ◌-◌, ◌<◌, ◌≤◌, ◌≡◌, sym, subst, arith, inl, inr, update, update-cases,
}
use roc_shmem.Collective.{Call, Transfer, Phase, away, reading, sending, left, System, rget, put}
use roc_shmem.Collective.Exchange.{
  Variant, Step, prepares, calls, reads, synchronizes, sends, leaves, reuses, Reach, starts, steps,
}

module _ (c : Call) (x : Transfer) where
  abbrev pub InRange : Phase → Type 0
  InRange away = Unit
  InRange (reading i) = i ≤ x.reads
  InRange (sending i) = i ≤ c.num_clust
  InRange left = Unit

  -- The steps that a PE has before it.
  abbrev pub remaining : Phase → ℕ
  remaining away = x.reads + c.num_clust + 3
  remaining (reading i) = x.reads - i + c.num_clust + 2
  remaining (sending i) = c.num_clust - i + 1
  remaining left = 0

  abbrev pub total : ℕ → (ℕ → Phase) → ℕ
  total = sum (λ i. remaining)

  pub total-update :
      (n : ℕ) (phases : ℕ → Phase) (p : ℕ) (ph : Phase)
      → p < n
      → total n (update phases p ph) + remaining (phases p) ≡ total n phases + remaining ph
  total-update = sum-update (λ i. remaining)

  -- Some steps, in order.
  pub data Run (v : Variant) (src : ℕ → ℕ → ℕ) : System → System → Type 0 where
    stays : (s : System) → Run v src s s
    moves : (s s' s'' : System) → Step c x v src s s' → Run v src s' s'' → Run v src s s''

  phase-InRange :
      (phases : ℕ → Phase) (p₀ : ℕ) (ph : Phase)
      → InRange ph
      → ((p : ℕ) → p < c.pe_size → InRange (phases p))
      → (p : ℕ) → p < c.pe_size
      → InRange (update phases p₀ ph p)
  phase-InRange phases p₀ ph h f p l = elim (update-cases phases p₀ ph p) [
    | inl (e, k) ↦ subst InRange (sym k) h
    | inr (n, k) ↦ subst InRange (sym k) (f p l)
  ]

  pub Step-InRange :
      (v : Variant) (src : ℕ → ℕ → ℕ) (s s' : System)
      → Step c x v src s s'
      → ((p : ℕ) → p < c.pe_size → InRange (s.phases p))
      → (p : ℕ) → p < c.pe_size
      → InRange (s'.phases p)
  unfolding rget put
  Step-InRange v src _ _ (prepares s p new l was) f = f
  Step-InRange v src _ _ (calls s p l was) f = phase-InRange s.phases p _ (omega arith) f
  Step-InRange v src _ _ (reads s p i l m was) f = phase-InRange s.phases p _ (omega (arith, m)) f
  Step-InRange v src _ _ (synchronizes s p l was g) f = phase-InRange s.phases p _ (omega arith) f
  Step-InRange v src _ _ (sends s p i l m was) f = phase-InRange s.phases p _ (omega (arith, m)) f
  Step-InRange v src _ _ (leaves s p l was g) f = phase-InRange s.phases p _ tt f
  Step-InRange v src _ _ (reuses s p new l was g) f = f

  pub Reach-InRange :
      (v : Variant) (src : ℕ → ℕ → ℕ) (s : System)
      → Reach c x v src s
      → (p : ℕ) → p < c.pe_size
      → InRange (s.phases p)
  Reach-InRange v src _ (starts s f) p l = subst InRange (sym (f p l)) tt
  Reach-InRange v src _ (steps s s' r st) p l =
      Step-InRange v src s s' st (Reach-InRange v src s r) p l
