-- ===== src/Barrier/Progress.antt =====
-- library/src/gpu_ib/gpu_ib_gpu_coll.cpp: a direct barrier that all PEs have entered does not get
-- stuck.
use roc_shmem.Common.{
  ℕ, zero, suc, ◌+◌, ◌<◌, ◌≡◌, ◌≢◌, refl, sym, ap, ◌∙◌, subst, arith, ◌⊎◌, inl, inr, Bool-cases,
  ltb, ◌==◌, ==_iff, ltb→lt, find_failure,
}
use roc_shmem.Barrier.{
  Triplet, member, Stage, outside, waiting, announcing, System, Step, root_enters, root_sees,
  root_turns, root_announces, root_leaves, arrives, leaves, lands, Reach, starts, steps,
}
use roc_shmem.Barrier.Invariant.{Balanced, Inv, inside}
use roc_shmem.Barrier.Order.{Reach-Inv}

-- The loops begin at offset 1.
abbrev Begun : Stage → Type 0
Begun outside = Unit
Begun (waiting i) = 0 < i
Begun (announcing i) = 0 < i

module _ (t : Triplet) where
  Step-Begun : (s s' : System) → Step t s s' → Begun s.stage → Begun s'.stage
  Step-Begun _ _ (root_enters s was) b = omega arith
  Step-Begun _ _ (root_sees s i was l set) b = omega arith
  Step-Begun _ _ (root_turns s i was l) b = omega arith
  Step-Begun _ _ (root_announces s i was l) b = omega arith
  Step-Begun _ _ (root_leaves s i was l) b = tt
  Step-Begun _ _ (arrives s pe i e z l idle) b = b
  Step-Begun _ _ (leaves s pe i e z l was set) b = b
  Step-Begun _ _ (lands s pe at k was) b = b

  Reach-Begun : (s : System) → Reach t s → Begun s.stage
  Reach-Begun _ (starts s out p f e l) = subst Begun (sym out) tt
  Reach-Begun _ (steps s s' r st) = Step-Begun s s' st (Reach-Begun s r)

  -- A step in which no PE enters.
  abbrev pub Onward : System → Type 0
  Onward s = (s' : System) × Step t s s' × ((pe : ℕ) → s'.entered pe ≡ s.entered pe)

  -- A flag that is due has come, or is on its way.
  comes :
      (s : System) (pe at : ℕ) → s.psync pe at + s.flying pe at ≡ 1 → (s.psync pe at ≡ 1) ⊎ Onward s
  comes s pe at h = elim (Bool-cases (s.psync pe at == 1)) [
    | inl e ↦ inl (ground (arith, e))
    | inr e ↦ inr (_, lands s pe at 0 (ground (arith, e, h)), λ pe. refl)
  ]

  by_stage :
      (apart : 0 < t.stride) (s : System) (k : ℕ)
      → Inv t s
      → (stage : Stage) → s.stage ≡ stage
      → Begun stage
      → ((i : ℕ) → i < t.n_pes → s.entered (member t i) ≡ k)
      → s.entered t.pe_start ≡ k
      → ((i : ℕ) → i < t.n_pes → s.left (member t i) ≡ k) ⊎ Onward s
  by_stage apart s k inv outside was begun all root =
      let r : s.left t.pe_start ≡ k =
        (let b = subst (λ g. s.entered t.pe_start ≡ s.left t.pe_start + inside g) was inv.root in
          omega (arith, b, root)) in
      elim (find_failure (λ i. s.left (member t i) == k) t.n_pes) [
        | inl gone ↦ inl (λ i l. (==_iff _ _).0 (gone i l))
        | inr (zero, l, f) ↦
            absurd (
              let e : s.left (member t 0) ≡ k = ap s.left (omega arith) ∙ r in ground (arith, e, f))
        | inr (suc i, l, f) ↦
            (let b =
                subst
                  (λ g.
                    Balanced (s.left t.pe_start) g (suc i) (s.psync t.pe_start (suc i))
                      (s.flying t.pe_start (suc i)) (s.psync (member t (suc i)) 0)
                      (s.flying (member t (suc i)) 0) (s.entered (member t (suc i)))
                      (s.left (member t (suc i))))
                  was (inv.others (suc i) (omega arith) l) in
              let e = all (suc i) l in
              let n : s.left (member t (suc i)) ≢ k = λ q. ground (arith, q, f) in
              let late : s.left (member t (suc i)) + 1 ≡ k =
                ground (arith, n, e, b.once, b.at_most) in
              elim (comes s (member t (suc i)) 0 (omega (arith, b.answers, r, late))) [
                | inr on ↦ inr on
                | inl set ↦ inr (
                  _,
                  leaves s (member t (suc i)) (suc i) refl (omega arith) l (omega (arith, e, late))
                      set,
                  λ pe. refl,
                )
              ])
      ]
  by_stage apart s k inv (waiting i) was begun all root = elim (Bool-cases (ltb i t.n_pes)) [
    | inr end ↦ inr (_, root_turns s i was (ground (arith, end)), λ pe. refl)
    | inl more ↦
        (let l = ltb→lt _ _ more in
          let b =
            subst
              (λ g.
                Balanced (s.left t.pe_start) g i (s.psync t.pe_start i) (s.flying t.pe_start i)
                  (s.psync (member t i) 0) (s.flying (member t i) 0) (s.entered (member t i))
                  (s.left (member t i)))
              was (inv.others i begun l) in
          let r = subst (λ g. s.entered t.pe_start ≡ s.left t.pe_start + inside g) was inv.root in
          let e = all i l in
          elim (comes s t.pe_start i (ground (arith, b.arrivals, r, e, root))) [
            | inr on ↦ inr on
            | inl set ↦ inr (_, root_sees s i was l set, λ pe. refl)
          ])
  ]
  by_stage apart s k inv (announcing i) was begun all root = elim (Bool-cases (ltb i t.n_pes)) [
    | inr end ↦ inr (_, root_leaves s i was (ground (arith, end)), λ pe. refl)
    | inl more ↦ inr (_, root_announces s i was (ltb→lt _ _ more), λ pe. refl)
  ]

  -- In every reachable state of a triplet of one PE or more and positive stride in which all PEs
  -- have entered the same number of direct barriers, all have left as many, or a step is possible
  -- in which no PE enters a further barrier: nobody waits for a flag that does not come.
  pub Reach-Onward :
      0 < t.stride
      → 0 < t.n_pes
      → (s : System) → Reach t s
      → (k : ℕ) → ((i : ℕ) → i < t.n_pes → s.entered (member t i) ≡ k)
      → ((i : ℕ) → i < t.n_pes → s.left (member t i) ≡ k) ⊎ Onward s
  Reach-Onward apart some_pe s reached k all =
      by_stage apart s k (Reach-Inv t apart s reached) s.stage refl (Reach-Begun s reached) all
        (ap s.entered (omega arith) ∙ all 0 some_pe)
