-- ===== src/Barrier/Order.antt =====
-- library/src/gpu_ib/gpu_ib_gpu_coll.cpp: no PE leaves a direct barrier before all have entered it.
use roc_shmem.Common.{
  ℕ, zero, suc, ◌+◌, ◌-◌, ◌/◌, ◌<◌, ◌≤◌, ◌≡◌, ◌≢◌, refl, sym, ap, ◌∙◌, subst, arith, inl, inr,
  update, update_same, update_elsewhere,
}
use roc_shmem.Barrier.{
  Triplet, member, Stage, outside, waiting, announcing, System, put_nbi, reset, Step, root_enters,
  root_sees, root_turns, root_announces, root_leaves, arrives, leaves, lands, Reach, starts, steps,
}
use roc_shmem.Barrier.Flags.{announces-Inv, lands-Inv, arrives-Inv, leaves-Inv}
use roc_shmem.Barrier.Invariant.{
  collected, announced, inside, Balanced, Inv, not_root, write-cases, write_elsewhere,
}

module _ (t : Triplet) (apart : 0 < t.stride) (s : System) (inv : Inv t s) where
  abbrev root : ℕ
  root = t.pe_start

  -- A new stage with the numbers of the other PEs as they are.
  restage :
      (r' : ℕ) (stage' : Stage)
      → ((i : ℕ)
          → 0 < i
          → i < t.n_pes
          → (collected r' stage' i ≡ collected (s.left root) s.stage i)
            × (announced r' stage' i ≡ announced (s.left root) s.stage i))
      → (i : ℕ) → 0 < i
      → i < t.n_pes
      → Balanced r' stage' i
          (s.psync root i)
          (s.flying root i)
          (s.psync (member t i) 0)
          (s.flying (member t i) 0)
          (s.entered (member t i))
          (s.left (member t i))
  restage r' stage' f i z l =
      let b = inv.others i z l in
      let (c, a) = f i z l in
      record {
        arrivals = omega (arith, b.arrivals, c);
        answers = omega (arith, b.answers, a);
        once = b.once;
        at_most = b.at_most;
      }

  enters-Inv :
      s.stage ≡ outside
      → Inv t (record s { stage = waiting 1; entered = update s.entered root (s.entered root + 1) })
  enters-Inv was = record {
    others = λ i z l.
        subst
          (λ e.
            Balanced (s.left root) (waiting 1) i (s.psync root i) (s.flying root i)
              (s.psync (member t i) 0) (s.flying (member t i) 0) e (s.left (member t i)))
          (sym (update_elsewhere s.entered root (member t i) _ (not_root t apart i z)))
          (restage (s.left root) (waiting 1) (λ i z l. rw was (ground (arith, z), refl)) i z l);
    root =
        let e = update_same s.entered root (s.entered root + 1) in
        let b = subst (λ g. s.entered root ≡ s.left root + inside g) was inv.root in
        omega (arith, e, b);
  }

  turns-Inv :
      (k : ℕ) → s.stage ≡ waiting k → t.n_pes ≤ k → Inv t (record s { stage = announcing 1 })
  turns-Inv k was h = record {
    others =
        restage (s.left root) (announcing 1)
          (λ i z l. rw was (ground (arith, h, l), ground (arith, z)));
    root = inv.root ∙ ap (λ g. s.left root + inside g) was;
  }

  root_leaves-Inv :
      (k : ℕ)
      → s.stage ≡ announcing k
      → t.n_pes ≤ k
      → Inv t (record s { stage = outside; left = update s.left root (s.left root + 1) })
  root_leaves-Inv k was h =
      let here = update_same s.left root (s.left root + 1) in
      record {
        others = λ i z l.
            subst
              (λ e.
                Balanced (update s.left root (s.left root + 1) root) outside i (s.psync root i)
                  (s.flying root i) (s.psync (member t i) 0) (s.flying (member t i) 0)
                  (s.entered (member t i)) e)
              (sym (update_elsewhere s.left root (member t i) _ (not_root t apart i z)))
              (restage (update s.left root (s.left root + 1) root) outside
                (λ i z l. rw was (here, here ∙ ground (arith, h, l))) i z l);
        root =
            let b = subst (λ g. s.entered root ≡ s.left root + inside g) was inv.root in
            omega (arith, here, b);
      }

  sees-Inv :
      (k : ℕ)
      → s.stage ≡ waiting k
      → k < t.n_pes
      → s.psync root k ≡ 1
      → Inv t (record (reset k root s) { stage = waiting (k + 1) })
  sees-Inv k was h set = record {
    others = λ i z l.
        let b =
          subst
            (λ g.
              Balanced (s.left root) g i (s.psync root i) (s.flying root i) (s.psync (member t i) 0)
                (s.flying (member t i) 0) (s.entered (member t i)) (s.left (member t i)))
            was (inv.others i z l) in
        let far = write_elsewhere s.psync root k 0 (member t i) 0 (inl (not_root t apart i z)) in
        elim (write-cases s.psync root k 0 root i) [
          | inl (p, q, e) ↦ record {
            arrivals = let v = ap (s.psync root) q in ground (arith, b.arrivals, e, v, set, q);
            answers = omega (arith, b.answers, far);
            once = b.once;
            at_most = b.at_most;
          }
          | inr (o, e) ↦ record {
            arrivals =
                let n : k ≢ i = elim o [ inl n ↦ absurd (n refl) | inr n ↦ n ] in
                ground (arith, b.arrivals, e, n);
            answers = omega (arith, b.answers, far);
            once = b.once;
            at_most = b.at_most;
          }
        ];
    root = inv.root ∙ ap (λ g. s.left root + inside g) was;
  }

module _ (t : Triplet) (apart : 0 < t.stride) where
  pub Step-Inv : (s s' : System) → Step t s s' → Inv t s → Inv t s'
  Step-Inv _ _ (root_enters s was) inv = enters-Inv t apart s inv was
  Step-Inv _ _ (root_sees s i was l set) inv = sees-Inv t apart s inv i was l set
  Step-Inv _ _ (root_turns s i was l) inv = turns-Inv t apart s inv i was l
  Step-Inv _ _ (root_announces s i was l) inv = announces-Inv t apart s inv i was l
  Step-Inv _ _ (root_leaves s i was l) inv = root_leaves-Inv t apart s inv i was l
  Step-Inv _ _ (arrives s pe i e z l idle) inv =
      subst
        (λ pe.
          s.entered pe ≡ s.left pe
          → Inv t (record (put_nbi ((pe - t.pe_start) / t.stride) t.pe_start s) {
            entered = update s.entered pe (s.entered pe + 1);
          }))
        (sym e) (arrives-Inv t apart s inv i z) idle
  Step-Inv _ _ (leaves s pe i e z l was set) inv =
      subst
        (λ pe.
          s.entered pe ≡ s.left pe + 1
          → s.psync pe 0 ≡ 1
          → Inv t (record (reset 0 pe s) { left = update s.left pe (s.left pe + 1) }))
        (sym e) (leaves-Inv t apart s inv i z) was set
  Step-Inv _ _ (lands s pe at k was) inv = lands-Inv t apart s inv pe at k was

  pub Reach-Inv : (s : System) → Reach t s → Inv t s
  Reach-Inv _ (starts s out p f e l) = record {
    others = λ i z h.
        let a = e (member t i) in
        let b = l (member t i) in
        let c = l t.pe_start in
        record {
          arrivals = rw out (omega (arith, a, c, p t.pe_start i, f t.pe_start i));
          answers = rw out (omega (arith, b, c, p (member t i) 0, f (member t i) 0));
          once = omega (arith, a, b);
          at_most = omega (arith, a, b);
        };
    root = rw out (omega (arith, e t.pe_start, l t.pe_start));
  }
  Reach-Inv _ (steps s s' r st) = Step-Inv s s' st (Reach-Inv s r)

  -- Whether the first PE has seen all the flags of its barrier.
  abbrev released : Stage → ℕ
  released outside = 0
  released (waiting k) = 0
  released (announcing k) = 1

  first : member t 0 ≡ t.pe_start
  first = omega arith

  -- How often the PEs may have left, and how often each has entered.
  bounds :
      (s : System)
      → Inv t s
      → (i : ℕ) → i < t.n_pes
      → (s.left (member t i) ≤ s.left t.pe_start + released s.stage)
        × (s.left t.pe_start + released s.stage ≤ s.entered (member t i))
  bounds s inv zero l = (
    subst (λ pe. s.left pe ≤ s.left t.pe_start + released s.stage) (sym first) (omega arith),
    subst (λ pe. s.left t.pe_start + released s.stage ≤ s.entered pe) (sym first)
        (let h = released_inside s.stage in omega (arith, inv.root, h)),
  )
    where
      released_inside : (stage : Stage) → released stage ≤ inside stage
      released_inside outside = omega arith
      released_inside (waiting k) = omega arith
      released_inside (announcing k) = omega arith
  bounds s inv (suc i) l =
      let b = inv.others (suc i) (omega arith) l in
      let (h, k) = between (s.left t.pe_start) s.stage (suc i) in
      (omega (arith, b.answers, h), omega (arith, b.arrivals, k))
    where
      between :
          (r : ℕ) (stage : Stage) (i : ℕ)
          → (announced r stage i ≤ r + released stage) × (r + released stage ≤ collected r stage i)
      between r outside i = (omega arith, omega arith)
      between r (waiting k) i = (omega arith, ground arith)
      between r (announcing k) i = (ground arith, omega arith)

  -- The flags, where no PE is inside.
  abbrev pub Idle : System → Type 0
  Idle s =
      (s.stage ≡ outside)
      × ((i : ℕ) → 0 < i → i < t.n_pes → s.entered (member t i) ≡ s.left (member t i))

  abbrev pub Clear : System → Type 0
  Clear s =
      (i : ℕ) → 0 < i → i < t.n_pes → (s.psync t.pe_start i ≡ 0) × (s.psync (member t i) 0 ≡ 0)

  -- In every interleaving of the PEs of a triplet of positive stride and of the puts on their
  -- way, over any number of direct barriers, no PE has left more barriers than any PE has
  -- entered; and where no PE is inside, the flags of the arrays are 0 again.
  pub Reach-Ordered :
      (s : System)
      → Reach t s
      → ((i j : ℕ) → i < t.n_pes → j < t.n_pes → s.left (member t i) ≤ s.entered (member t j))
        × (Idle s → Clear s)
  Reach-Ordered s reached =
      let inv = Reach-Inv s reached in
      (
        λ i j l m.
            let (a, _) = bounds s inv i l in let (_, b) = bounds s inv j m in omega (arith, a, b),
        λ idle i z l.
            let b =
              subst
                (λ g.
                  Balanced (s.left t.pe_start) g i (s.psync t.pe_start i) (s.flying t.pe_start i)
                    (s.psync (member t i) 0) (s.flying (member t i) 0) (s.entered (member t i))
                    (s.left (member t i)))
                idle.0 (inv.others i z l) in
            let e = idle.1 i z l in
            (omega (arith, b.arrivals, b.answers, e), omega (arith, b.arrivals, b.answers, e)),
      )
