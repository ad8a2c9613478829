-- ===== src/Barrier/Atomic/History.antt =====
-- library/src/gpu_ib/gpu_ib_gpu_coll.cpp: any number of atomic barriers.
use roc_shmem.Common.{ℕ, zero, suc, ◌+◌, ◌<◌, ◌≤◌, ◌≡◌, sym, subst, arith}
use roc_shmem.Barrier.Atomic.{
  Stage, outside, waiting, announcing, System, Step, root_enters, root_sees, root_announces,
  root_leaves, arrives, add_lands, put_lands, leaves, Reach, starts, steps,
}
use roc_shmem.Barrier.Atomic.Counts.{sum_empty}
use roc_shmem.Barrier.Atomic.Order.{
  inside, collected, Balanced, Inv, enters-Inv, sees-Inv, announces-Inv, root_leaves-Inv,
  arrives-Inv, add_lands-Inv, put_lands-Inv, leaves-Inv,
}

module _ (n : ℕ) (some_pe : 0 < n) where
  Step-Inv : (s s' : System) → Step n s s' → Inv n s → Inv n s'
  Step-Inv _ _ (root_enters s at) inv = enters-Inv n some_pe s inv at
  Step-Inv _ _ (root_sees s at full) inv = sees-Inv n some_pe s inv at full
  Step-Inv _ _ (root_announces s i at l) inv = announces-Inv n some_pe s inv i at l
  Step-Inv _ _ (root_leaves s i at l) inv = root_leaves-Inv n some_pe s inv i at l
  Step-Inv _ _ (arrives s i z l idle) inv = arrives-Inv n some_pe s inv i z l idle
  Step-Inv _ _ (add_lands s k h) inv = add_lands-Inv n some_pe s inv k h
  Step-Inv _ _ (put_lands s i k h) inv = put_lands-Inv n some_pe s inv i k h
  Step-Inv _ _ (leaves s i z l was set) inv = leaves-Inv n some_pe s inv i z l was set

  Reach-Inv : (s : System) → Reach n s → Inv n s
  Reach-Inv _ (starts s at count adds flag puts entered left) =
      let r = left 0 in
      subst (λ g. Balanced n (s.left 0) g s.count s.adds s.flag s.puts s.entered s.left) (sym at)
        (record {
          counts =
              let e =
                sum_empty (s.left 0) s.entered n (λ i z l. let q = entered i in omega (arith, q)) in
              omega (arith, e, count, adds);
          others = λ i z l.
              let e = entered i in
              let f = left i in
              record {
                came = omega (arith, e, r);
                once = omega (arith, e, f);
                at_most = omega (arith, e, f);
                answers = let a = flag i in let b = puts i in omega (arith, a, b, f, r);
                behind = omega arith;
              };
          root = let e = entered 0 in omega (arith, e, r);
        })
  Reach-Inv _ (steps s s' reached st) = Step-Inv s s' st (Reach-Inv s reached)

  inside_collected :
      (r : ℕ) (stage : Stage) → (r ≤ collected r stage) × (collected r stage ≤ r + inside stage)
  inside_collected r outside = (omega arith, omega arith)
  inside_collected r waiting = (omega arith, omega arith)
  inside_collected r (announcing k) = (omega arith, omega arith)

  bounds :
      (s : System)
      → Inv n s
      → (i : ℕ) → i < n
      → (s.left i ≤ collected (s.left 0) s.stage) × (collected (s.left 0) s.stage ≤ s.entered i)
  bounds s inv zero l =
      let (a, b) = inside_collected (s.left 0) s.stage in (a, omega (arith, b, inv.root))
  bounds s inv (suc i) l =
      let m = inv.others (suc i) (omega arith) l in (omega (arith, m.answers, m.behind), m.came)

  -- No PE is inside.
  abbrev pub Idle : System → Type 0
  Idle s = (s.stage ≡ outside) × ((i : ℕ) → 0 < i → i < n → s.entered i ≡ s.left i)

  -- In every interleaving of one PE or more and of the additions and puts on their way, over any
  -- number of atomic barriers, no PE has left more barriers than any PE has entered; and where no
  -- PE is inside, the count and the flags are 0 again.
  pub Reach-Counted :
      (s : System)
      → Reach n s
      → ((i j : ℕ) → i < n → j < n → s.left i ≤ s.entered j)
        × (Idle s → (s.count ≡ 0) × ((i : ℕ) → 0 < i → i < n → s.flag i ≡ 0))
  Reach-Counted s reached =
      let inv = Reach-Inv s reached in
      (
        λ i j l m.
            let (a, _) = bounds s inv i l in let (_, b) = bounds s inv j m in omega (arith, a, b),
        λ idle.
            let b =
              subst (λ g. Balanced n (s.left 0) g s.count s.adds s.flag s.puts s.entered s.left)
                idle.0 inv in
            (
              (let e = sum_empty (s.left 0) s.entered n (λ i z l.
                    let m = b.others i z l in
                    let q = idle.1 i z l in omega (arith, q, m.answers)) in
                  omega (arith, e, b.counts)),
              λ i z l.
                  let m = b.others i z l in
                  let q = idle.1 i z l in omega (arith, q, m.answers, m.came),
            ),
      )
