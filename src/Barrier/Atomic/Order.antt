-- ===== src/Barrier/Atomic/Order.antt =====
-- library/src/gpu_ib/gpu_ib_gpu_coll.cpp: no PE leaves an atomic barrier before all have entered it.
use roc_shmem.Common.{
  ℕ, ◌+◌, ◌-◌, ◌<◌, ◌≤◌, ◌≡◌, sym, ap, ◌∙◌, subst, arith, inl, inr, true, false, if◌then◌else◌,
  ◌==◌, ltb, Bool-cases, sum, sum-update, update, update-cases, update_same, update_elsewhere,
}
use roc_shmem.Barrier.Atomic.{
  Stage, outside, waiting, announcing, System, gather, announce, arrive, depart,
}
use roc_shmem.Barrier.Atomic.Counts.{pending, sum_bounded, sum_full, sum_empty}

abbrev pub inside : Stage → ℕ
inside outside = 0
inside waiting = 1
inside (announcing k) = 1

-- The arrivals of each PE that the first one has taken, after it has left `r` barriers, and the
-- announcements that it has sent to a PE.
abbrev pub collected : ℕ → Stage → ℕ
collected r outside = r
collected r waiting = r
collected r (announcing k) = r + 1

abbrev pub announced : ℕ → Stage → ℕ → ℕ
announced r outside i = r
announced r waiting i = r
announced r (announcing k) i = if ltb i k then r + 1 else r

announced_behind : (r : ℕ) (stage : Stage) (i : ℕ) → announced r stage i ≤ collected r stage
announced_behind r outside i = omega arith
announced_behind r waiting i = omega arith
announced_behind r (announcing k) i = ground arith

-- A PE after the first, by its numbers.
pub record Member (c a flag puts entered left : ℕ) : Type 0 where
  pub came : c ≤ entered
  pub once : left ≤ entered
  pub at_most : entered ≤ left + 1
  pub answers : a ≡ left + flag + puts
  pub behind : a ≤ c

pub record Balanced (n r : ℕ) (stage : Stage) (count adds : ℕ) (flag puts entered left : ℕ → ℕ)
    : Type 0 where
  pub counts : sum (pending (collected r stage)) n entered ≡ count + adds
  pub others :
      (i : ℕ)
      → 0 < i
      → i < n
      → Member (collected r stage) (announced r stage i) (flag i) (puts i) (entered i) (left i)
  pub root : entered 0 ≡ r + inside stage

abbrev pub Inv : ℕ → System → Type 0
Inv n s = Balanced n (s.left 0) s.stage s.count s.adds s.flag s.puts s.entered s.left

come_once : {c a flag puts entered left : ℕ} → Member c a flag puts entered left → entered ≤ c + 1
come_once m = omega (arith, m.at_most, m.answers, m.behind)

-- The sum after a PE has entered.
pending-update :
    (c n : ℕ) (entered : ℕ → ℕ) (i : ℕ)
    → 0 < i
    → i < n
    → c ≤ entered i
    → sum (pending c) n (update entered i (entered i + 1)) ≡ sum (pending c) n entered + 1
pending-update c n entered i z l h =
    let u = sum-update (pending c) n entered i (entered i + 1) l in
    let f : (i == 0) ≡ false = ground (arith, z) in
    let g : sum (pending c) n (update entered i (entered i + 1)) + (entered i - c)
        ≡ sum (pending c) n entered + (entered i + 1 - c) =
      rw f at u in
    omega (arith, g, h)

module _ (n : ℕ) (some_pe : 0 < n) (s : System) (inv : Inv n s) where
  abbrev r : ℕ
  r = s.left 0

  -- The numbers where the first PE stands at `stage`.
  seen :
      (stage : Stage)
      → s.stage ≡ stage
      → Balanced n r stage s.count s.adds s.flag s.puts s.entered s.left
  seen stage at = subst (λ g. Balanced n r g s.count s.adds s.flag s.puts s.entered s.left) at inv

  pub enters-Inv :
      s.stage ≡ outside
      → Inv n (record s { stage = waiting; entered = update s.entered 0 (s.entered 0 + 1) })
  enters-Inv at =
      let b = seen outside at in
      record {
        counts =
            let u = sum-update (pending r) n s.entered 0 (s.entered 0 + 1) some_pe in
            omega (arith, u, b.counts);
        others = λ i z l.
            subst (λ e. Member r r (s.flag i) (s.puts i) e (s.left i))
              (sym (update_elsewhere s.entered 0 i _ (λ e. omega (arith, e, z)))) (b.others i z l);
        root = let u = update_same s.entered 0 (s.entered 0 + 1) in omega (arith, u, b.root);
      }

  pub sees-Inv : s.stage ≡ waiting → s.count ≡ n - 1 → Inv n (gather s)
  sees-Inv at full =
      let b = seen waiting at in
      let once : (i : ℕ) → 0 < i → i < n → s.entered i ≤ r + 1 =
        λ i z l. come_once (b.others i z l) in
      let all = sum_full r s.entered n once (omega (arith, full, b.counts)) in
      let bound = sum_bounded r s.entered n once in
      record {
        counts =
            let e =
              sum_empty (r + 1) s.entered n (λ i z l. let q = all i z l in omega (arith, q)) in
            omega (arith, e, bound, full, b.counts);
        others = λ i z l.
            let m = b.others i z l in
            let q = all i z l in
            let f : ltb i 1 ≡ false = ground (arith, z) in
            record {
              came = omega (arith, q);
              once = m.once;
              at_most = m.at_most;
              answers = rw f m.answers;
              behind = rw f (omega arith);
            };
        root = b.root;
      }

  pub announces-Inv : (k : ℕ) → s.stage ≡ announcing k → k < n → Inv n (announce k s)
  announces-Inv k at h =
      let b = seen (announcing k) at in
      record {
        counts = b.counts;
        others = λ i z l.
            let m = b.others i z l in
            record {
              came = m.came;
              once = m.once;
              at_most = m.at_most;
              answers = elim (update-cases s.puts k (s.puts k + 1) i) [
                | inl (q, e) ↦ (let w = ap s.puts q in ground (arith, m.answers, q, e, w))
                | inr (d, e) ↦ ground (arith, m.answers, d, e)
              ];
              behind = announced_behind r (announcing (k + 1)) i;
            };
        root = b.root;
      }

  pub root_leaves-Inv :
      (k : ℕ)
      → s.stage ≡ announcing k
      → n ≤ k
      → Inv n (record s { stage = outside; left = update s.left 0 (s.left 0 + 1) })
  root_leaves-Inv k at h =
      let b = seen (announcing k) at in
      subst
        (λ x. Balanced n x outside s.count s.adds s.flag s.puts s.entered (update s.left 0 (r + 1)))
        (sym (update_same s.left 0 (r + 1)))
        (record {
          counts = b.counts;
          others = λ i z l.
              let m = b.others i z l in
              let f : ltb i k ≡ true = ground (arith, h, l) in
              subst (λ e. Member (r + 1) (r + 1) (s.flag i) (s.puts i) (s.entered i) e)
                (sym (update_elsewhere s.left 0 i _ (λ e. omega (arith, e, z))))
                (record {
                  came = m.came;
                  once = m.once;
                  at_most = m.at_most;
                  answers = rw f at m.answers;
                  behind = omega arith;
                });
          root = omega (arith, b.root);
        })

  pub arrives-Inv : (i : ℕ) → 0 < i → i < n → s.entered i ≡ s.left i → Inv n (arrive i s)
  arrives-Inv i z l idle = record {
    counts =
        let m = inv.others i z l in
        let u = pending-update (collected r s.stage) n s.entered i z l m.came in
        omega (arith, u, inv.counts);
    others = λ j y k.
        let m = inv.others j y k in
        elim (update-cases s.entered i (s.entered i + 1) j) [
          | inr (d, e) ↦
              subst
                (λ x.
                  Member (collected r s.stage) (announced r s.stage j) (s.flag j) (s.puts j) x
                    (s.left j))
                (sym e) m
          | inl (q, e) ↦
              (let a = ap s.entered q in
                let b = ap s.left q in
                record {
                  came = omega (arith, e, a, m.came);
                  once = omega (arith, e, a, m.once);
                  at_most = omega (arith, e, a, b, idle);
                  answers = m.answers;
                  behind = m.behind;
                })
        ];
    root = update_elsewhere s.entered i 0 _ (λ e. omega (arith, e, z)) ∙ inv.root;
  }

  pub add_lands-Inv : (k : ℕ) → s.adds ≡ k + 1 → Inv n (record s { adds = k; count = s.count + 1 })
  add_lands-Inv k h = record {
    counts = omega (arith, h, inv.counts);
    others = inv.others;
    root = inv.root;
  }

  pub put_lands-Inv :
      (i k : ℕ)
      → s.puts i ≡ k + 1
      → Inv n (record s { puts = update s.puts i k; flag = update s.flag i 1 })
  put_lands-Inv i k h = record {
    counts = inv.counts;
    others = λ j z l.
        let m = inv.others j z l in
        record {
          came = m.came;
          once = m.once;
          at_most = m.at_most;
          answers = elim (Bool-cases (i == j)) [
            | inr d ↦ rw d m.answers
            | inl q ↦
                (let w = ap s.puts (the_same i j q) in
                  rw q (omega (arith, w, h, m.answers, m.behind, m.came, m.at_most)))
          ];
          behind = m.behind;
        };
    root = inv.root;
  }
    where
      the_same : (i j : ℕ) → (i == j) ≡ true → i ≡ j
      the_same i j q = ground (arith, q)

  pub leaves-Inv :
      (i : ℕ) → 0 < i → i < n → s.entered i ≡ s.left i + 1 → s.flag i ≡ 1 → Inv n (depart i s)
  leaves-Inv i z l was set =
      subst
        (λ x.
          Balanced n x s.stage s.count s.adds (update s.flag i 0) s.puts s.entered
            (update s.left i (s.left i + 1)))
        (sym (update_elsewhere s.left i 0 _ (λ e. omega (arith, e, z))))
        (record {
          counts = inv.counts;
          others = λ j y k.
              let m = inv.others j y k in
              elim (Bool-cases (i == j)) [
                | inr d ↦ rw d m
                | inl q ↦
                    (let p : i ≡ j = ground (arith, q) in
                      let a = ap s.left p in
                      let b = ap s.flag p in
                      let c = ap s.entered p in
                      rw q (record {
                        came = m.came;
                        once = omega (arith, a, c, was);
                        at_most = omega (arith, a, m.at_most);
                        answers = omega (arith, a, b, set, m.answers);
                        behind = m.behind;
                      }))
              ];
          root = inv.root;
        })
