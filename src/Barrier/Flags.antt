-- ===== src/Barrier/Flags.antt =====
-- library/src/gpu_ib/gpu_ib_gpu_coll.cpp: the puts of a direct barrier and what they do to the
-- flags.
use roc_shmem.Common.{
  ℕ, ◌+◌, ◌-◌, ◌/◌, ◌<◌, ◌≤◌, ◌≡◌, ◌≢◌, refl, sym, ap, ◌∙◌, subst, arith, inl, inr, update,
  update_elsewhere, update-cases,
}
use roc_shmem.Barrier.{
  Triplet, member, Stage, outside, waiting, announcing, System, write, put_nbi, reset,
}
use roc_shmem.Barrier.Invariant.{
  collected, announced, inside, Balanced, Inv, not_root, offset_of, member_injective, write-cases,
  write_here, write_elsewhere,
}

announced_behind : (r : ℕ) (stage : Stage) (i : ℕ) → announced r stage i ≤ collected r stage i
announced_behind r outside i = omega arith
announced_behind r (waiting k) i = ground arith
announced_behind r (announcing k) i = ground arith

module _ (t : Triplet) (apart : 0 < t.stride) (s : System) (inv : Inv t s) where
  abbrev root : ℕ
  root = t.pe_start

  pub announces-Inv :
      (k : ℕ)
      → s.stage ≡ announcing k
      → k < t.n_pes
      → Inv t (record (put_nbi 0 (member t k) s) { stage = announcing (k + 1) })
  announces-Inv k was h = record {
    others = λ i z l.
        let b =
          subst
            (λ g.
              Balanced (s.left root) g i (s.psync root i) (s.flying root i) (s.psync (member t i) 0)
                (s.flying (member t i) 0) (s.entered (member t i)) (s.left (member t i)))
            was (inv.others i z l) in
        let v = s.flying (member t k) 0 + 1 in
        let far =
          write_elsewhere s.flying (member t k) 0 v root i (inr (λ e. omega (arith, e, z))) in
        elim (write-cases s.flying (member t k) 0 v (member t i) 0) [
          | inl (p, q, e) ↦ record {
            arrivals = omega (arith, b.arrivals, far);
            answers =
                let j : k ≡ i = member_injective t apart k i p in
                let w = ap (λ pe. s.flying pe 0) p in ground (arith, b.answers, e, j, w);
            once = b.once;
            at_most = b.at_most;
          }
          | inr (o, e) ↦ record {
            arrivals = omega (arith, b.arrivals, far);
            answers =
                let n : k ≢ i = λ j. elim o [ inl n ↦ n (ap (member t) j) | inr n ↦ n refl ] in
                ground (arith, b.answers, e, n);
            once = b.once;
            at_most = b.at_most;
          }
        ];
    root = inv.root ∙ ap (λ g. s.left root + inside g) was;
  }

  -- A flag that is on its way has no other in its place.
  pub lands-Inv :
      (pe at k : ℕ)
      → s.flying pe at ≡ k + 1
      → Inv t (record s { psync = write s.psync pe at 1; flying = write s.flying pe at k })
  lands-Inv pe at k was = record {
    others = λ i z l.
        let b = inv.others i z l in
        let behind = announced_behind (s.left root) s.stage i in
        record {
          arrivals = elim (write-cases s.psync pe at 1 root i) [
            | inl (p, q, e) ↦
                (let f : write s.flying pe at k root i ≡ k =
                    subst (λ x. write s.flying pe at k x i ≡ k) p
                      (subst (λ y. write s.flying pe at k pe y ≡ k) q
                        (write_here s.flying pe at k)) in
                  let w : s.flying root i ≡ k + 1 =
                    subst (λ x. s.flying x i ≡ k + 1) p
                      (subst (λ y. s.flying pe y ≡ k + 1) q was) in
                  omega (arith, b.arrivals, b.answers, b.at_most, behind, e, f, w))
            | inr (o, e) ↦
                (let f = write_elsewhere s.flying pe at k root i o in
                  omega (arith, b.arrivals, e, f))
          ];
          answers = elim (write-cases s.psync pe at 1 (member t i) 0) [
            | inl (p, q, e) ↦
                (let f : write s.flying pe at k (member t i) 0 ≡ k =
                    subst (λ x. write s.flying pe at k x 0 ≡ k) p
                      (subst (λ y. write s.flying pe at k pe y ≡ k) q
                        (write_here s.flying pe at k)) in
                  let w : s.flying (member t i) 0 ≡ k + 1 =
                    subst (λ x. s.flying x 0 ≡ k + 1) p
                      (subst (λ y. s.flying pe y ≡ k + 1) q was) in
                  omega (arith, b.arrivals, b.answers, b.at_most, behind, e, f, w))
            | inr (o, e) ↦
                (let f = write_elsewhere s.flying pe at k (member t i) 0 o in
                  omega (arith, b.answers, e, f))
          ];
          once = b.once;
          at_most = b.at_most;
        };
    root = inv.root;
  }

  module _ (i₀ : ℕ) (after_root : 0 < i₀) where
    abbrev pe₀ : ℕ
    pe₀ = member t i₀

    pub arrives-Inv :
        s.entered pe₀ ≡ s.left pe₀
        → Inv t (record (put_nbi ((pe₀ - root) / t.stride) root s) {
          entered = update s.entered pe₀ (s.entered pe₀ + 1);
        })
    arrives-Inv idle =
        subst
          (λ at.
            Inv t
              (record (put_nbi at root s) { entered = update s.entered pe₀ (s.entered pe₀ + 1) }))
          (sym (offset_of t apart i₀))
          (record {
            others = λ i z l.
                let b = inv.others i z l in
                let v = s.flying root i₀ + 1 in
                let far =
                  write_elsewhere s.flying root i₀ v (member t i) 0 (inl (not_root t apart i z)) in
                elim (update-cases s.entered pe₀ (s.entered pe₀ + 1) (member t i)) [
                  | inl (p, e) ↦
                      (let j : i₀ ≡ i = member_injective t apart i₀ i p in
                        let f : write s.flying root i₀ v root i ≡ v =
                          subst (λ y. write s.flying root i₀ v root y ≡ v) j
                            (write_here s.flying root i₀ v) in
                        let w = ap (s.flying root) j in
                        let u = ap s.entered p in
                        let y = ap s.left p in
                        record {
                          arrivals = omega (arith, b.arrivals, e, f, w, u);
                          answers = omega (arith, b.answers, far);
                          once = omega (arith, e, u, b.once);
                          at_most = omega (arith, e, u, y, idle);
                        })
                  | inr (n, e) ↦
                      (let f =
                          write_elsewhere s.flying root i₀ v root i
                            (inr (λ j. n (ap (member t) j))) in
                        record {
                          arrivals = omega (arith, b.arrivals, e, f);
                          answers = omega (arith, b.answers, far);
                          once = omega (arith, e, b.once);
                          at_most = omega (arith, e, b.at_most);
                        })
                ];
            root =
                update_elsewhere s.entered pe₀ root _ (λ e. not_root t apart i₀ after_root (sym e))
                ∙ inv.root;
          })

    pub leaves-Inv :
        s.entered pe₀ ≡ s.left pe₀ + 1
        → s.psync pe₀ 0 ≡ 1
        → Inv t (record (reset 0 pe₀ s) { left = update s.left pe₀ (s.left pe₀ + 1) })
    leaves-Inv inside₀ set =
        let root_left : update s.left pe₀ (s.left pe₀ + 1) root ≡ s.left root =
          update_elsewhere s.left pe₀ root _ (λ e. not_root t apart i₀ after_root (sym e)) in
        record {
          others = λ i z l.
              let b =
                subst
                  (λ r.
                    Balanced r s.stage i (s.psync root i) (s.flying root i) (s.psync (member t i) 0)
                      (s.flying (member t i) 0) (s.entered (member t i)) (s.left (member t i)))
                  (sym root_left) (inv.others i z l) in
              let far = write_elsewhere s.psync pe₀ 0 0 root i (inr (λ e. omega (arith, e, z))) in
              elim (update-cases s.left pe₀ (s.left pe₀ + 1) (member t i)) [
                | inl (p, e) ↦
                    (let f : write s.psync pe₀ 0 0 (member t i) 0 ≡ 0 =
                        subst (λ x. write s.psync pe₀ 0 0 x 0 ≡ 0) p (write_here s.psync pe₀ 0 0) in
                      let w = ap (λ x. s.psync x 0) p in
                      let u = ap s.entered p in
                      let y = ap s.left p in
                      record {
                        arrivals = omega (arith, b.arrivals, far);
                        answers = omega (arith, b.answers, e, f, w, y, set);
                        once = omega (arith, e, u, y, inside₀);
                        at_most = omega (arith, e, y, b.at_most);
                      })
                | inr (n, e) ↦
                    (let f = write_elsewhere s.psync pe₀ 0 0 (member t i) 0 (inl n) in
                      record {
                        arrivals = omega (arith, b.arrivals, far);
                        answers = omega (arith, b.answers, e, f);
                        once = omega (arith, e, b.once);
                        at_most = omega (arith, e, b.at_most);
                      })
              ];
          root = inv.root ∙ ap (λ r. r + inside s.stage) (sym root_left);
        }
