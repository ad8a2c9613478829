-- ===== src/Team/Split/Accepts.antt =====
-- library/src/roc_shmem.cpp: what `roc_shmem_team_split_strided` accepts and what it makes.
use roc_shmem.Common.{
  ℕ, zero, suc, ◌+◌, ◌-◌, ◌*◌, ◌≤◌, ◌<◌, ◌≡◌, ◌↔◌, refl, sym, subst, ap, ◌∙◌, false, arith, not,
  ltb, ◌||◌,
}
use roc_shmem.Common.Int.{ℤ, pos, negsuc, ◌-ℤ◌}
use roc_shmem.Team.{Team, get_pe_in_world, get_pe_in_my_team}
use roc_shmem.Team.Membership.{Spans, get_pe_in_world-pos}
use roc_shmem.Team.Split.{pe_in_active_set, is_rejected}

-- The host's search of a PE in a triplet agrees with the search of the team over that triplet,
-- for every team and integer.
pub pe_in_active_set-get_pe_in_my_team :
    (t : Team) (w : ℤ)
    → pe_in_active_set t.tinfo_wrt_world.pe_start t.tinfo_wrt_world.stride t.num_pes w
      ≡ get_pe_in_my_team t w
unfolding pe_in_active_set get_pe_in_my_team
pe_in_active_set-get_pe_in_my_team t w = ground arith

-- The requests that the checks let through: `s`, `d` and `k` are the start, stride and size, and
-- `total` is the number of PEs of the world. The last test counts one PE too many.
pub record Accepted (p0 ps pn total s d k : ℕ) : Type 0 where
  pub start_inside : s < pn
  pub nonempty : 0 < k
  pub small : k ≤ pn
  pub forward : 0 < d
  pub end_inside : p0 + ps * s + d * ps * (k - 1) ≤ total

one_less : (n : ℕ) → 0 < n → pos n -ℤ pos 1 ≡ pos (n - 1)
one_less n h = ground arith

-- The checks, with the end of the triplet computed already.
passes :
    (s pn k d total e : ℕ)
    → ((ltb s 0 || not (ltb s pn) || (ltb k 1 || ltb pn k) || (ltb d 1 || ltb total e)) ≡ false)
      ↔ ((s < pn) × (0 < k) × (k ≤ pn) × (0 < d) × (e ≤ total))
passes s pn k d total e = ground arith

module _ (parent : Team) (p0 ps pn total s d : ℕ) (spans : Spans parent p0 ps pn) where
  -- The checks on a request of natural numbers.
  pub is_rejected-pos :
      (k : ℕ)
      → (is_rejected parent (pos s) (pos d) (pos k) (pos total) ≡ false)
        ↔ Accepted p0 ps pn total s d k
  unfolding is_rejected
  is_rejected-pos zero = (λ e. absurd (ground (e, arith)), λ a. absurd (ground (a.nonempty, arith)))
  is_rejected-pos (suc k) =
      rw
        (
          get_pe_in_world-pos parent p0 ps pn s spans,
          spans.counts,
          spans.strides,
          one_less (suc k) (ground arith),
        )
        (let (to, from) = passes s pn (suc k) d total (p0 + ps * s + d * ps * (suc k - 1)) in
          (
            (λ e.
                let (h1, h2, h3, h4, h5) = to e in
                record {
                  start_inside = h1;
                  nonempty = h2;
                  small = h3;
                  forward = h4;
                  end_inside = h5;
                }),
            λ a. from (a.start_inside, a.nonempty, a.small, a.forward, a.end_inside),
          ))

-- A request that the split is to accept, for any integers: the start is the number of a PE of the
-- parent, the stride is positive, there is a PE and there are no more than in the parent, and the
-- last PE, as a number of the parent, is mapped to a number of at most `total`.
pub record Sensible (p0 ps pn total : ℕ) (start stride size : ℤ) : Type 0 where
  pub first : ℕ
  pub first_start : start ≡ pos first
  pub first_inside : first < pn
  pub apart : ℕ
  pub apart_stride : stride ≡ pos (suc apart)
  pub others : ℕ
  pub others_size : size ≡ pos (suc others)
  pub others_inside : others < pn
  pub last_inside : p0 + ps * (first + suc apart * others) ≤ total

pos_same : {a b : ℕ} → pos a ≡ pos b → a ≡ b
pos_same e = cc

below_zero : (n m : ℕ) → negsuc n ≡ pos m → ⊥
below_zero n m e = cc

module _ (parent : Team) (p0 ps pn total : ℕ) (spans : Spans parent p0 ps pn) where
  Accepted-Sensible :
      (s d k : ℕ) → Accepted p0 ps pn total s d k → Sensible p0 ps pn total (pos s) (pos d) (pos k)
  Accepted-Sensible s d k a = record {
    first = s;
    first_start = refl;
    first_inside = a.start_inside;
    apart = d - 1;
    apart_stride = ap pos (omega (arith, a.forward));
    others = k - 1;
    others_size = ap pos (omega (arith, a.nonempty));
    others_inside = omega (arith, a.nonempty, a.small);
    last_inside =
        (let e : d ≡ suc (d - 1) = omega (arith, a.forward) in
          let q : p0 + ps * s + suc (d - 1) * ps * (k - 1) ≡ p0 + ps * (s + suc (d - 1) * (k - 1)) =
            grind arith in
          subst (λ n. n ≤ total) (ap (λ d. p0 + ps * s + d * ps * (k - 1)) e ∙ q) a.end_inside);
  }

  Sensible-Accepted :
      (s d k : ℕ) → Sensible p0 ps pn total (pos s) (pos d) (pos k) → Accepted p0 ps pn total s d k
  Sensible-Accepted s d k a =
      let e = pos_same a.first_start in
      let f = pos_same a.apart_stride in
      let g = pos_same a.others_size in
      record {
        start_inside = omega (arith, e, a.first_inside);
        nonempty = omega (arith, g);
        small = omega (arith, g, a.others_inside);
        forward = omega (arith, f);
        end_inside =
            (let q : p0 + ps * a.first + suc a.apart * ps * a.others
                  ≡ p0 + ps * (a.first + suc a.apart * a.others) =
                grind arith in
              let r : k - 1 ≡ a.others = omega (arith, g) in
              subst (λ n. n ≤ total)
                (sym (
                  ap (λ x. p0 + ps * x + d * ps * (k - 1)) e
                  ∙ ap (λ x. p0 + ps * a.first + x * ps * (k - 1)) f
                  ∙ ap (λ x. p0 + ps * a.first + suc a.apart * ps * x) r
                  ∙ q))
                a.last_inside);
      }

  -- On a parent of positive stride, the checks of the split let a request of any integers through
  -- just when it is sensible: the start is the number of a PE of the parent, the stride is
  -- positive, the size is from 1 to the parent's, and the last PE, mapped from its number in the
  -- parent to the world, has a number of at most the number of PEs of the world.
  pub is_rejected_iff :
      (start stride size : ℤ)
      → (is_rejected parent start stride size (pos total) ≡ false)
        ↔ Sensible p0 ps pn total start stride size
  unfolding is_rejected
  is_rejected_iff (negsuc s) d k =
      (λ e. absurd (ground (arith, e)), λ a. absurd (below_zero s a.first a.first_start))
  is_rejected_iff (pos s) d (negsuc k) =
      (λ e. absurd (ground (arith, e)), λ a. absurd (below_zero k (suc a.others) a.others_size))
  is_rejected_iff (pos s) (negsuc d) (pos k) =
      (λ e. absurd (ground (arith, e)), λ a. absurd (below_zero d (suc a.apart) a.apart_stride))
  is_rejected_iff (pos s) (pos d) (pos k) =
      let (to, from) = is_rejected-pos parent p0 ps pn total s d spans k in
      (λ e. Accepted-Sensible s d k (to e), λ a. from (Sensible-Accepted s d k a))

-- On a world team of two PEs or more, the checks of the split let through the triplet of start 1,
-- stride 1 and the size of the world, whose last PE has the number of PEs of the world for its
-- number: one more than the last that exists.
pub is_rejected-missing_pe :
    (world : Team) (n : ℕ)
    → Spans world 0 1 n
    → 1 < n
    → (is_rejected world (pos 1) (pos 1) (pos n) (pos n) ≡ false)
      × (get_pe_in_world world (pos (1 + (n - 1))) ≡ pos n)
is_rejected-missing_pe world n spans h =
    let (to, from) = is_rejected-pos world 0 1 n n 1 1 spans n in
    (
      from (record {
        start_inside = h;
        nonempty = omega (arith, h);
        small = omega arith;
        forward = omega arith;
        end_inside = omega (arith, h);
      }),
      (get_pe_in_world-pos world 0 1 n (1 + (n - 1)) spans ∙ ap pos (omega (arith, h))),
    )
