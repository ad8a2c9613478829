-- ===== src/Team/Membership.antt =====
-- library/src/team.cpp: the numbers of PEs in a team and in the world correspond.
use native.Mathlib.Nat.{mul-mod_right, mul-div_cancel_left, div-add-mod}
use roc_shmem.Common.{
  ℕ, ◌+◌, ◌-◌, ◌*◌, ◌/◌, ◌%◌, ◌≤◌, ◌<◌, ◌≡◌, ◌≢◌, refl, sym, Returns, not, ap, ◌∙◌, ◌⊎◌, inl, inr,
  true, false, arith, some, Bool-cases, unequal, ltb, ◌==◌, if◌then◌else◌,
}
use roc_shmem.Common.Int.{ℤ, pos, negsuc, sub_ℕ}
use roc_shmem.Team.{Team, Teams, get_pe_in_world, get_pe_in_my_team, team_translate_pe}

-- A team of `n` PEs that begins at `start` in the world, with a positive stride.
pub record Spans (t : Team) (start stride n : ℕ) : Type 0 where
  pub starts : t.tinfo_wrt_world.pe_start ≡ pos start
  pub strides : t.tinfo_wrt_world.stride ≡ pos stride
  pub counts : t.num_pes ≡ pos n
  pub positive : 0 < stride

-- The PE `w` of the world is number `i` of the team.
abbrev pub IsMember : ℕ → ℕ → ℕ → ℤ → ℕ → Type 0
IsMember start stride n w i = (i < n) × (w ≡ pos (start + stride * i))

-- `r` is the number of the PE `w` in the team, or -1 where the team does not have it.
abbrev pub Located : ℕ → ℕ → ℕ → ℤ → ℤ → Type 0
Located start stride n w r =
    ((i : ℕ) × IsMember start stride n w i × (r ≡ pos i))
    ⊎ (((i : ℕ) → ¬ IsMember start stride n w i) × (r ≡ negsuc 0))

pub get_pe_in_world-pos :
    (t : Team) (start stride n i : ℕ)
    → Spans t start stride n
    → get_pe_in_world t (pos i) ≡ pos (start + stride * i)
unfolding get_pe_in_world
get_pe_in_world-pos t start stride n i sp = rw (sp.starts, sp.strides)

div_mod : (d s : ℕ) → d % s ≡ 0 → d ≡ s * (d / s)
div_mod d s e = omega (arith, div-add-mod d s)

sub_ℕ-pos : (a b : ℕ) → b ≤ a → sub_ℕ a b ≡ pos (a - b)
sub_ℕ-pos a b h = ground arith

pos_injective : {a b : ℕ} → pos a ≡ pos b → a ≡ b
pos_injective e = cc

-- The test of the code on the offset of a PE from the start, for any offset.
offset_cases :
    (start stride n w : ℕ)
    → 0 < stride
    → start ≤ w
    → Located start stride n (pos w) (
        if not ((w - start) % stride == 0)
        then negsuc 0
        else if not (ltb ((w - start) / stride) n)
        then negsuc 0
        else pos ((w - start) / stride))
offset_cases start stride n w positive le = elim (Bool-cases ((w - start) % stride == 0)) [
  | inr off ↦ rw off (inr (λ i m. absurd (between i m off), refl))
  | inl on ↦ rw on (elim (Bool-cases (ltb ((w - start) / stride) n)) [
    | inl inside ↦ rw inside (
        inl (
          (w - start) / stride,
          (ground arith, ap pos (omega (arith, le, div_mod (w - start) stride (ground arith)))),
          refl,
        ))
    | inr outside ↦ rw outside (inr (λ i m. absurd (beyond i m outside), refl))
  ])
]
  where
    at : (i : ℕ) → IsMember start stride n (pos w) i → w - start ≡ stride * i
    at i m = let e : w ≡ start + stride * i = ground (arith, m.1) in omega (arith, e)

    between : (i : ℕ) → IsMember start stride n (pos w) i → ((w - start) % stride == 0) ≡ false → ⊥
    between i m off = ground (arith, at i m, mul-mod_right stride i)

    beyond : (i : ℕ) → IsMember start stride n (pos w) i → ltb ((w - start) / stride) n ≡ false → ⊥
    beyond i m out = ground (arith, at i m, mul-div_cancel_left i positive)

-- In a team of positive stride, `get_pe_in_my_team` gives the number of every PE of the world
-- that the team has, and -1 for every other integer.
pub get_pe_in_my_team-Located :
    (t : Team) (start stride n : ℕ) (w : ℤ)
    → Spans t start stride n
    → Located start stride n w (get_pe_in_my_team t w)
unfolding get_pe_in_my_team
get_pe_in_my_team-Located t start stride n (negsuc w) sp = rw sp.starts (inr (λ i m. cc m.1, refl))
get_pe_in_my_team-Located t start stride n (pos w) sp =
    rw (sp.starts, sp.strides, sp.counts)
      (elim (Bool-cases (ltb w start)) [
        | inl below ↦ rw below (inr (λ i m. before (stride * i) below m.1, refl))
        | inr above ↦
            rw (above, sub_ℕ-pos w start (ground arith))
              (offset_cases start stride n w sp.positive (ground arith))
      ])
  where
    before : (k : ℕ) → ltb w start ≡ true → pos w ≡ pos (start + k) → ⊥
    before k below e = ground arith

member_unique :
    (start stride n i j : ℕ) (w : ℤ)
    → 0 < stride
    → IsMember start stride n w i
    → IsMember start stride n w j
    → i ≡ j
member_unique start stride n i j w positive mi mj =
    let same : start + stride * i ≡ start + stride * j = pos_injective (sym mi.1 ∙ mj.1) in
    let product : stride * i ≡ stride * j = omega (arith, same) in
    sym (mul-div_cancel_left i positive)
    ∙ ap (λ k. k / stride) product
    ∙ mul-div_cancel_left j positive

-- In a team of positive stride, the number of a member comes back from its number in the world.
pub get_pe_in_my_team-get_pe_in_world :
    (t : Team) (start stride n i : ℕ)
    → Spans t start stride n
    → i < n
    → get_pe_in_my_team t (get_pe_in_world t (pos i)) ≡ pos i
get_pe_in_my_team-get_pe_in_world t start stride n i sp lt =
    rw (get_pe_in_world-pos t start stride n i sp)
      (found (get_pe_in_my_team-Located t start stride n (pos (start + stride * i)) sp))
  where
    found : {r : ℤ} → Located start stride n (pos (start + stride * i)) r → r ≡ pos i
    found (inl (j, m, e)) = e ∙ ap pos (member_unique start stride n j i _ sp.positive m (lt, refl))
    found (inr (none_there, e)) = absurd (none_there i (lt, refl))

-- The translation between two live teams of positive strides gives, for a number i below the size
-- of the first team, the number in the second team of the PE that is number i in the first, or -1
-- where the second team does not have it.
pub team_translate_pe-Located :
    (teams : Teams) (a b : ℕ) (s t : Team) (start stride n start' stride' n' i : ℕ)
    → i < n
    → a ≢ 0
    → b ≢ 0
    → teams a ≡ some s
    → teams b ≡ some t
    → Spans s start stride n
    → Spans t start' stride' n'
    → Returns
        (Located start' stride' n' (pos (start + stride * i)))
        (team_translate_pe teams a (pos i) b)
unfolding team_translate_pe
team_translate_pe-Located teams a b s t start stride n start' stride' n' i inside na nb ea eb ss
      st =
    rw (unequal a 0 na, unequal b 0 nb, ea, eb, get_pe_in_world-pos s start stride n i ss)
      (get_pe_in_my_team-Located t start' stride' n' (pos (start + stride * i)) st)

-- The PEs of one team in the world, by number.
pub get_pe_in_world_step :
    (t : Team) (start stride n i d k : ℕ)
    → Spans t start stride n
    → get_pe_in_world t (pos (i + d * k)) ≡ pos (start + stride * i + stride * d * k)
get_pe_in_world_step t start stride n i d k sp =
    get_pe_in_world-pos t start stride n (i + d * k) sp ∙ ap pos (grind arith)
