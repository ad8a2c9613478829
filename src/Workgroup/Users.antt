-- ===== src/Workgroup/Users.antt =====
-- library/src/wg_team_ctxs_policy.cpp: the contexts of a team have one entry of the pool, which
-- counts them.
use roc_shmem.Common.{
  ℕ, ◌+◌, ◌-◌, ◌<◌, ◌≡◌, ◌≢◌, refl, sym, ap, ◌∙◌, subst, arith, ◌⊎◌, inl, inr, true, false, ltb,
  ◌==◌, Bool-cases, Option, none, some, ◌>>=◌, List, set, get_elem?, get_elem?-set,
  get_elem?-set_elsewhere, set-set, set-get_elem?, some_injective,
}
use roc_shmem.Team.{Team}
use roc_shmem.Workgroup.{
  WgTeamInfo, empty_info, world_info, new_info, find_available_pool_entry, find_team_in_pool,
  retain, get_team_info, remove_team_info,
}
use roc_shmem.Workgroup.Pool.{
  At, Has, Sound, Found, find_team_in_pool-Found, find_available_pool_entry-Found,
}

-- The entry of a team with `n` contexts.
abbrev pub entry_of : ℕ → Team → ℕ → WgTeamInfo
entry_of team t n = record { ref_count = n; team = team; team_info = world_info t }

module _ (teams : ℕ → Team) (pool : List WgTeamInfo) (sound : Sound teams pool) (team : ℕ) where
  abbrev t : Team
  t = teams team

  module _ (i : ℕ) (e : WgTeamInfo) (at : At pool i e) where
    abbrev counted : List WgTeamInfo
    counted = set pool i (entry_of team t (e.ref_count + 1))

    counted-At :
        (j : ℕ) (f : WgTeamInfo)
        → At counted j f
        → ((i ≡ j) × (entry_of team t (e.ref_count + 1) ≡ f)) ⊎ ((i ≢ j) × At pool j f)
    counted-At j f h = elim (Bool-cases (i == j)) [
      | inl same ↦
          (let q : i ≡ j = ground (arith, same) in
            inl (
              q,
              some_injective (sym (get_elem?-set pool i _ e at) ∙ ap (get_elem? counted) q ∙ h),
            ))
      | inr other ↦
          (let n : i ≢ j = λ q. ground (arith, other, q) in
            inr (n, sym (get_elem?-set_elsewhere pool i j _ n) ∙ h))
    ]

    counted-Sound :
        ((j : ℕ) (f : WgTeamInfo) → At pool j f → i ≢ j → Has team f → ⊥) → Sound teams counted
    counted-Sound alone = record {
      unique = λ j k f g a b z h. elim (counted-At j f a) [
        | inl (p, x) ↦ elim (counted-At k g b) [
          | inl (q, y) ↦ sym p ∙ q
          | inr (n, b) ↦ absurd (alone k g b n (subst (λ f. Has f.team g) (sym x) h))
        ]
        | inr (m, a) ↦ elim (counted-At k g b) [
          | inl (q, y) ↦
              absurd (let w = subst (λ g. f.team ≡ g.team) (sym y) h.1 in alone j f a m (z, sym w))
          | inr (n, b) ↦ sound.unique j k f g a b z h
        ]
      ];
      clean = λ j f a z. elim (counted-At j f a) [
        | inl (p, x) ↦ absurd (let w = subst (λ f. f.ref_count ≡ 0) (sym x) z in omega (arith, w))
        | inr (n, a) ↦ sound.clean j f a z
      ];
      known = λ j f a z. elim (counted-At j f a) [
        | inl (p, x) ↦ subst (λ f. f.team_info ≡ world_info (teams f.team)) x refl
        | inr (n, a) ↦ sound.known j f a z
      ];
    }

    -- An entry that is free, or one of the team.
    abbrev Given : Type 0
    Given = (e.ref_count ≡ 0) ⊎ Has team e

    last : e.ref_count ≡ 0 → remove_team_info i counted ≡ some pool
    unfolding remove_team_info
    last z =
        let one : (e.ref_count + 1 - 1 == 0) ≡ true = ground (arith, z) in
        let some_user : ltb 0 (e.ref_count + 1) ≡ true = ground arith in
        let back : set counted i empty_info ≡ pool =
          set-set pool i _ empty_info
          ∙ ap (set pool i) (sym (sound.clean i e at z))
          ∙ set-get_elem? pool i e at in
        rw (get_elem?-set pool i (entry_of team t (e.ref_count + 1)) e at, some_user, one)
          (ap some back)

    fewer : Has team e → remove_team_info i counted ≡ some pool
    unfolding remove_team_info
    fewer h =
        let more : (e.ref_count + 1 - 1 == 0) ≡ false = ground (arith, h.0) in
        let some_user : ltb 0 (e.ref_count + 1) ≡ true = ground arith in
        let same : entry_of team t (e.ref_count + 1 - 1) ≡ e =
          (let n : e.ref_count + 1 - 1 ≡ e.ref_count = omega arith in
            let i : world_info t ≡ e.team_info =
              ap (λ x. world_info (teams x)) h.1 ∙ sym (sound.known i e at h.0) in
            ap (entry_of team t) n
            ∙ ap (λ x. record { ref_count = e.ref_count; team = x; team_info = world_info t }) h.1
            ∙ ap (λ x. record { ref_count = e.ref_count; team = e.team; team_info = x }) i) in
        let back : set counted i (entry_of team t (e.ref_count + 1 - 1)) ≡ pool =
          set-set pool i _ _ ∙ ap (set pool i) same ∙ set-get_elem? pool i e at in
        rw (get_elem?-set pool i (entry_of team t (e.ref_count + 1)) e at, some_user, more)
          (ap some back)

    give_back : Given → remove_team_info i counted ≡ some pool
    give_back (inl z) = last z
    give_back (inr h) = fewer h

  -- What a call gives: the entry of the team at the index counts one context more, the others are
  -- as they were, and giving it back restores the pool.
  pub record Counted (i : ℕ) (pool' : List WgTeamInfo) : Type 0 where
    pub entry : WgTeamInfo
    pub at : At pool i entry
    pub given : (entry.ref_count ≡ 0) ⊎ Has team entry
    pub now : pool' ≡ set pool i (entry_of team t (entry.ref_count + 1))
    pub sound_after : Sound teams pool'
    pub back : remove_team_info i pool' ≡ some pool

  -- Every entry has contexts of other teams.
  abbrev pub Full : Type 0
  Full = (j : ℕ) (e : WgTeamInfo) → At pool j e → (0 < e.ref_count) × (team ≢ e.team)

  retain_lem :
      (p : List WgTeamInfo) (i : ℕ) (e : WgTeamInfo)
      → At p i e
      → retain i p ≡ some (i, set p i (record e { ref_count = e.ref_count + 1 }))
  retain_lem p i e a = rw a refl

  counts :
      (i : ℕ) (e : WgTeamInfo) (at : At pool i e)
      → (e.ref_count ≡ 0) ⊎ Has team e
      → ((j : ℕ) (f : WgTeamInfo) → At pool j f → i ≢ j → Has team f → ⊥)
      → (pool' : List WgTeamInfo) → pool' ≡ counted i e at
      → Counted i pool'
  counts i e at given alone pool' q = subst (Counted i) (sym q) (record {
    entry = e;
    at = at;
    given = given;
    now = refl;
    sound_after = counted-Sound i e at alone;
    back = give_back i e at given;
  })

  found :
      (i : ℕ) (e : WgTeamInfo)
      → At pool i e
      → Has team e
      → Counted i (set pool i (record e { ref_count = e.ref_count + 1 }))
  found i e at h =
      let info : e.team_info ≡ world_info t =
        sound.known i e at h.0 ∙ ap (λ x. world_info (teams x)) (sym h.1) in
      counts i e at (inr h) (λ j f a n g. n (sound.unique i j e f at a h.0 (g.0, sym h.1 ∙ g.1))) _
        (ap (set pool i) (
          ap (λ x. record { ref_count = e.ref_count + 1; team = x; team_info = e.team_info })
            (sym h.1)
          ∙ ap (λ x. record { ref_count = e.ref_count + 1; team = team; team_info = x }) info))

  fresh :
      (i : ℕ) (e : WgTeamInfo) (at : At pool i e)
      → e.ref_count ≡ 0
      → ((j : ℕ) (f : WgTeamInfo) → At pool j f → Has team f → ⊥)
      → Counted i (set (set pool i (new_info team t)) i (entry_of team t (0 + 1)))
  fresh i e at z absent =
      counts i e at (inl z) (λ j f a n h. absent j f a h) _
        (set-set pool i _ _ ∙ ap (λ n. set pool i (entry_of team t (n + 1))) (sym z))

  -- What a call has to give.
  abbrev pub Answer : Option (ℕ × List WgTeamInfo) → Type 0
  Answer r = ((p : ℕ × List WgTeamInfo) × (r ≡ some p) × Counted p.0 p.1) ⊎ ((r ≡ none) × Full)

  taken :
      (r : Option ℕ)
      → Found (λ e. e.ref_count ≡ 0) 0 pool r
      → ((j : ℕ) (f : WgTeamInfo) → At pool j f → Has team f → ⊥)
      → Answer (r >>= λ i. retain i (set pool i (new_info team t)))
  unfolding Found
  taken none f absent = inr (
    refl,
    λ j e a. elim (Bool-cases (e.ref_count == 0)) [
      | inl free ↦ absurd (f j e a (ground (arith, free)))
      | inr used ↦ (let z : 0 < e.ref_count = ground (arith, used) in (z, λ q. absent j e a (z, q)))
    ],
  )
  taken (some k) (j, e, q, a, z) absent =
      let at : At pool k e = subst (λ x. At pool x e) (sym (q ∙ omega arith)) a in
      inl (_, retain_lem _ k (new_info team t) (get_elem?-set pool k _ e at), fresh k e at z absent)

  searched :
      (r : Option ℕ)
      → Found (Has team) 0 pool r
      → Answer (elim r [
        | some i ↦ retain i pool
        | none ↦ find_available_pool_entry 0 pool >>= λ i. retain i (set pool i (new_info team t))
      ])
  unfolding Found
  searched none f =
      taken (find_available_pool_entry 0 pool) (find_available_pool_entry-Found 0 pool) f
  searched (some k) (j, e, q, a, h) =
      let at : At pool k e = subst (λ x. At pool x e) (sym (q ∙ omega arith)) a in
      inl (_, retain_lem pool k e at, found k e at h)

  -- On a sound pool, in which a team has at most one entry in use and with the PEs of the team,
  -- `get_team_info` gives the entry that the team has, or a free one that it makes the team's,
  -- with one user more: the other entries stay, the pool stays sound, and `remove_team_info` of
  -- the entry gives the pool from before. It fails just where every entry is in use by another
  -- team.
  pub get_team_info-Counted : Answer (get_team_info team t pool)
  unfolding get_team_info
  get_team_info-Counted =
      searched (find_team_in_pool 0 team pool) (find_team_in_pool-Found 0 team pool)
