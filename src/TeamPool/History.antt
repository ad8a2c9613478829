-- ===== src/TeamPool/History.antt =====
-- library/src/gpu_ib/backend_ib.cpp: any order of creations and ends of teams.
use roc_shmem.Common.{
  ℕ, ◌-◌, ◌<◌, ◌≡◌, ◌≢◌, sym, ap, ◌∙◌, subst, arith, inl, inr, Bool, true, false, none, some,
  update, update-cases, update_elsewhere, some_injective,
}
use roc_shmem.TeamPool.{
  Bitmask, get_bit, PoolTeam, System, create_new_team, mark, Step, creates, destroys, Reach, starts,
  steps,
}
use roc_shmem.TeamPool.Bits.{
  Created, create_new_team-Created, get_bit-set_from, get_bit-set_from_below, mark-cases,
}
use roc_shmem.TeamPool.Apart.{Live, User, Inv, creates-Inv}

module _ (num_pes max : ℕ) where
  module _ (s : System) (inv : Inv num_pes max s) (name : ℕ) (team : PoolTeam)
      (at : s.live name ≡ some team) where
    abbrev masks : ℕ → Bitmask
    masks = mark team.member team.pool_index true s.pool_bitmask

    abbrev destroyed : System
    destroyed = record { pool_bitmask = masks; live = update s.live name none }

    still_live :
        (a : ℕ) (t : PoolTeam) → destroyed.live a ≡ some t → (name ≢ a) × (s.live a ≡ some t)
    still_live a t h = elim (update-cases s.live name none a) [
      | inl (e, k) ↦ absurd (let f = sym k ∙ h in ground (arith, f))
      | inr (n, k) ↦ (n, sym k ∙ h)
    ]

    destroys-Inv : Inv num_pes max destroyed
    destroys-Inv = record {
      reserved = λ pe l. elim (mark-cases team.member team.pool_index true s.pool_bitmask pe 0) [
        | inr (n, e) ↦ e ∙ inv.reserved pe l
        | inl (m, q, e) ↦ absurd (let (z, _) = inv.inside name team at in omega (arith, z, q))
      ];
      taken = λ pe a t l h.
          let (n, k) = still_live a t h.0 in
          elim (mark-cases team.member team.pool_index true s.pool_bitmask pe t.pool_index) [
            | inr (d, e) ↦ e ∙ inv.taken pe a t l (k, h.1)
            | inl (m, q, e) ↦ absurd (n (inv.apart pe name a team t l (at, m) (k, h.1) q))
          ];
      used = λ pe i l z m h.
          elim (mark-cases team.member team.pool_index true s.pool_bitmask pe i) [
            | inl (g, q, e) ↦ absurd (let f = sym e ∙ h in ground (arith, f))
            | inr (d, e) ↦
                (let (a, t, (k, g), q) = inv.used pe i l z m (sym e ∙ h) in
                  let n : name ≢ a = λ f.
                    let same : team ≡ t = some_injective (sym at ∙ ap s.live f ∙ k) in
                    elim d [
                      | inl out ↦ (let w = ap (λ t. t.member pe) same ∙ g in ground (arith, out, w))
                      | inr other ↦ other (ap (λ t. t.pool_index) same ∙ q)
                    ] in
                  (a, t, (update_elsewhere s.live name a none n ∙ k, g), q))
          ];
      apart = λ pe a b t u l h g q.
          inv.apart pe a b t u l ((still_live a t h.0).1, h.1) ((still_live b u g.0).1, g.1) q;
      inside = λ a t h. inv.inside a t (still_live a t h).1;
    }

  Step-Inv : (s s' : System) → Step num_pes max s s' → Inv num_pes max s → Inv num_pes max s'
  unfolding Created
  Step-Inv _ _ (creates s name i pe member unused l has made) inv =
      let (fits, free) =
        subst (Created num_pes max member s.pool_bitmask) made
          (create_new_team-Created num_pes max member s.pool_bitmask) in
      creates-Inv num_pes max s inv name i pe member unused l has fits free
  Step-Inv _ _ (destroys s name team at) inv = destroys-Inv s inv name team at

  Reach-Inv : (s : System) → Reach num_pes max s → Inv num_pes max s
  unfolding get_bit
  Reach-Inv _ (starts s masks empty) = record {
    reserved = λ pe l.
        ap (λ m. get_bit m 0) (masks pe)
        ∙ get_bit-set_from_below 1 (max - 1) (λ byte bit. false) 0 (omega arith);
    taken = λ pe a t l h. absurd (let f = sym (empty a) ∙ h.0 in ground (arith, f));
    used = λ pe i l z m h. absurd (
        let f =
          ap (λ m. get_bit m i) (masks pe)
          ∙ get_bit-set_from 1 (max - 1) (λ byte bit. false) i (omega (arith, z))
              (omega (arith, m)) in
        let g = sym f ∙ h in ground (arith, g));
    apart = λ pe a b t u l h g q. absurd (let f = sym (empty a) ∙ h.0 in ground (arith, f));
    inside = λ a t h. absurd (let f = sym (empty a) ∙ h in ground (arith, f));
  }
  Reach-Inv _ (steps s s' r st) = Step-Inv s s' st (Reach-Inv s r)

  -- Live teams with a PE in common are the same or have two indices.
  abbrev pub Separate : System → Type 0
  Separate s =
      (pe a b : ℕ) (t u : PoolTeam)
      → pe < num_pes
      → Live s pe a t
      → Live s pe b u
      → t.pool_index ≡ u.pool_index
      → a ≡ b

  -- Each index but 0 is used by a live team that shares a PE.
  abbrev pub Exhausted : System → (ℕ → Bool) → Type 0
  Exhausted s member =
      (i : ℕ) → 0 < i → i < max → (pe : ℕ) × (pe < num_pes) × (member pe ≡ true) × User s pe i

  -- In every history of creations and ends of teams of one PE or more in the GPU-IB backend, two
  -- live teams with a PE in common have two indices into the pool of work arrays, each index of a
  -- live team is from 1 to below the limit, and where the PEs of a team find no common index,
  -- each of these is used by a live team that shares a PE with it.
  pub Reach-Separate :
      (s : System)
      → Reach num_pes max s
      → Separate s
        × ((a : ℕ) (t : PoolTeam) → s.live a ≡ some t → (0 < t.pool_index) × (t.pool_index < max))
        × ((member : ℕ → Bool)
            → create_new_team num_pes max member s.pool_bitmask ≡ none
            → Exhausted s member)
  unfolding Created
  Reach-Separate s reached =
      let inv = Reach-Inv s reached in
      (
        inv.apart,
        inv.inside,
        λ member full i z l.
            let (pe, m, h, c) =
              subst (Created num_pes max member s.pool_bitmask) full
                (create_new_team-Created num_pes max member s.pool_bitmask) i l in
            (pe, m, h, inv.used pe i m z l c),
      )
