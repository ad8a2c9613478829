-- ===== src/TeamPool/Apart.antt =====
-- library/src/gpu_ib/backend_ib.cpp: live teams that share a PE have work arrays of their own.
use roc_shmem.Common.{
  ℕ, ◌<◌, ◌≡◌, refl, sym, ap, ◌∙◌, subst, arith, ◌⊎◌, inl, inr, Bool, true, false, Bool-cases, ◌==◌,
  none, some, update, update-cases, update_same, update_elsewhere, some_injective,
}
use roc_shmem.TeamPool.{get_bit, PoolTeam, System, mark}
use roc_shmem.TeamPool.Bits.{mark-cases}

-- A live team that the PE is in.
abbrev pub Live : System → ℕ → ℕ → PoolTeam → Type 0
Live s pe name team = (s.live name ≡ some team) × (team.member pe ≡ true)

-- A live team that has the PE and the index.
abbrev pub User : System → ℕ → ℕ → Type 0
User s pe i = (name : ℕ) × (team : PoolTeam) × Live s pe name team × (team.pool_index ≡ i)

module _ (num_pes max : ℕ) where
  pub record Inv (s : System) : Type 0 where
    pub reserved : (pe : ℕ) → pe < num_pes → get_bit (s.pool_bitmask pe) 0 ≡ false
    pub taken :
        (pe name : ℕ) (team : PoolTeam)
        → pe < num_pes
        → Live s pe name team
        → get_bit (s.pool_bitmask pe) team.pool_index ≡ false
    pub used :
        (pe i : ℕ)
        → pe < num_pes
        → 0 < i
        → i < max
        → get_bit (s.pool_bitmask pe) i ≡ false
        → User s pe i
    pub apart :
        (pe a b : ℕ) (t u : PoolTeam)
        → pe < num_pes
        → Live s pe a t
        → Live s pe b u
        → t.pool_index ≡ u.pool_index
        → a ≡ b
    pub inside :
        (a : ℕ) (t : PoolTeam) → s.live a ≡ some t → (0 < t.pool_index) × (t.pool_index < max)

  module _ (s : System) (inv : Inv s) (name i pe₀ : ℕ) (member : ℕ → Bool)
      (unused : s.live name ≡ none) (below : pe₀ < num_pes) (has : member pe₀ ≡ true)
      (fits : i < max)
      (free : (pe : ℕ)
        → pe < num_pes
        → member pe ≡ true
        → get_bit (s.pool_bitmask pe) i ≡ true) where
    abbrev team : PoolTeam
    team = record { member = member; pool_index = i }

    abbrev created : System
    created = record {
      pool_bitmask = mark member i false s.pool_bitmask;
      live = update s.live name (some team);
    }

    positive : 0 < i
    positive = elim (Bool-cases (i == 0)) [
      | inr e ↦ ground (arith, e)
      | inl e ↦ absurd (
          let q : i ≡ 0 = ground (arith, e) in
          let f = sym (ap (get_bit (s.pool_bitmask pe₀)) q) ∙ free pe₀ below has in
          let g = inv.reserved pe₀ below in ground (arith, f, g))
    ]

    stays_clear :
        (pe j : ℕ)
        → get_bit (s.pool_bitmask pe) j ≡ false
        → get_bit (mark member i false s.pool_bitmask pe) j ≡ false
    stays_clear pe j h = elim (mark-cases member i false s.pool_bitmask pe j) [
      | inl (m, q, e) ↦ e
      | inr (n, e) ↦ e ∙ h
    ]

    created-live :
        (a : ℕ) (t : PoolTeam)
        → created.live a ≡ some t
        → ((name ≡ a) × (team ≡ t)) ⊎ (s.live a ≡ some t)
    created-live a t h = elim (update-cases s.live name (some team) a) [
      | inl (e, k) ↦ inl (e, some_injective (sym k ∙ h))
      | inr (n, k) ↦ inr (sym k ∙ h)
    ]

    -- An index that is free at a PE is of no live team of the PE.
    none_has :
        (pe b : ℕ) (u : PoolTeam)
        → pe < num_pes
        → member pe ≡ true
        → Live s pe b u
        → i ≡ u.pool_index
        → ⊥
    none_has pe b u l m h q =
        let f = free pe l m in
        let g = ap (get_bit (s.pool_bitmask pe)) q ∙ inv.taken pe b u l h in ground (arith, f, g)

    pub creates-Inv : Inv created
    creates-Inv = record {
      reserved = λ pe l. stays_clear pe 0 (inv.reserved pe l);
      taken = λ pe a t l h. elim (created-live a t h.0) [
        | inr k ↦ stays_clear pe t.pool_index (inv.taken pe a t l (k, h.1))
        | inl (e, k) ↦
            subst (λ j. get_bit (mark member i false s.pool_bitmask pe) j ≡ false)
              (ap (λ t. t.pool_index) k)
              (elim (mark-cases member i false s.pool_bitmask pe i) [
                | inl (m, q, c) ↦ c
                | inr (n, c) ↦ absurd (elim n [
                  | inl out ↦ (let m = ap (λ t. t.member pe) k ∙ h.1 in ground (arith, out, m))
                  | inr d ↦ d refl
                ])
              ])
      ];
      used = λ pe j l z m h. elim (mark-cases member i false s.pool_bitmask pe j) [
        | inl (g, q, c) ↦ (name, team, (update_same s.live name (some team), g), q)
        | inr (n, c) ↦
            (let (a, t, (k, g), q) = inv.used pe j l z m (sym c ∙ h) in
              (
                a,
                t,
                (
                  update_elsewhere s.live name a (some team)
                        (λ e. let f = sym unused ∙ ap s.live e ∙ k in ground (arith, f))
                      ∙ k,
                  g,
                ),
                q,
              ))
      ];
      apart = λ pe a b t u l h g q. elim (created-live a t h.0) [
        | inl (e, k) ↦ elim (created-live b u g.0) [
          | inl (f, j) ↦ sym e ∙ f
          | inr j ↦ absurd (
              none_has pe b u l (ap (λ t. t.member pe) k ∙ h.1) (j, g.1)
                (ap (λ t. t.pool_index) k ∙ q))
        ]
        | inr k ↦ elim (created-live b u g.0) [
          | inl (f, j) ↦ absurd (
              none_has pe a t l (ap (λ t. t.member pe) j ∙ g.1) (k, h.1)
                (ap (λ t. t.pool_index) j ∙ sym q))
          | inr j ↦ inv.apart pe a b t u l (k, h.1) (j, g.1) q
        ]
      ];
      inside = λ a t h. elim (created-live a t h) [
        | inl (e, k) ↦ subst (λ t. (0 < t.pool_index) × (t.pool_index < max)) k (positive, fits)
        | inr k ↦ inv.inside a t k
      ];
    }
