-- ===== src/Team/Split/Made.antt =====
-- library/src/roc_shmem.cpp: what `roc_shmem_team_split_strided` makes of an accepted request.
use roc_shmem.Common.{
  ℕ, zero, suc, ◌+◌, ◌*◌, ◌<◌, ◌≡◌, ◌≢◌, refl, sym, ap, subst, ◌⊎◌, inl, inr, true, false, [], ◌∷◌,
  ◌++◌, arith, some, Returns, unequal, ltb,
}
use roc_shmem.Common.Int.{ℤ, pos, ◌-ℤ◌, ◌*ℤ◌, ltb_ℤ}
use roc_shmem.Team.{Team, TeamInfo, get_pe_in_world, team_invalid}
use roc_shmem.Team.Membership.{
  Spans, IsMember, Located, get_pe_in_world-pos, get_pe_in_my_team-Located,
}
use roc_shmem.Team.Split.{
  Backend, SplitResult, pe_in_active_set, build_team, get_num_user_teams, is_rejected, enter_team,
  roc_shmem_team_split_strided,
}
use roc_shmem.Team.Split.Accepts.{Accepted, is_rejected-pos, pe_in_active_set-get_pe_in_my_team}

-- The call finds a live parent, and the backend has room for a team.
pub record Ready (b : Backend) (parent_team : ℕ) (parent : Team) (p0 ps pn total me : ℕ)
    : Type 0 where
  pub named : parent_team ≢ 0
  pub live : b.teams parent_team ≡ some parent
  pub spans : Spans parent p0 ps pn
  pub pes : b.num_pes ≡ pos total
  pub mine : b.my_pe ≡ pos me
  pub room : ltb_ℤ (get_num_user_teams b) (b.max_num_teams -ℤ pos 1) ≡ true

-- The team at `address` is live and tracked, its PE `j` is PE `s + d * j` of the parent, and the
-- caller is its PE `i`.
pub record Joined (address : ℕ) (b b' : Backend) (parent : Team) (p0 ps s d k i : ℕ) (t : Team)
    : Type 0 where
  pub stored : b'.teams address ≡ some t
  pub spans : Spans t (p0 + ps * s) (d * ps) k
  pub number : t.my_pe ≡ pos i
  pub renumbers : (j : ℕ) → get_pe_in_world t (pos j) ≡ get_pe_in_world parent (pos (s + d * j))
  pub tracks : b'.tracked ≡ b.tracked ++ address ∷ []
  pub others : (a : ℕ) → a ≢ address → b'.teams a ≡ b.teams a

-- A caller in the triplet joins the new team; any other caller is given no team.
abbrev pub Made : ℕ → Backend → Team → ℕ → ℕ → ℕ → ℕ → ℕ → ℕ → SplitResult → Type 0
Made address b parent p0 ps s d k me r =
    (r.status ≡ pos 0)
    × (((i : ℕ) × IsMember (p0 + ps * s) (d * ps) k (pos me) i
          × (r.new_team ≡ address)
          × ((t : Team) × Joined address b r.backend parent p0 ps s d k i t))
        ⊎ (((i : ℕ) → ¬ IsMember (p0 + ps * s) (d * ps) k (pos me) i)
            × (r.new_team ≡ team_invalid)
            × (r.backend ≡ b)))

mul-positive : {a c : ℕ} → 0 < a → 0 < c → 0 < a * c
mul-positive {a = zero} {c = c} h k = elim h [ ]
mul-positive {a = suc a} {c = zero} h k = elim k [ ]
mul-positive {a = suc a} {c = suc c} h k = ground arith

not_below : (i : ℕ) → ltb i 0 ≡ false
not_below i = ground arith

module _ (address parent_team : ℕ) (b : Backend) (parent : Team) (p0 ps pn total s d k me : ℕ)
    (q : Ready b parent_team parent p0 ps pn total me) where
  accepted :
      Accepted p0 ps pn total s d k → is_rejected parent (pos s) (pos d) (pos k) (pos total) ≡ false
  accepted = let (to, from) = is_rejected-pos parent p0 ps pn total s d q.spans k in from

  checks_pass :
      Accepted p0 ps pn total s d k
      → roc_shmem_team_split_strided address parent_team (pos s) (pos d) (pos k) b
        ≡ some (build_team address parent_team parent (pos s) (pos d) (pos k) b)
  unfolding roc_shmem_team_split_strided
  checks_pass a =
      let open_checks : is_rejected parent (pos s) (pos d) (pos k) b.num_pes ≡ false =
        subst (λ n. is_rejected parent (pos s) (pos d) (pos k) n ≡ false) (sym q.pes)
          ((accepted a)) in
      rw (q.room, unequal parent_team 0 q.named, q.live, open_checks)

  -- The triplet as a team, to number the caller in it.
  as_team : Team
  as_team = record parent {
    tinfo_wrt_world = record parent.tinfo_wrt_world {
      pe_start = pos (p0 + ps * s);
      stride = pos (d * ps);
    };
    num_pes = pos k;
  }

  caller_Located :
      0 < d
      → Located
          (p0 + ps * s)
          (d * ps)
          k
          (pos me)
          (pe_in_active_set (pos (p0 + ps * s)) (pos (d * ps)) (pos k) (pos me))
  unfolding as_team
  caller_Located h =
      let found = get_pe_in_my_team-Located as_team (p0 + ps * s) (d * ps) k (pos me) (record {
        starts = refl;
        strides = refl;
        counts = refl;
        positive = mul-positive h q.spans.positive;
      }) in
      subst (Located (p0 + ps * s) (d * ps) k (pos me))
        (sym (pe_in_active_set-get_pe_in_my_team as_team (pos me))) found

  wrt_parent : TeamInfo
  wrt_parent = record { parent_team = parent_team; pe_start = pos s; stride = pos d; size = pos k }

  wrt_world : TeamInfo
  wrt_world = record {
    parent_team = b.team_world;
    pe_start = pos (p0 + ps * s);
    stride = pos (d * ps);
    size = pos k;
  }

  -- The team that a caller with number `i` makes.
  new_team_at : ℕ → Team
  new_team_at i = record {
    world_size = b.num_pes;
    my_pe_in_world = b.my_pe;
    tinfo_wrt_parent = wrt_parent;
    tinfo_wrt_world = wrt_world;
    num_pes = pos k;
    my_pe = pos i;
  }

  new_Spans : 0 < d → (i : ℕ) → Spans (new_team_at i) (p0 + ps * s) (d * ps) k
  unfolding new_team_at wrt_world
  new_Spans h i = record {
    starts = refl;
    strides = refl;
    counts = refl;
    positive = mul-positive h q.spans.positive;
  }

  renumbered :
      0 < d
      → (i j : ℕ)
      → get_pe_in_world (new_team_at i) (pos j) ≡ get_pe_in_world parent (pos (s + d * j))
  renumbered h i j =
      rw
        (
          get_pe_in_world-pos (new_team_at i) (p0 + ps * s) (d * ps) k j (new_Spans h i),
          get_pe_in_world-pos parent p0 ps pn (s + d * j) q.spans,
        )
        (ap pos (grind arith))

  entered :
      0 < d
      → address ≢ 0
      → (x : ℤ) → Located (p0 + ps * s) (d * ps) k (pos me) x
      → Made address b parent p0 ps s d k me (enter_team address wrt_parent wrt_world (pos k) x b)
  unfolding enter_team new_team_at
  entered h ha x (inr (m, e)) = rw e (refl, inr (m, refl, refl))
  entered h ha x (inl (i, m, e)) =
      rw (e, not_below i, unequal address 0 ha)
        (
          refl,
          inl (
            i,
            m,
            refl,
            (
              new_team_at i,
              record {
                stored = ground arith;
                spans = new_Spans h i;
                number = refl;
                renumbers = renumbered h i;
                tracks = refl;
                others = λ a ne. rw (unequal address a (λ e. ne (sym e))) refl;
              },
            ),
          ),
        )

  triplet-Made :
      0 < d
      → address ≢ 0
      → (first stride mine : ℤ) → first ≡ pos (p0 + ps * s)
      → stride ≡ pos (d * ps)
      → mine ≡ pos me
      → Made address b parent p0 ps s d k me (
          enter_team address wrt_parent
            (record { parent_team = b.team_world; pe_start = first; stride = stride; size = pos k })
            (pos k)
            (pe_in_active_set first stride (pos k) mine)
            b)
  unfolding wrt_world
  triplet-Made h ha first stride mine ef es em =
      rw (ef, es, em)
        (entered h ha (pe_in_active_set (pos (p0 + ps * s)) (pos (d * ps)) (pos k) (pos me))
          (caller_Located h))

  built :
      0 < d
      → address ≢ 0
      → Made address b parent p0 ps s d k me
          (build_team address parent_team parent (pos s) (pos d) (pos k) b)
  unfolding build_team wrt_parent
  built h ha =
      triplet-Made h ha (get_pe_in_world parent (pos s)) (pos d *ℤ parent.tinfo_wrt_world.stride)
        b.my_pe (get_pe_in_world-pos parent p0 ps pn s q.spans)
        (ap (λ x. pos d *ℤ x) q.spans.strides) q.mine

  -- An accepted request on a live parent, where the backend has room for a team and `hipMalloc`
  -- gives an address other than null, succeeds: a caller in the triplet gets a live, tracked team
  -- over the triplet whose PE j is PE `start + stride * j` of the parent, with its own number in
  -- it, and no other team changes; any other caller gets no team and the backend stays as it was.
  pub roc_shmem_team_split_strided-Made :
      Accepted p0 ps pn total s d k
      → address ≢ 0
      → Returns
          (Made address b parent p0 ps s d k me)
          (roc_shmem_team_split_strided address parent_team (pos s) (pos d) (pos k) b)
  roc_shmem_team_split_strided-Made a ha = rw (checks_pass a) (built a.forward ha)
