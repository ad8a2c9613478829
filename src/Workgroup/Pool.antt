-- ===== src/Workgroup/Pool.antt =====
-- library/src/wg_team_ctxs_policy.cpp: the pool of a work-group counts the contexts of each team.
use roc_shmem.Common.{
  ℕ, zero, suc, ◌+◌, ◌<◌, ◌≡◌, refl, sym, ap, subst, arith, inl, inr, not, ◌&&◌, ◌==◌, Bool-cases,
  Option, none, some, List, [], ◌∷◌, get_elem?, some_injective,
}
use roc_shmem.Team.{Team}
use roc_shmem.Workgroup.{
  WgTeamInfo, init, empty_info, world_info, find_available_pool_entry, find_team_in_pool,
}

-- The entry `e` is at index `i` of the pool.
abbrev pub At : List WgTeamInfo → ℕ → WgTeamInfo → Type 0
At pool i e = get_elem? pool i ≡ some e

-- An entry in use for the team.
abbrev pub Has : ℕ → WgTeamInfo → Type 0
Has team e = (0 < e.ref_count) × (team ≡ e.team)

-- A team has at most one entry in use, with its PEs, and a free entry is as it was built.
pub record Sound (teams : ℕ → Team) (pool : List WgTeamInfo) : Type 0 where
  pub unique :
      (i j : ℕ) (e f : WgTeamInfo)
      → At pool i e
      → At pool j f
      → 0 < e.ref_count
      → Has e.team f
      → i ≡ j
  pub clean : (i : ℕ) (e : WgTeamInfo) → At pool i e → e.ref_count ≡ 0 → e ≡ empty_info
  pub known :
      (i : ℕ) (e : WgTeamInfo)
      → At pool i e
      → 0 < e.ref_count
      → e.team_info ≡ world_info (teams e.team)

-- What the searches find, from an index on.
unfoldable pub Found : (WgTeamInfo → Type 0) → ℕ → List WgTeamInfo → Option ℕ → Type 0
Found P i pool none = (j : ℕ) (e : WgTeamInfo) → At pool j e → P e → ⊥
Found P i pool (some k) = (j : ℕ) × (e : WgTeamInfo) × (k ≡ i + j) × At pool j e × P e

Found-later :
    (P : WgTeamInfo → Type 0) (i : ℕ) (e : WgTeamInfo) (pool : List WgTeamInfo) (r : Option ℕ)
    → (P e → ⊥)
    → Found P (i + 1) pool r
    → Found P i (e ∷ pool) r
unfolding Found
Found-later P i e pool none n f = none_later
  where
    none_later : (j : ℕ) (x : WgTeamInfo) → At (e ∷ pool) j x → P x → ⊥
    none_later zero x a p = n (subst P (sym (some_injective a)) p)
    none_later (suc j) x a p = f j x a p
Found-later P i e pool (some k) n (j, x, q, a, p) = (suc j, x, omega (arith, q), a, p)

pub find_team_in_pool-Found :
    (i team : ℕ) (pool : List WgTeamInfo) → Found (Has team) i pool (find_team_in_pool i team pool)
unfolding Found find_team_in_pool
find_team_in_pool-Found i team [] = λ j e a p. ground (arith, a)
find_team_in_pool-Found i team (e ∷ pool) =
    elim (Bool-cases (not (e.ref_count == 0) && (team == e.team))) [
      | inl here ↦
          rw here (zero, e, omega arith, refl, (ground (arith, here), ground (arith, here)))
      | inr further ↦ rw further (
          Found-later (Has team) i e pool _ (λ p. ground (arith, further, p.0, p.1))
            (find_team_in_pool-Found (i + 1) team pool))
    ]

pub find_available_pool_entry-Found :
    (i : ℕ) (pool : List WgTeamInfo)
    → Found (λ e. e.ref_count ≡ 0) i pool (find_available_pool_entry i pool)
unfolding Found find_available_pool_entry
find_available_pool_entry-Found i [] = λ j e a p. ground (arith, a)
find_available_pool_entry-Found i (e ∷ pool) = elim (Bool-cases (e.ref_count == 0)) [
  | inl free ↦ rw free (zero, e, omega arith, refl, ground (arith, free))
  | inr used ↦ rw used (
      Found-later (λ e. e.ref_count ≡ 0) i e pool _ (λ p. ground (arith, used, p))
        (find_available_pool_entry-Found (i + 1) pool))
]

-- A pool that was just built.
init-empty_info : (n i : ℕ) (e : WgTeamInfo) → At (init n) i e → e ≡ empty_info
unfolding init
init-empty_info zero i e a = absurd (ground (arith, a))
init-empty_info (suc n) zero e a = sym (some_injective a)
init-empty_info (suc n) (suc i) e a = init-empty_info n i e a

pub init-Sound : (teams : ℕ → Team) (n : ℕ) → Sound teams (init n)
init-Sound teams n = record {
  unique = λ i j e f a b z h.
      absurd (let q = ap (λ e. e.ref_count) (init-empty_info n i e a) in omega (arith, q, z));
  clean = λ i e a z. init-empty_info n i e a;
  known = λ i e a z.
      absurd (let q = ap (λ e. e.ref_count) (init-empty_info n i e a) in omega (arith, q, z));
}
