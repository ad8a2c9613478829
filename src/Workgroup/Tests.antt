-- ===== src/Workgroup/Tests.antt =====
-- library/src/wg_team_ctxs_policy.cpp and wg_state.cpp: runs on pools of two entries and on three
-- buffers.
use roc_shmem.Common.{
  ℕ, ◌<◌, ◌≡◌, refl, arith, Option, none, some, List, [], ◌∷◌, map, if◌then◌else◌, ◌==◌, ◌>>=◌,
  Bool-cases, inl, inr, ◌⊎◌,
}
use roc_shmem.Common.Int.{pos}
use roc_shmem.Team.{Team}
use roc_shmem.Workgroup.{
  WgTeamInfo, init, get_team_info, find_team_in_pool, find_available_pool_entry,
}
use roc_shmem.Workgroup.Pool.{init-Sound}
use roc_shmem.Workgroup.Users.{Answer, get_team_info-Counted}
use roc_shmem.Workgroup.Tokens.{
  outside, holding, System, starts, takes, passes, Reach, begins, steps, Reach-holding,
}
use roc_shmem.Workgroup.Reserve.{reserve_wg_buffers, Reserved, reserve_wg_buffers-Reserved}

-- The team at an address.
abbrev team_at : ℕ → Team
team_at a = record {
  world_size = pos 4;
  my_pe_in_world = pos 0;
  tinfo_wrt_parent = record { parent_team = 1; pe_start = pos 0; stride = pos 1; size = pos 2 };
  tinfo_wrt_world = record { parent_team = 1; pe_start = pos 0; stride = pos 1; size = pos 2 };
  num_pes = pos 2;
  my_pe = pos 0;
}

-- The users of the entries after some calls for teams.
abbrev after : List ℕ → List WgTeamInfo → Option (List ℕ)
after [] pool = some (map (λ e. e.ref_count) pool)
after (team ∷ teams) pool = get_team_info team (team_at team) pool >>= λ p. after teams p.1

counted_twice : after (7 ∷ 9 ∷ 7 ∷ []) (init 2) ≡ some (2 ∷ 1 ∷ [])
unfolding get_team_info find_team_in_pool find_available_pool_entry init
counted_twice = refl

no_entry_left : after (7 ∷ 9 ∷ 8 ∷ []) (init 2) ≡ none
unfolding get_team_info find_team_in_pool find_available_pool_entry init
no_entry_left = refl

get_team_info-Counted_example :
    Answer team_at (init 2) (init-Sound team_at 2) 7 (get_team_info 7 (team_at 7) (init 2))
get_team_info-Counted_example = get_team_info-Counted team_at (init 2) (init-Sound team_at 2) 7

-- Two groups of the same slot: the second one passes on to the next buffer.
second_holds : (s : System) × Reach 3 s × (s.groups 1 ≡ holding 0)
second_holds = (
  _,
  steps _ _
      (steps _ _
        (steps _ _
          (steps _ _
            (steps _ _
              (begins (record { buffer_tokens = λ i. 0; groups = λ g. outside }) (λ i. refl)
                (λ g. refl))
              (starts _ 0 5 refl))
            (takes _ 0 2 refl refl))
          (starts _ 1 2 refl))
        (passes _ 1 2 refl refl))
      (takes _ 1 0 refl refl),
  refl,
)

Reach-holding_example :
    (0 < 3)
    × (second_holds.0.buffer_tokens 0 ≡ 1)
    × ((h : ℕ) → second_holds.0.groups h ≡ holding 0 → 1 ≡ h)
Reach-holding_example =
    Reach-holding 3 (omega arith) second_holds.0 second_holds.1 1 0 second_holds.2

abbrev third_free : ℕ → ℕ
third_free i = if i == 2 then 0 else 1

third_free-cases : (i : ℕ) → i < 3 → (third_free i ≡ 0) ⊎ (third_free i ≡ 1)
third_free-cases i l = elim (Bool-cases (i == 2)) [
  | inl e ↦ inl (rw e refl)
  | inr e ↦ inr (rw e refl)
]

reserve_wg_buffers-Reserved_example :
    Reserved 3 third_free 2 (omega arith) refl third_free-cases (reserve_wg_buffers 3 3 third_free)
reserve_wg_buffers-Reserved_example =
    reserve_wg_buffers-Reserved 3 third_free 2 (omega arith) refl third_free-cases 3
