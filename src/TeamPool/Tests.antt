-- ===== src/TeamPool/Tests.antt =====
-- library/src/gpu_ib/backend_ib.cpp: three PEs with three work arrays each.
use roc_shmem.Common.{ℕ, ◌<◌, ◌≡◌, refl, arith, Bool, false, none, some, ltb}
use roc_shmem.TeamPool.{
  get_bit, set_bit, set_from, PoolTeam, System, create_new_team, get_ls_non_zero_bit,
  ls_non_zero_from, reduced_bitmask, mark, creates, Reach, starts, steps,
}
use roc_shmem.TeamPool.History.{Separate, Exhausted, Reach-Separate}

abbrev first_two : ℕ → Bool
first_two pe = ltb pe 2

abbrev last_two : ℕ → Bool
last_two pe = ltb 0 pe

-- The second team shares PE 1 with the first one and gets the next index.
second_team : (s : System) × Reach 3 3 s × (create_new_team 3 3 last_two s.pool_bitmask ≡ none)
unfolding create_new_team get_ls_non_zero_bit ls_non_zero_from reduced_bitmask get_bit set_bit
    set_from mark
second_team = (
  _,
  steps _ _
      (steps _ _
        (starts
          (record { pool_bitmask = λ pe. set_from 1 2 (λ byte bit. false); live = λ name. none })
          (λ pe. refl) (λ name. refl))
        (creates _ 0 1 0 first_two refl (omega arith) refl refl))
      (creates _ 1 2 1 last_two refl (omega arith) refl refl),
  refl,
)

Reach-Separate_example :
    Separate 3 3 second_team.0
    × ((a : ℕ) (t : PoolTeam)
        → second_team.0.live a ≡ some t
        → (0 < t.pool_index) × (t.pool_index < 3))
    × ((member : ℕ → Bool)
        → create_new_team 3 3 member second_team.0.pool_bitmask ≡ none
        → Exhausted 3 3 second_team.0 member)
Reach-Separate_example = Reach-Separate 3 3 second_team.0 second_team.1
