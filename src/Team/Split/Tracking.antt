-- ===== src/Team/Split/Tracking.antt =====
-- library/src/team_tracker.cpp, roc_shmem.cpp: the list of the live user teams, and the end of a
-- team's life.
use roc_shmem.Common.{
  ℕ, ◌≡◌, ◌≢◌, refl, true, List, [], ◌∷◌, ◌++◌, some, none, unequal, ◌==◌, All, arith,
}
use roc_shmem.Team.Split.{Backend, track, untrack, erase_first, put_team, roc_shmem_team_destroy}

equal : (t : ℕ) → (t == t) ≡ true
equal t = ground arith

erase_first-append :
    (t : ℕ) (ts : List ℕ) → All (λ a. a ≢ t) ts → erase_first t (ts ++ t ∷ []) ≡ some ts
unfolding erase_first
erase_first-append t [] a = rw (equal t) refl
erase_first-append t (u ∷ ts) a = rw (unequal u t a.0, erase_first-append t ts a.1) refl

-- A team that was not tracked before leaves no trace when it is tracked and untracked.
pub untrack-track :
    (team : ℕ) (b : Backend)
    → team ≢ 0
    → All (λ a. a ≢ team) b.tracked
    → untrack team (track team b) ≡ some b
unfolding untrack track
untrack-track team b n a = rw (unequal team 0 n, erase_first-append team b.tracked a) refl

-- Destroying a team that was just tracked, that was not tracked before and is neither null nor
-- the world, ends the team and gives the list of tracked teams from before; every other team
-- stays.
pub roc_shmem_team_destroy-track :
    (team : ℕ) (b : Backend)
    → team ≢ 0
    → team ≢ b.team_world
    → All (λ a. a ≢ team) b.tracked
    → roc_shmem_team_destroy team (track team b)
      ≡ some (record b { teams = put_team team none b.teams })
unfolding roc_shmem_team_destroy track untrack
roc_shmem_team_destroy-track team b n w a =
    rw (unequal team 0 n, unequal team b.team_world w, erase_first-append team b.tracked a) refl
