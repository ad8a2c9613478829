-- ===== src/Workgroup.antt =====
-- library/src/wg_team_ctxs_policy.cpp and wg_state.cpp: what a work-group keeps, its pool of the
-- teams of its contexts and the token of its buffers.
pub mod Pool
pub mod Users
pub mod Tokens
pub mod Reserve
mod Tests
use roc_shmem.Common.{
  ℕ, zero, suc, ◌+◌, ◌-◌, ◌%◌, Bool, true, false, not, ◌&&◌, if◌then◌else◌, ltb, ◌==◌, Option, none,
  some, ◌>>=◌, ◌>>◌, assert, List, [], ◌∷◌, set, get_elem?,
}
use roc_shmem.Common.Int.{negsuc}
use roc_shmem.Team.{Team, TeamInfo}

pub record WgTeamInfo : Type 0 where
  pub ref_count : ℕ
  pub team : ℕ
  pub team_info : TeamInfo

-- `WGTeamInfo()`, with the defaults of `TeamInfo`.
abbrev pub empty_info : WgTeamInfo
empty_info = record {
  ref_count = 0;
  team = 0;
  team_info = record { parent_team = 0; pe_start = negsuc 0; stride = negsuc 0; size = negsuc 0 };
}

-- What an entry keeps of the team: no parent, and the PEs in the world.
abbrev pub world_info : Team → TeamInfo
world_info t = record {
  parent_team = 0;
  pe_start = t.tinfo_wrt_world.pe_start;
  stride = t.tinfo_wrt_world.stride;
  size = t.tinfo_wrt_world.size;
}

-- `WGTeamInfo(team, team_info)`; a team is named by its address.
abbrev pub new_info : ℕ → Team → WgTeamInfo
new_info team t = record { ref_count = 0; team = team; team_info = world_info t }

-- The pool, from `max_num_teams` on.
unfoldable pub init : ℕ → List WgTeamInfo
init zero = []
init (suc n) = empty_info ∷ init n

-- The index of the first free entry; `none` is the failed assertion.
unfoldable pub find_available_pool_entry : ℕ → List WgTeamInfo → Option ℕ
find_available_pool_entry i [] = none
find_available_pool_entry i (e ∷ pool) =
    if e.ref_count == 0 then some i else find_available_pool_entry (i + 1) pool

-- The index of the entry in use that the team has; `none` is null.
unfoldable pub find_team_in_pool : ℕ → ℕ → List WgTeamInfo → Option ℕ
find_team_in_pool i team [] = none
find_team_in_pool i team (e ∷ pool) =
    if not (e.ref_count == 0) && (team == e.team)
    then some i
    else find_team_in_pool (i + 1) team pool

-- One user more of the entry.
abbrev pub retain : ℕ → List WgTeamInfo → Option (ℕ × List WgTeamInfo)
retain i pool =
    get_elem? pool i >>= λ e. some (i, set pool i (record e { ref_count = e.ref_count + 1 }))

-- The index stands for the pointer that the source returns.
unfoldable pub get_team_info : ℕ → Team → List WgTeamInfo → Option (ℕ × List WgTeamInfo)
unfolding find_team_in_pool find_available_pool_entry
get_team_info team t pool = elim (find_team_in_pool 0 team pool) [
  | some i ↦ retain i pool
  | none ↦ find_available_pool_entry 0 pool >>= λ i. retain i (set pool i (new_info team t))
]

unfoldable pub remove_team_info : ℕ → List WgTeamInfo → Option (List WgTeamInfo)
remove_team_info i pool = get_elem? pool i >>= λ e.
    assert (ltb 0 e.ref_count)
    >> some (
        set pool i
          (if e.ref_count - 1 == 0 then empty_info else record e { ref_count = e.ref_count - 1 }))
