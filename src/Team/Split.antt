-- ===== src/Team/Split.antt =====
-- library/src/roc_shmem.cpp, team_tracker.cpp: teams are made by splitting a team, tracked, and
-- destroyed. New teams are those of the reverse-offload backend (reverse_offload/backend_ro.cpp,
-- mpi_transport.cpp). The communicator that MPI splits off is no part of the state.
pub mod Accepts
pub mod Made
pub mod Tracking
use roc_shmem.Common.{
  ℕ, zero, suc, List, [], ◌∷◌, ◌++◌, Bool, true, false, if◌then◌else◌, not, Option, none, some,
  ◌>>=◌, ◌>>◌, assert, ◌||◌, ◌==◌, length,
}
use roc_shmem.Common.Int.{ℤ, pos, negsuc, ◌+ℤ◌, ◌-ℤ◌, ◌*ℤ◌, ◌/ℤ◌, ◌%ℤ◌, ltb_ℤ, is_zero}
use roc_shmem.Team.{Team, TeamInfo, Teams, team_invalid, get_pe_in_world}

-- The state of the backend that the calls read and write, with `TeamTracker`.
pub record Backend : Type 0 where
  pub num_pes : ℤ
  pub my_pe : ℤ
  pub max_num_teams : ℤ
  pub tracked : List ℕ
  pub team_world : ℕ
  pub teams : Teams

abbrev pub put_team : ℕ → Option Team → Teams → Teams
put_team a t teams b = if a == b then t else teams b

unfoldable pub get_num_user_teams : Backend → ℤ
get_num_user_teams b = pos (length b.tracked)

unfoldable pub track : ℕ → Backend → Backend
track team b = if team == team_invalid then b else record b { tracked = b.tracked ++ team ∷ [] }

-- `std::find` with `erase`: `none` where the team is not there.
unfoldable pub erase_first : ℕ → List ℕ → Option (List ℕ)
erase_first team [] = none
erase_first team (t ∷ ts) =
    let rest = erase_first team ts in
    if t == team then some ts else (rest >>= λ ts'. some (t ∷ ts'))

unfoldable pub untrack : ℕ → Backend → Option Backend
unfolding erase_first
untrack team b = do ts ← erase_first team b.tracked; some (record b { tracked = ts })

unfoldable pub pe_in_active_set : ℤ → ℤ → ℤ → ℤ → ℤ
pe_in_active_set start stride size pe =
    let translated_pe = (pe -ℤ start) /ℤ stride in
    if ltb_ℤ pe start || not (is_zero ((pe -ℤ start) %ℤ stride)) || not (ltb_ℤ translated_pe size)
    then negsuc 0
    else translated_pe

-- `ROBackend::create_new_team`: the address comes from `hipMalloc`.
unfoldable pub create_new_team : ℕ → TeamInfo → TeamInfo → ℤ → ℤ → Backend → Backend × ℕ
create_new_team address wrt_parent wrt_world num_pes my_pe b =
    let team : Team = record {
      world_size = b.num_pes;
      my_pe_in_world = b.my_pe;
      tinfo_wrt_parent = wrt_parent;
      tinfo_wrt_world = wrt_world;
      num_pes = num_pes;
      my_pe = my_pe;
    } in
    (record b { teams = put_team address (some team) b.teams }, address)

-- `Status::ROC_SHMEM_TOO_MANY_TEAMS_ERROR`.
abbrev pub too_many_teams_error : ℤ
too_many_teams_error = pos 3

pub record SplitResult : Type 0 where
  pub status : ℤ
  pub new_team : ℕ
  pub backend : Backend

-- The end of the call: a caller with a number in the new team makes it, and tracks it.
unfoldable pub enter_team : ℕ → TeamInfo → TeamInfo → ℤ → ℤ → Backend → SplitResult
unfolding create_new_team track
enter_team address wrt_parent wrt_world size my_pe_in_new_team b =
    if ltb_ℤ my_pe_in_new_team (pos 0)
    then record { status = pos 0; new_team = team_invalid; backend = b }
    else let (b', new_team) =
        create_new_team address wrt_parent wrt_world size my_pe_in_new_team b in
      record { status = pos 0; new_team = new_team; backend = track new_team b' }

-- The part of the call behind its checks: the new team with respect to its parent and to the world.
unfoldable pub build_team : ℕ → ℕ → Team → ℤ → ℤ → ℤ → Backend → SplitResult
build_team address parent_team parent start stride size b =
    let pe_start_in_world = get_pe_in_world parent start in
    let stride_in_world = stride *ℤ parent.tinfo_wrt_world.stride in
    let my_pe_in_new_team = pe_in_active_set pe_start_in_world stride_in_world size b.my_pe in
    let wrt_parent : TeamInfo = record {
      parent_team = parent_team;
      pe_start = start;
      stride = stride;
      size = size;
    } in
    let wrt_world : TeamInfo = record {
      parent_team = b.team_world;
      pe_start = pe_start_in_world;
      stride = stride_in_world;
      size = size;
    } in
    enter_team address wrt_parent wrt_world size my_pe_in_new_team b

-- The checks of the call on the triplet, with respect to the parent and to the world.
unfoldable pub is_rejected : Team → ℤ → ℤ → ℤ → ℤ → Bool
unfolding get_pe_in_world
is_rejected parent start stride size num_pes =
    let pe_start_in_world = get_pe_in_world parent start in
    let stride_in_world = stride *ℤ parent.tinfo_wrt_world.stride in
    let pe_end_in_world = pe_start_in_world +ℤ stride_in_world *ℤ (size -ℤ pos 1) in
    ltb_ℤ start (pos 0)
    || not (ltb_ℤ start parent.num_pes)
    || (ltb_ℤ size (pos 1) || ltb_ℤ parent.num_pes size)
    || (ltb_ℤ stride (pos 1) || ltb_ℤ num_pes pe_end_in_world)

unfoldable pub roc_shmem_team_split_strided : ℕ → ℕ → ℤ → ℤ → ℤ → Backend → Option SplitResult
unfolding get_num_user_teams
roc_shmem_team_split_strided address parent_team start stride size b =
    if not (ltb_ℤ (get_num_user_teams b) (b.max_num_teams -ℤ pos 1))
    then some (record { status = too_many_teams_error; new_team = team_invalid; backend = b })
    else if parent_team == team_invalid
    then some (record { status = pos 0; new_team = team_invalid; backend = b })
    else do
      parent ← b.teams parent_team
      if is_rejected parent start stride size b.num_pes
          then some (record { status = negsuc 0; new_team = team_invalid; backend = b })
          else some (build_team address parent_team parent start stride size b)

-- `roc_shmem_team_destroy`, with `ROBackend::team_destroy`.
unfoldable pub roc_shmem_team_destroy : ℕ → Backend → Option Backend
unfolding untrack
roc_shmem_team_destroy team b =
    if team == team_invalid || team == b.team_world
    then some b
    else do b' ← untrack team b; some (record b' { teams = put_team team none b'.teams })
