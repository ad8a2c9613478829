-- ===== src/Team/Tests.antt =====
-- library/src/team.cpp, roc_shmem.cpp: a world of four PEs, and the team of its PEs 1 and 3.
use roc_shmem.Common.{ℕ, ◌+◌, ◌-◌, ◌*◌, ◌≡◌, refl, false, [], arith, none, some, Returns}
use roc_shmem.Common.Int.{pos, negsuc}
use roc_shmem.Team.{Team, TeamInfo, Teams, get_pe_in_world, get_pe_in_my_team, team_translate_pe}
use roc_shmem.Team.Membership.{
  Spans, Located, get_pe_in_my_team-Located, get_pe_in_my_team-get_pe_in_world,
  team_translate_pe-Located,
}
use roc_shmem.Team.Split.{
  Backend, put_team, track, is_rejected, pe_in_active_set, roc_shmem_team_split_strided,
  roc_shmem_team_destroy, get_num_user_teams,
}
use roc_shmem.Team.Split.Accepts.{
  Accepted, Sensible, pe_in_active_set-get_pe_in_my_team, is_rejected_iff, is_rejected-missing_pe,
}
use roc_shmem.Team.Split.Made.{Ready, Made, roc_shmem_team_split_strided-Made}
use roc_shmem.Team.Split.Tracking.{roc_shmem_team_destroy-track}

abbrev info : ℕ → ℕ → ℕ → TeamInfo
info start stride size = record {
  parent_team = 0;
  pe_start = pos start;
  stride = pos stride;
  size = pos size;
}

-- PE 3 of the world is the caller.
abbrev team : ℕ → ℕ → ℕ → ℕ → Team
team start stride size me = record {
  world_size = pos 4;
  my_pe_in_world = pos 3;
  tinfo_wrt_parent = info start stride size;
  tinfo_wrt_world = info start stride size;
  num_pes = pos size;
  my_pe = pos me;
}

abbrev world : Team
world = team 0 1 4 3

abbrev odd : Team
odd = team 1 2 2 1

world-Spans : Spans world 0 1 4
world-Spans = record { starts = refl; strides = refl; counts = refl; positive = omega arith }

odd-Spans : Spans odd 1 2 2
odd-Spans = record { starts = refl; strides = refl; counts = refl; positive = omega arith }

abbrev both : Teams
both = put_team 100 (some world) (put_team 200 (some odd) (λ a. none))

abbrev backend : Backend
backend = record {
  num_pes = pos 4;
  my_pe = pos 3;
  max_num_teams = pos 40;
  tracked = [];
  team_world = 100;
  teams = both;
}

three_is_one_of_odd : team_translate_pe both 100 (pos 3) 200 ≡ some (pos 1)
unfolding team_translate_pe
three_is_one_of_odd = refl

two_is_not_in_odd : team_translate_pe both 100 (pos 2) 200 ≡ some (negsuc 0)
unfolding team_translate_pe
two_is_not_in_odd = refl

get_pe_in_my_team-Located_example : Located 1 2 2 (pos 3) (get_pe_in_my_team odd (pos 3))
get_pe_in_my_team-Located_example = get_pe_in_my_team-Located odd 1 2 2 (pos 3) odd-Spans

member_comes_back : get_pe_in_my_team odd (get_pe_in_world odd (pos 1)) ≡ pos 1
member_comes_back = get_pe_in_my_team-get_pe_in_world odd 1 2 2 1 odd-Spans (omega arith)

team_translate_pe-Located_example :
    Returns (Located 1 2 2 (pos (0 + 1 * 3))) (team_translate_pe both 100 (pos 3) 200)
team_translate_pe-Located_example =
    team_translate_pe-Located both 100 200 world odd 0 1 4 1 2 2 3 (omega arith)
      (λ e. omega (arith, e)) (λ e. omega (arith, e)) refl refl world-Spans odd-Spans

active_set_agrees : pe_in_active_set (pos 1) (pos 2) (pos 2) (pos 2) ≡ get_pe_in_my_team odd (pos 2)
active_set_agrees = pe_in_active_set-get_pe_in_my_team odd (pos 2)

is_rejected_iff_example :
    ((is_rejected world (negsuc 0) (pos 2) (pos 2) (pos 4) ≡ false)
      → Sensible 0 1 4 4 (negsuc 0) (pos 2) (pos 2))
    × (Sensible 0 1 4 4 (negsuc 0) (pos 2) (pos 2)
        → is_rejected world (negsuc 0) (pos 2) (pos 2) (pos 4) ≡ false)
is_rejected_iff_example = is_rejected_iff world 0 1 4 4 world-Spans (negsuc 0) (pos 2) (pos 2)

is_rejected-missing_pe_example :
    (is_rejected world (pos 1) (pos 1) (pos 4) (pos 4) ≡ false)
    × (get_pe_in_world world (pos (1 + (4 - 1))) ≡ pos 4)
is_rejected-missing_pe_example = is_rejected-missing_pe world 4 world-Spans (omega arith)

backend-Ready : Ready backend 100 world 0 1 4 4 3
unfolding get_num_user_teams
backend-Ready = record {
  named = λ e. omega (arith, e);
  live = refl;
  spans = world-Spans;
  pes = refl;
  mine = refl;
  room = refl;
}

odd-Accepted : Accepted 0 1 4 4 1 2 2
odd-Accepted = record {
  start_inside = omega arith;
  nonempty = omega arith;
  small = omega arith;
  forward = omega arith;
  end_inside = omega arith;
}

roc_shmem_team_split_strided-Made_example :
    Returns
      (Made 300 backend world 0 1 1 2 2 3)
      (roc_shmem_team_split_strided 300 100 (pos 1) (pos 2) (pos 2) backend)
roc_shmem_team_split_strided-Made_example =
    roc_shmem_team_split_strided-Made 300 100 backend world 0 1 4 4 1 2 2 3 backend-Ready
      odd-Accepted (λ e. omega (arith, e))

roc_shmem_team_destroy-track_example :
    roc_shmem_team_destroy 200 (track 200 backend)
    ≡ some (record backend { teams = put_team 200 none both })
roc_shmem_team_destroy-track_example =
    roc_shmem_team_destroy-track 200 backend (λ e. omega (arith, e)) (λ e. omega (arith, e)) tt
