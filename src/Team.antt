-- ===== src/Team.antt =====
-- library/src/team.cpp, team.hpp: teams of processing elements (PEs), and the translation of PE
-- numbers between them. An `int` is an integer; the sums and products of PE numbers do not overflow.
pub mod Membership
pub mod Split
mod Tests
use roc_shmem.Common.{
  ℕ, Bool, true, false, if◌then◌else◌, not, Option, none, some, ◌>>=◌, ◌||◌, ◌==◌,
}
use roc_shmem.Common.Int.{ℤ, pos, negsuc, ◌+ℤ◌, ◌-ℤ◌, ◌*ℤ◌, ◌/ℤ◌, ◌%ℤ◌, ltb_ℤ, is_zero}

-- `TeamInfo`, without the logarithm of the stride, which is a `double`. A pointer to a team is its
-- address, 0 for null.
pub record TeamInfo : Type 0 where
  pub parent_team : ℕ
  pub pe_start : ℤ
  pub stride : ℤ
  pub size : ℤ

-- `Team`, without the communicator and the type of the backend.
pub record Team : Type 0 where
  pub world_size : ℤ
  pub my_pe_in_world : ℤ
  pub tinfo_wrt_parent : TeamInfo
  pub tinfo_wrt_world : TeamInfo
  pub num_pes : ℤ
  pub my_pe : ℤ

unfoldable pub get_pe_in_world : Team → ℤ → ℤ
get_pe_in_world t pe = t.tinfo_wrt_world.pe_start +ℤ t.tinfo_wrt_world.stride *ℤ pe

unfoldable pub get_pe_in_my_team : Team → ℤ → ℤ
get_pe_in_my_team t pe_in_world =
    let pe_start = t.tinfo_wrt_world.pe_start in
    let stride = t.tinfo_wrt_world.stride in
    if ltb_ℤ pe_in_world pe_start
    then negsuc 0
    else if not (is_zero ((pe_in_world -ℤ pe_start) %ℤ stride))
    then negsuc 0
    else let pe_in_my_team = (pe_in_world -ℤ pe_start) /ℤ stride in
      if not (ltb_ℤ pe_in_my_team t.num_pes) then negsuc 0 else pe_in_my_team

-- The live teams, under their addresses.
abbrev pub Teams : Type 0
Teams = ℕ → Option Team

-- `ROC_SHMEM_TEAM_INVALID`.
abbrev pub team_invalid : ℕ
team_invalid = 0

-- `none` stands for the use of an address with no live team.
unfoldable pub team_translate_pe : Teams → ℕ → ℤ → ℕ → Option ℤ
unfolding get_pe_in_world get_pe_in_my_team
team_translate_pe teams src_team src_pe dst_team =
    if src_team == team_invalid || dst_team == team_invalid then some (negsuc 0) else do
      src_team_obj ← teams src_team
      dst_team_obj ← teams dst_team
      let src_pe_in_world = get_pe_in_world src_team_obj src_pe
      some (get_pe_in_my_team dst_team_obj src_pe_in_world)
