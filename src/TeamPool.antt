-- ===== src/TeamPool.antt =====
-- library/src/gpu_ib/backend_ib.cpp: the pool of work arrays of teams in the GPU-IB backend. Each PE
-- has a bit mask of the indices that are free, and the PEs of a new team agree on one. A byte is the
-- function from the positions of its bits.
pub mod Bits
pub mod Apart
pub mod History
mod Tests
use roc_shmem.Common.{
  ℕ, zero, suc, ◌+◌, ◌-◌, ◌/◌, ◌%◌, ◌<◌, ◌≡◌, Bool, true, false, if◌then◌else◌, Option, none, some,
  update, ◌&&◌, ◌||◌, not,
}

abbrev pub Bitmask : Type 0
Bitmask = ℕ → ℕ → Bool

abbrev pub char_bit : ℕ
char_bit = 8

-- `bitmask[byte] & (1 << bit)`.
unfoldable pub get_bit : Bitmask → ℕ → Bool
get_bit m i = m (i / char_bit) (i % char_bit)

-- `bitmask[byte] |= 1 << bit`, or `&= ~(1 << bit)`.
unfoldable pub set_bit : Bitmask → ℕ → Bool → Bitmask
set_bit m i v = update m (i / char_bit) (update (m (i / char_bit)) (i % char_bit) v)

-- The loop from bit `i` on; `none` is -1.
unfoldable pub ls_non_zero_from : ℕ → ℕ → Bitmask → Option ℕ
unfolding get_bit
ls_non_zero_from i zero m = none
ls_non_zero_from i (suc left) m =
    let rest = ls_non_zero_from (i + 1) left m in if get_bit m i then some i else rest

unfoldable pub get_ls_non_zero_bit : Bitmask → ℕ → Option ℕ
unfolding ls_non_zero_from
get_ls_non_zero_bit m mask_length = ls_non_zero_from 0 mask_length m

-- The mask of `teams_init`, with `left` bits to set from `bit_i` on.
unfoldable pub set_from : ℕ → ℕ → Bitmask → Bitmask
unfolding set_bit
set_from bit_i zero m = m
set_from bit_i (suc left) m = set_from (bit_i + 1) left (set_bit m bit_i true)

-- A team by the PEs that are in it and its `pool_index_`.
pub record PoolTeam : Type 0 where
  pub member : ℕ → Bool
  pub pool_index : ℕ

-- The masks of the PEs, and the live teams by their names.
pub record System : Type 0 where
  pub pool_bitmask : ℕ → Bitmask
  pub live : ℕ → Option PoolTeam

-- `MPI_Allreduce` with `MPI_BAND` over the PEs below `n` that are in the team.
unfoldable pub reduced_bitmask : ℕ → (ℕ → Bool) → (ℕ → Bitmask) → Bitmask
reduced_bitmask zero member masks byte bit = true
reduced_bitmask (suc n) member masks byte bit =
    (not (member n) || masks n byte bit) && reduced_bitmask n member masks byte bit

-- `create_new_team` on all the PEs of the team: the index, and the masks with its bit cleared.
unfoldable pub create_new_team : ℕ → ℕ → (ℕ → Bool) → (ℕ → Bitmask) → Option ℕ
unfolding get_ls_non_zero_bit reduced_bitmask
create_new_team num_pes max_num_teams member masks =
    get_ls_non_zero_bit (reduced_bitmask num_pes member masks) max_num_teams

-- A bit of the masks of the PEs in a team.
unfoldable pub mark : (ℕ → Bool) → ℕ → Bool → (ℕ → Bitmask) → ℕ → Bitmask
unfolding set_bit
mark member i v masks pe = if member pe then set_bit (masks pe) i v else masks pe

-- The creation and the end of teams; a team has a PE.
pub data Step (num_pes max_num_teams : ℕ) : System → System → Type 0 where
  creates :
      (s : System) (name i pe : ℕ) (member : ℕ → Bool)
      → s.live name ≡ none
      → pe < num_pes
      → member pe ≡ true
      → create_new_team num_pes max_num_teams member s.pool_bitmask ≡ some i
      → Step num_pes max_num_teams s (record {
        pool_bitmask = mark member i false s.pool_bitmask;
        live = update s.live name (some (record { member = member; pool_index = i }));
      })
  destroys :
      (s : System) (name : ℕ) (team : PoolTeam)
      → s.live name ≡ some team
      → Step num_pes max_num_teams s (record {
        pool_bitmask = mark team.member team.pool_index true s.pool_bitmask;
        live = update s.live name none;
      })

pub data Reach (num_pes max_num_teams : ℕ) : System → Type 0 where
  starts :
      (s : System)
      → ((pe : ℕ) → s.pool_bitmask pe ≡ set_from 1 (max_num_teams - 1) (λ byte bit. false))
      → ((name : ℕ) → s.live name ≡ none)
      → Reach num_pes max_num_teams s
  steps :
      (s s' : System)
      → Reach num_pes max_num_teams s
      → Step num_pes max_num_teams s s'
      → Reach num_pes max_num_teams s'
