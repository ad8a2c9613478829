-- ===== src/Wavefront.antt =====
-- library/src/wf_coal_policy.cpp: the messages of a wavefront, of which neighbours with adjacent
-- memory are sent as one. The 64 lanes of a wavefront run in step.
pub mod Runs
pub mod Neighbours
pub mod Messages
mod Tests
use roc_shmem.Common.{
  ℕ, zero, suc, ◌+◌, ◌-◌, ◌*◌, ◌/◌, ◌%◌, ◌^◌, Bool, true, false, not, if◌then◌else◌, ◌&&◌, ltb,
  ◌==◌, Option, none, some,
}

-- `WF_SIZE`.
abbrev pub wf_size : ℕ
wf_size = 64

-- What the thread on a lane calls `coalesce` with; a lane that is not active does not call it.
pub record Lane : Type 0 where
  pub active : Bool
  pub pe : ℕ
  pub source : ℕ
  pub dest : ℕ
  pub size : ℕ

abbrev pub Wave : Type 0
Wave = ℕ → Lane

abbrev pub add64 : ℕ → ℕ → ℕ
add64 a b = (a + b) % 2 ^ 64

-- `__shfl_up` by 1: the value of the lower neighbour; lane 0 has its own.
abbrev pub lower : Wave → ℕ → Lane
lower wave i = wave (i - 1)

-- The two halves of 32 bits in which a value of 64 bits is handed up, put together again.
unfoldable pub recombine : ℕ → ℕ
recombine v = (v / 2 ^ 32 % 2 ^ 32) * 2 ^ 32 + v % 2 ^ 32

-- The test on the lower lane stands first in the source, where lane 0 shifts by -1; its last test
-- makes the value irrelevant.
unfoldable pub coalescable : Wave → ℕ → Bool
unfolding recombine
coalescable wave i =
    not (i == 0)
    && (lower wave i).active
    && ((lower wave i).size % 2 ^ 32 == (wave i).size)
    && (add64 (recombine (lower wave i).source) (wave i).size == (wave i).source)
    && (add64 (recombine (lower wave i).dest) (wave i).size == (wave i).dest)
    && ((wave i).pe == (lower wave i).pe)

-- `__ballot(coalescable)`, as the function from the bits' positions.
unfoldable pub lower_neighbor_coal : Wave → ℕ → Bool
lower_neighbor_coal wave i = ltb i wf_size && (wave i).active && coalescable wave i

-- A shift of 64 bits to the right, whose amount the machine takes modulo 64.
unfoldable pub shift_right : (ℕ → Bool) → ℕ → ℕ → Bool
shift_right bits k j = ltb (j + k % 64) 64 && bits (j + k % 64)

-- `__ffsll(~bits)`, from position `j` on with `left` positions left: the position of the first
-- clear bit, counted from 1, or 0.
unfoldable pub first_clear : ℕ → ℕ → (ℕ → Bool) → ℕ
first_clear zero j bits = 0
first_clear (suc left) j bits =
    let rest = first_clear left (j + 1) bits in if bits j then rest else j + 1

-- An `int` made of a value of 64 bits, and widened to one again.
unfoldable pub through_int : ℕ → ℕ
through_int n = let low = n % 2 ^ 32 in if ltb low (2 ^ 31) then low else low + (2 ^ 64 - 2 ^ 32)

-- `WfCoalOn::coalesce` on a lane: the size that it sends, or `none` where another lane sends.
unfoldable pub coalesce : Wave → ℕ → Option ℕ
unfolding first_clear shift_right lower_neighbor_coal
coalesce wave wv_id =
    if coalescable wave wv_id
    then none
    else let coal_size = through_int (wave wv_id).size in
      let shifted = shift_right (lower_neighbor_coal wave) (wv_id + 1) in
      let coal_msgs = first_clear 64 0 shifted in
      some (
        if coal_msgs == 0
        then coal_size
        else through_int (add64 coal_size ((wave wv_id).size * (coal_msgs - 1))))
