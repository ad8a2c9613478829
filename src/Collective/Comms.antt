-- ===== src/Collective/Comms.antt =====
-- library/src/reverse_offload/mpi_transport.cpp: `createComm`, the communicators of clusters and
-- rings, which are kept for the next call. PEs and strides are natural numbers here.
pub mod Made
use roc_shmem.Common.{
  some_injective, Returns, ℕ, zero, suc, ◌+◌, ◌-◌, ◌*◌, ◌<◌, ◌≡◌, ◌≢◌, refl, sym, ap, ◌∙◌, subst,
  arith, Bool, true, ◌&&◌, ◌||◌, not, ltb, if◌then◌else◌, ◌==◌, Bool-cases, inl, inr, Option,
  Option-cases, none, some, List, [], ◌∷◌, length, get_elem?, All,
}

pub record CommKey : Type 0 where
  pub start : ℕ
  pub log_p_stride : ℕ
  pub size : ℕ

-- A communicator, by its handle and by the PEs of its group.
pub record Comm : Type 0 where
  pub handle : ℕ
  pub group : List ℕ

-- `comm_map`, and the number of communicators made so far.
pub record Comms : Type 0 where
  pub comm_map : List (CommKey × Comm)
  pub made : ℕ

-- `operator<`.
unfoldable pub less : CommKey → CommKey → Bool
less k key =
    ltb k.start key.start
    || (k.start == key.start && ltb k.log_p_stride key.log_p_stride)
    || (k.start == key.start && (k.log_p_stride == key.log_p_stride) && ltb k.size key.size)

-- The keys that the map takes for one.
unfoldable pub same_key : CommKey → CommKey → Bool
unfolding less
same_key k l = not (less k l) && not (less l k)

unfoldable pub find : CommKey → List (CommKey × Comm) → Option Comm
unfolding same_key
find key [] = none
find key ((k, comm) ∷ rest) = if same_key k key then some comm else find key rest

-- `group_ranks`, from the rank before on.
unfoldable pub group_ranks : ℕ → ℕ → ℕ → List ℕ
group_ranks rank stride zero = []
group_ranks rank stride (suc size) = rank ∷ group_ranks (rank + stride) stride size

-- The group of all the PEs, from the one of number `i` on.
unfoldable pub world_group : ℕ → ℕ → List ℕ
world_group i zero = []
world_group i (suc left) = i ∷ world_group (i + 1) left

-- `none` is the exit where MPI refuses the group: `group_incl` says whether `MPI_Group_incl` and
-- `MPI_Comm_create_group` take the ranks.
unfoldable pub create_comm : (List ℕ → Bool) → ℕ → ℕ → ℕ → ℕ → Comms → Option (Comm × Comms)
unfolding find group_ranks world_group
create_comm group_incl world_size start stride size s =
    let key : CommKey = record { start = start; log_p_stride = stride; size = size } in
    elim (find key s.comm_map) [
      | some comm ↦ some (comm, s)
      | none ↦
          (let whole = (start == 0) && (stride == 1) && (size == world_size) in
            let group = if whole then world_group 0 world_size else group_ranks start stride size in
            let comm : Comm = record { handle = s.made; group = group } in
            if whole || group_incl group
            then some (comm, record { comm_map = (key, comm) ∷ s.comm_map; made = s.made + 1 })
            else none)
    ]

-- The ranks that `MPI_Group_incl` is documented to take: ranks of the group, each once.
abbrev pub Distinct : List ℕ → Type 0
Distinct [] = Unit
Distinct (i ∷ is) = All (λ j. j ≢ i) is × Distinct is

abbrev pub Includes : (List ℕ → Bool) → ℕ → Type 0
Includes group_incl world_size =
    (group : List ℕ) → All (λ r. r < world_size) group → Distinct group → group_incl group ≡ true
