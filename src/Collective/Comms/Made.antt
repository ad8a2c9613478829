-- ===== src/Collective/Comms/Made.antt =====
-- library/src/reverse_offload/mpi_transport.cpp: what `createComm` gives.
use roc_shmem.Common.{
  some_injective, Returns, ℕ, zero, suc, ◌+◌, ◌-◌, ◌*◌, ◌<◌, ◌≡◌, ◌≢◌, refl, sym, ap, ◌∙◌, subst,
  arith, Bool, true, ◌&&◌, if◌then◌else◌, ◌==◌, Bool-cases, inl, inr, Option-cases, none, some,
  List, [], ◌∷◌, length, get_elem?, All,
}
use roc_shmem.Collective.Comms.{
  CommKey, Comm, Comms, less, same_key, find, group_ranks, world_group, create_comm, Distinct,
  Includes,
}

-- A communicator of the PEs `start`, `start + stride` and so on.
unfoldable pub Suits : CommKey × Comm → Type 0
Suits e =
    (length e.1.group ≡ e.0.size)
    × ((i : ℕ) → i < e.0.size → get_elem? e.1.group i ≡ some (e.0.start + i * e.0.log_p_stride))

group_ranks-Suits :
    (rank stride size : ℕ)
    → (length (group_ranks rank stride size) ≡ size)
      × ((i : ℕ) → i < size → get_elem? (group_ranks rank stride size) i ≡ some (rank + i * stride))
unfolding group_ranks
group_ranks-Suits rank stride zero = (refl, λ i l. absurd (omega (arith, l)))
group_ranks-Suits rank stride (suc size) =
    let (n, f) = group_ranks-Suits (rank + stride) stride size in (omega (arith, n), each f)
  where
    each :
        ((i : ℕ)
          → i < size
          → get_elem? (group_ranks (rank + stride) stride size) i
            ≡ some (rank + stride + i * stride))
        → (i : ℕ) → i < suc size
        → get_elem? (rank ∷ group_ranks (rank + stride) stride size) i ≡ some (rank + i * stride)
    each f zero l = ap some (omega arith)
    each f (suc i) l = f i (omega (arith, l)) ∙ ap some (grind arith)

group_ranks-below :
    (world_size rank stride size : ℕ)
    → rank + size * stride < world_size + stride
    → All (λ r. r < world_size) (group_ranks rank stride size)
unfolding group_ranks
group_ranks-below world_size rank stride zero h = tt
group_ranks-below world_size rank stride (suc size) h =
    let e : suc size * stride ≡ size * stride + stride = grind arith in
    (
      omega (arith, h, e),
      group_ranks-below world_size (rank + stride) stride size (omega (arith, h, e)),
    )

group_ranks-above :
    (low rank stride size : ℕ) → low < rank → All (λ r. r ≢ low) (group_ranks rank stride size)
unfolding group_ranks
group_ranks-above low rank stride zero h = tt
group_ranks-above low rank stride (suc size) h =
    (λ e. omega (arith, e, h), group_ranks-above low (rank + stride) stride size (omega (arith, h)))

group_ranks-Distinct : (rank stride size : ℕ) → 0 < stride → Distinct (group_ranks rank stride size)
unfolding group_ranks
group_ranks-Distinct rank stride zero h = tt
group_ranks-Distinct rank stride (suc size) h = (
  group_ranks-above rank (rank + stride) stride size (omega (arith, h)),
  group_ranks-Distinct (rank + stride) stride size h,
)

world_group-group_ranks : (i n : ℕ) → world_group i n ≡ group_ranks i 1 n
unfolding world_group group_ranks
world_group-group_ranks i zero = refl
world_group-group_ranks i (suc n) = ap (λ t. i ∷ t) (world_group-group_ranks (i + 1) n)

same_key-fields :
    (k l : CommKey)
    → same_key k l ≡ true
    → (k.start ≡ l.start) × (k.log_p_stride ≡ l.log_p_stride) × (k.size ≡ l.size)
unfolding same_key less
same_key-fields k l h = ground (arith, h)

same_key_itself : (k : CommKey) → same_key k k ≡ true
unfolding same_key less
same_key_itself k = ground arith

Suits-key : (k l : CommKey) (comm : Comm) → same_key k l ≡ true → Suits (k, comm) → Suits (l, comm)
unfolding Suits
Suits-key k l comm e (n, f) =
    let (a, b, c) = same_key-fields k l e in
    (
      n ∙ c,
      λ i h.
          f i (omega (arith, c, h))
          ∙ ap some (ap (λ x. x + i * k.log_p_stride) a ∙ ap (λ x. l.start + i * x) b),
    )

find-Suits :
    (key : CommKey) (m : List (CommKey × Comm)) (comm : Comm)
    → All Suits m
    → find key m ≡ some comm
    → Suits (key, comm)
unfolding find
find-Suits key [] comm h e = absurd (ground (arith, e))
find-Suits key ((k, c) ∷ m) comm (h, hs) e = elim (Bool-cases (same_key k key)) [
  | inl same ↦
      (let q : c ≡ comm = some_injective (rw same at e) in
        subst (λ c. Suits (key, c)) q (Suits-key k key c same h))
  | inr other ↦ find-Suits key m comm hs (rw other at e)
]

new-Suits :
    (world_size start stride size : ℕ) (handle : ℕ)
    → Suits (
      (record { start = start; log_p_stride = stride; size = size }),
      (record {
        handle = handle;
        group =
            if (start == 0) && (stride == 1) && (size == world_size)
            then world_group 0 world_size
            else group_ranks start stride size;
      }),
    )
unfolding Suits
new-Suits world_size start stride size handle =
    elim (Bool-cases ((start == 0) && (stride == 1) && (size == world_size))) [
      | inr other ↦ rw other (group_ranks-Suits start stride size)
      | inl all ↦
          (let a : 0 ≡ start = ground (arith, all) in
            let b : 1 ≡ stride = ground (arith, all) in
            let c : world_size ≡ size = ground (arith, all) in
            rw all (
              subst
                (λ g.
                  (length g ≡ size)
                  × ((i : ℕ) → i < size → get_elem? g i ≡ some (start + i * stride)))
                (sym (
                  world_group-group_ranks 0 world_size
                  ∙ ap (λ x. group_ranks x 1 world_size) a
                  ∙ ap (λ x. group_ranks start x world_size) b
                  ∙ ap (λ x. group_ranks start stride x) c))
                (group_ranks-Suits start stride size)))
    ]

-- What the map holds, and what `create_comm` gives.
abbrev pub Kept : Comms → Type 0
Kept s = All Suits s.comm_map

module _ (group_incl : List ℕ → Bool) (world_size start stride size : ℕ) where
  abbrev key : CommKey
  key = record { start = start; log_p_stride = stride; size = size }

  abbrev whole : Bool
  whole = (start == 0) && (stride == 1) && (size == world_size)

  known :
      (s : Comms) (comm : Comm)
      → find key s.comm_map ≡ some comm
      → create_comm group_incl world_size start stride size s ≡ some (comm, s)
  unfolding create_comm
  known s comm e = rw (e, create_comm) refl

  -- What is right of a communicator and the map after the call: the communicator has the PEs, the
  -- map holds what suits its keys, and the same call gives the same again.
  abbrev pub Right : Comm × Comms → Type 0
  Right r =
      Suits (key, r.0)
      × Kept r.1
      × (create_comm group_incl world_size start stride size r.1 ≡ some r)

  abbrev new_comm : Comms → Comm
  new_comm s = record {
    handle = s.made;
    group = if whole then world_group 0 world_size else group_ranks start stride size;
  }

  module _ (includes : Includes group_incl world_size) (forward : 0 < stride) (some_pe : 0 < size)
      (last : start + (size - 1) * stride < world_size) (s : Comms) (kept : Kept s) where
    abbrev entered : Comms
    entered = record { comm_map = (key, new_comm s) ∷ s.comm_map; made = s.made + 1 }

    included : group_incl (group_ranks start stride size) ≡ true
    included =
        let e : size * stride ≡ (size - 1) * stride + stride =
          (let n : size ≡ size - 1 + 1 = omega (arith, some_pe) in
            ap (λ n. n * stride) n ∙ grind arith) in
        includes (group_ranks start stride size)
          (group_ranks-below world_size start stride size (omega (arith, e, last)))
          (group_ranks-Distinct start stride size forward)

    unknown :
        find key s.comm_map ≡ none
        → create_comm group_incl world_size start stride size s ≡ some (new_comm s, entered)
    unfolding create_comm
    unknown e = elim (Bool-cases whole) [
      | inl w ↦ rw (e, create_comm, w) refl
      | inr w ↦ rw (e, create_comm, w, included) refl
    ]

    entered_first : find key entered.comm_map ≡ some (new_comm s)
    unfolding find
    entered_first = rw (same_key_itself key) refl

    -- On a map in which each communicator has the PEs of its key, and where MPI makes a group of
    -- distinct ranks of the world, `createComm` with a positive stride and size, whose last PE is
    -- in the world, returns without an exit and gives a communicator of the PEs `start + i *
    -- stride` for i below the size, the map stays so, and the same call once more gives the same
    -- communicator and makes none.
    pub create_comm-Right : Returns Right (create_comm group_incl world_size start stride size s)
    create_comm-Right = elim (Option-cases (find key s.comm_map)) [
      | inl e ↦
          (let new = new-Suits world_size start stride size s.made in
            subst (Returns Right) (sym (unknown e))
              (new, (new, kept), known entered (new_comm s) entered_first))
      | inr (comm, e) ↦
          subst (Returns Right) (sym (known s comm e))
            (find-Suits key s.comm_map comm kept e, kept, known s comm e)
    ]
