-- ===== src/Collective/Progress.antt =====
-- library/src/reverse_offload/mpi_transport.cpp: a collective over clusters does not get stuck.
pub mod Work
pub mod Barriers
use native.Mathlib.Nat.{mod-lt}
use roc_shmem.Common.{
  find_failure, ℕ, zero, suc, ◌+◌, ◌-◌, ◌*◌, ◌/◌, ◌%◌, ◌<◌, ◌≤◌, ◌≡◌, ◌≢◌, refl, sym, ap, ◌∙◌,
  subst, arith, ◌⊎◌, inl, inr, update, update-cases, Bool, true, false, not, ltb, Bool-cases, some,
}
use roc_shmem.Collective.{
  make_call, Call, Transfer, Phase, away, reading, sending, left, System, rget, put,
}
use roc_shmem.Collective.Exchange.{
  Variant, gcen, gcen2, Step, prepares, calls, reads, synchronizes, sends, leaves, reuses, Reach,
  starts, steps, reads_done, puts_done, ClusterRead, RingSent,
}
use roc_shmem.Collective.Blocks.{cluster_inside, block_before}
use roc_shmem.Collective.Calls.{make_call-whole, clusters_have_places}
use roc_shmem.Collective.Progress.Barriers.{comm_cluster-Opens, comm_ring-Opens}
use roc_shmem.Collective.Progress.Work.{
  InRange, remaining, total, total-update, Run, stays, moves, Step-InRange, Reach-InRange,
}

abbrev has_called : Phase → Bool
has_called away = false
has_called (reading i) = true
has_called (sending i) = true
has_called left = true

abbrev has_read : ℕ → Phase → Bool
has_read n away = true
has_read n (reading i) = not (ltb i n)
has_read n (sending i) = true
has_read n left = true

abbrev is_past : Phase → Bool
is_past away = true
is_past (reading i) = false
is_past (sending i) = true
is_past left = true

abbrev has_sent : ℕ → Phase → Bool
has_sent n away = true
has_sent n (reading i) = true
has_sent n (sending i) = not (ltb i n)
has_sent n left = true

abbrev has_left : Phase → Bool
has_left away = false
has_left (reading i) = false
has_left (sending i) = false
has_left left = true

-- The phases for which a test fails.
is_away : (ph : Phase) → has_called ph ≡ false → ph ≡ away
is_away away h = refl
is_away (reading i) h = absurd (ground (arith, h))
is_away (sending i) h = absurd (ground (arith, h))
is_away left h = absurd (ground (arith, h))

is_reader : (n : ℕ) (ph : Phase) → has_read n ph ≡ false → (i : ℕ) × (ph ≡ reading i) × (i < n)
is_reader n away h = absurd (ground (arith, h))
is_reader n (reading i) h = (i, refl, ground (arith, h))
is_reader n (sending i) h = absurd (ground (arith, h))
is_reader n left h = absurd (ground (arith, h))

is_waiting : (ph : Phase) → is_past ph ≡ false → (i : ℕ) × (ph ≡ reading i)
is_waiting away h = absurd (ground (arith, h))
is_waiting (reading i) h = (i, refl)
is_waiting (sending i) h = absurd (ground (arith, h))
is_waiting left h = absurd (ground (arith, h))

is_sender : (n : ℕ) (ph : Phase) → has_sent n ph ≡ false → (i : ℕ) × (ph ≡ sending i) × (i < n)
is_sender n away h = absurd (ground (arith, h))
is_sender n (reading i) h = absurd (ground (arith, h))
is_sender n (sending i) h = (i, refl, ground (arith, h))
is_sender n left h = absurd (ground (arith, h))

module _ (c : Call) (x : Transfer) (v : Variant) (src : ℕ → ℕ → ℕ)
    (whole : c.num_clust * c.clust_size ≡ c.pe_size) (s : System)
    (in_range : (p : ℕ) → p < c.pe_size → InRange c x (s.phases p)) where
  -- A step that leaves less to do.
  abbrev pub Move : Type 0
  Move =
      (s' : System) × Step c x v src s s'
      × (total c x c.pe_size s'.phases < total c x c.pe_size s.phases)

  less :
      (p : ℕ) (ph : Phase)
      → p < c.pe_size
      → remaining c x ph < remaining c x (s.phases p)
      → total c x c.pe_size (update s.phases p ph) < total c x c.pe_size s.phases
  less p ph l h = let e = total-update c x c.pe_size s.phases p ph l in omega (arith, e, h)

  move_away : (p : ℕ) → p < c.pe_size → s.phases p ≡ away → Move
  move_away p l e = (
    record s { phases = update s.phases p (reading 0); src = update s.src p (src p) },
    calls s p l e,
    less p (reading 0) l
        (subst (λ ph. remaining c x (reading 0) < remaining c x ph) (sym e) (omega arith)),
  )

  move_reader : (p i : ℕ) → p < c.pe_size → s.phases p ≡ reading i → i < x.reads → Move
  unfolding rget
  move_reader p i l e m = (
    rget c x p i s,
    reads s p i l m e,
    less p (reading (i + 1)) l (
        subst (λ ph. remaining c x (reading (i + 1)) < remaining c x ph) (sym e)
          (omega (arith, m))),
  )

  move_sender : (p i : ℕ) → p < c.pe_size → s.phases p ≡ sending i → i < c.num_clust → Move
  unfolding put
  move_sender p i l e m = (
    put c x p i s,
    sends s p i l m e,
    less p (sending (i + 1)) l (
        subst (λ ph. remaining c x (sending (i + 1)) < remaining c x ph) (sym e)
          (omega (arith, m))),
  )

  module _ (some_place : 0 < c.clust_size)
      (all_called : (p : ℕ) → p < c.pe_size → has_called (s.phases p) ≡ true)
      (all_read : (p : ℕ) → p < c.pe_size → has_read x.reads (s.phases p) ≡ true) where
    has_read-done :
        (ph : Phase)
        → InRange c x ph
        → has_called ph ≡ true
        → has_read x.reads ph ≡ true
        → reads_done c x ph ≡ x.reads
    has_read-done away r d h = absurd (ground (arith, d))
    has_read-done (reading i) r d h = ground (arith, r, h)
    has_read-done (sending i) r d h = refl
    has_read-done left r d h = refl

    move_waiting : (p i : ℕ) → p < c.pe_size → s.phases p ≡ reading i → Move
    move_waiting p i l e =
        let complete : (q : ℕ) → q < c.pe_size → reads_done c x (s.phases q) ≡ x.reads =
          λ q m. has_read-done (s.phases q) (in_range q m) (all_called q m) (all_read q m) in
        let now : s.phases p ≡ reading x.reads =
          e ∙ ap reading (ap (reads_done c x) (sym e) ∙ complete p l) in
        (
          record s { phases = update s.phases p (sending 0) },
          synchronizes s p l now (λ g.
              comm_cluster-Opens c whole some_place (λ q. reads_done c x (s.phases q) ≡ x.reads)
                complete p l),
          less p (sending 0) l
              (subst (λ ph. remaining c x (sending 0) < remaining c x ph) (sym now) (omega arith)),
        )

    module _ (all_past : (p : ℕ) → p < c.pe_size → is_past (s.phases p) ≡ true)
        (all_sent : (p : ℕ) → p < c.pe_size → has_sent c.num_clust (s.phases p) ≡ true) where
      has_sent-done :
          (ph : Phase)
          → InRange c x ph
          → has_called ph ≡ true
          → is_past ph ≡ true
          → has_sent c.num_clust ph ≡ true
          → puts_done c x ph ≡ c.num_clust
      has_sent-done away r d h k = absurd (ground (arith, d))
      has_sent-done (reading i) r d h k = absurd (ground (arith, h))
      has_sent-done (sending i) r d h k = ground (arith, r, k)
      has_sent-done left r d h k = refl

      is_leaving :
          (ph : Phase)
          → has_called ph ≡ true
          → is_past ph ≡ true
          → has_left ph ≡ false
          → (i : ℕ) × (ph ≡ sending i)
      is_leaving away d h k = absurd (ground (arith, d))
      is_leaving (reading i) d h k = absurd (ground (arith, h))
      is_leaving (sending i) d h k = (i, refl)
      is_leaving left d h k = absurd (ground (arith, k))

      move_leaving : (p : ℕ) → p < c.pe_size → has_left (s.phases p) ≡ false → Move
      move_leaving p l h =
          let (i, e) = is_leaving (s.phases p) (all_called p l) (all_past p l) h in
          let complete : (q : ℕ) → q < c.pe_size → puts_done c x (s.phases q) ≡ c.num_clust = λ q m.
            has_sent-done (s.phases q) (in_range q m) (all_called q m) (all_past q m)
              (all_sent q m) in
          let now : s.phases p ≡ sending c.num_clust =
            e ∙ ap sending (ap (puts_done c x) (sym e) ∙ complete p l) in
          (
            record s { phases = update s.phases p left },
            leaves s p l now (
                comm_ring-Opens c whole some_place (λ q. puts_done c x (s.phases q) ≡ c.num_clust)
                  complete p l),
            less p left l (subst (λ ph. 0 < remaining c x ph) (sym now) (omega arith)),
          )

  -- Where every PE has called.
  after_calls :
      (0 < c.pe_size → 0 < c.clust_size)
      → ((p : ℕ) → p < c.pe_size → has_called (s.phases p) ≡ true)
      → ((p : ℕ) → p < c.pe_size → has_left (s.phases p) ≡ true) ⊎ Move
  after_calls z all_called = elim (find_failure (λ p. has_read x.reads (s.phases p)) c.pe_size) [
    | inr (p, l, f) ↦
        inr (let (i, e, m) = is_reader x.reads (s.phases p) f in move_reader p i l e m)
    | inl all_read ↦ elim (find_failure (λ p. is_past (s.phases p)) c.pe_size) [
      | inr (p, l, f) ↦ inr (
          let (i, e) = is_waiting (s.phases p) f in
          move_waiting (z (omega (arith, l))) all_called all_read p i l e)
      | inl all_past ↦ elim (find_failure (λ p. has_sent c.num_clust (s.phases p)) c.pe_size) [
        | inr (p, l, f) ↦
            inr (let (i, e, m) = is_sender c.num_clust (s.phases p) f in move_sender p i l e m)
        | inl all_sent ↦ elim (find_failure (λ p. has_left (s.phases p)) c.pe_size) [
          | inl gone ↦ inl gone
          | inr (p, l, f) ↦
              inr (move_leaving (z (omega (arith, l))) all_called all_read all_past all_sent p l f)
        ]
      ]
    ]
  ]

  -- Either every PE has left, or one can make a step.
  pub next_move :
      (0 < c.pe_size → 0 < c.clust_size)
      → ((p : ℕ) → p < c.pe_size → has_left (s.phases p) ≡ true) ⊎ Move
  next_move z = elim (find_failure (λ p. has_called (s.phases p)) c.pe_size) [
    | inr (p, l, f) ↦ inr (move_away p l (is_away (s.phases p) f))
    | inl all_called ↦ after_calls z all_called
  ]

has_left-left : (ph : Phase) → has_left ph ≡ true → ph ≡ left
has_left-left away h = absurd (ground (arith, h))
has_left-left (reading i) h = absurd (ground (arith, h))
has_left-left (sending i) h = absurd (ground (arith, h))
has_left-left left h = refl

module _ (c : Call) (x : Transfer) (v : Variant) (src : ℕ → ℕ → ℕ)
    (whole : c.num_clust * c.clust_size ≡ c.pe_size) where
  -- On enough fuel for the work that is left.
  completes_within :
      (fuel : ℕ) (s : System)
      → total c x c.pe_size s.phases < fuel
      → ((p : ℕ) → p < c.pe_size → InRange c x (s.phases p))
      → (s' : System) × Run c x v src s s' × ((p : ℕ) → p < c.pe_size → s'.phases p ≡ left)
  completes_within zero s h f = absurd (omega (arith, h))
  completes_within (suc fuel) s h f =
      elim (next_move c x v src whole s f (λ l. clusters_have_places c whole l)) [
        | inl gone ↦ (s, stays s, (λ p l. has_left-left (s.phases p) (gone p l)))
        | inr (s', step, less) ↦
            (let (e, run, gone) =
                completes_within fuel s' (omega (arith, h, less))
                  (Step-InRange c x v src s s' step f) in
              (e, moves s s' e step run, gone))
      ]

-- From every reachable state of a collective over clusters, of either variant, some further steps
-- lead to a state in which every PE has left its call: PEs that have not called call, and no
-- barrier waits for ever, as each is on a communicator that has the PE and that all its PEs come
-- to.
pub Reach-completes :
    (sqrt : ℕ → ℕ) (n type_size size : ℕ) (c : Call)
    → make_call sqrt n type_size size ≡ some c
    → (x : Transfer) (v : Variant) (src : ℕ → ℕ → ℕ) (s : System) → Reach c x v src s
    → (s' : System) × Run c x v src s s' × ((p : ℕ) → p < c.pe_size → s'.phases p ≡ left)
Reach-completes sqrt n type_size size c made x v src s reached =
    completes_within c x v src (make_call-whole sqrt n type_size size c made)
      (total c x c.pe_size s.phases + 1) s (omega arith) (Reach-InRange c x v src s reached)
