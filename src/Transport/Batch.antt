-- ===== src/Transport/Batch.antt =====
-- library/src/reverse_offload/mpi_transport.cpp: the loops of `MPITransport::progress` over the
-- requests that MPI has completed.
use roc_shmem.Common.{ℕ, ◌+◌, ◌-◌, ◌<◌, ◌≤◌, ◌≡◌, ◌≢◌, List, ◌∷◌, true, some, length, get_elem?}
use roc_shmem.Common.Int.{pos}
use roc_shmem.Transport.{RequestProperties, State}
use roc_shmem.Transport.Progress.{notify, release_quiet}
use roc_shmem.Transport.Counting.{count, owed, listed, without}
use roc_shmem.Transport.Invariant.{Valid}
use roc_shmem.Transport.Completion.{Counted, Same, Told, waits, less, told, held, notified}

-- The threads of the blocking requests at the indices are told.
abbrev pub Notified : List ℕ → State → State → Type 0
Notified is s s' =
    (i w : ℕ) (r : RequestProperties)
    → listed i is ≡ true
    → get_elem? s.req_prop_vec i ≡ some r
    → r.wg_id ≡ pos w
    → r.blocking ≡ true
    → s'.status w r.thread_id ≡ true

-- The state after the first loop over the indices.
record End (m : ℕ → ℕ) (is : List ℕ) (s s' : State) : Type 0 where
  same : Same s s'
  counted : Counted (λ u. m u - owed u s.req_prop_vec is) s'
  told : Told s s'
  notified : Notified is s s'
  held : (u : ℕ) → 0 < m u - owed u s.req_prop_vec is → s'.waiting_quiet u ≡ s.waiting_quiet u

module _ (i : ℕ) (is : List ℕ) (m : ℕ → ℕ) (s : State) (c : Counted m s) (r : RequestProperties)
    (w : ℕ) (found : get_elem? s.req_prop_vec i ≡ some r) (e : r.wg_id ≡ pos w)
    (le : (u : ℕ) → owed u s.req_prop_vec (i ∷ is) ≤ m u) where
  -- The state after the completion of one request.
  abbrev next : State
  next = release_quiet w (notify r w (less w s))

-- What a run of `progress` on completed requests does: the others stay, a thread that waits for a
-- queue is told when the queue has no request left, and it waits on otherwise.
pub record Progressed (is : List ℕ) (s s' : State) : Type 0 where
  pub queues : s'.num_queues ≡ s.num_queues
  pub valid : Valid s'
  pub removed : s'.req_prop_vec ≡ without is 0 s.req_prop_vec
  pub fewer : length s.req_prop_vec ≡ length is + length s'.req_prop_vec
  pub notified : Notified is s s'
  pub raised : (w t : ℕ) → s.status w t ≡ true → s'.status w t ≡ true
  pub told :
      (w t : ℕ)
      → waits t (s.waiting_quiet w) ≡ true
      → count w s'.req_prop_vec ≡ 0
      → s'.status w t ≡ true
  pub held : (w : ℕ) → count w s'.req_prop_vec ≢ 0 → s'.waiting_quiet w ≡ s.waiting_quiet w
