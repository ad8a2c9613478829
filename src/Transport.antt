-- ===== src/Transport.antt =====
-- library/src/reverse_offload/mpi_transport.cpp, mpi_transport.hpp: the host's side of the
-- reverse-offload transport, which starts the requests of the device and follows them until they
-- are complete. MPI is no part of the state but for the requests that it has not completed.
pub mod Request
pub mod Progress
pub mod Counting
pub mod Invariant
pub mod Commands
pub mod Completion
pub mod Batch
mod Tests
use roc_shmem.Common.{
  update, ℕ, zero, suc, ◌+◌, ◌-◌, ◌*◌, ◌/◌, List, [], ◌∷◌, ◌++◌, Bool, true, false, not,
  if◌then◌else◌, ◌&&◌, ◌||◌, ltb, leb, ◌==◌, Option, none, some, ◌>>=◌, length,
}
use roc_shmem.Common.Int.{ℤ, pos, negsuc, ◌+ℤ◌, ◌-ℤ◌, is_zero}

-- `MPITransport::RequestProperties`: what the transport knows of a request it has started.
pub record RequestProperties : Type 0 where
  pub thread_id : ℕ
  pub wg_id : ℤ
  pub blocking : Bool
  pub src : ℕ
  pub inline_data : Bool

-- The transport with the status bytes of the queue descriptors. `req_vec` and `req_prop_vec` grow
-- and shrink together and are one list. `freed` holds the buffers of inline puts given back.
pub record State : Type 0 where
  pub num_queues : ℕ
  pub req_prop_vec : List RequestProperties
  pub outstanding : ℕ → ℤ
  pub waiting_quiet : ℕ → List ℕ
  pub status : ℕ → ℕ → Bool
  pub host_barrier_done : Bool
  pub freed : List ℕ

-- The status byte of a thread of a queue.
abbrev pub raise : ℕ → ℕ → (ℕ → ℕ → Bool) → ℕ → ℕ → Bool
raise wg thread status = update status wg (update (status wg) thread true)

abbrev pub raise_all : ℕ → List ℕ → (ℕ → ℕ → Bool) → ℕ → ℕ → Bool
raise_all wg [] status = status
raise_all wg (t ∷ ts) status = raise_all wg ts (raise wg t status)

-- A number of a queue, as an index of the vectors with one element for each queue: `none` is an
-- access out of bounds.
abbrev pub queue_index : State → ℤ → Option ℕ
queue_index s (pos w) = if ltb w s.num_queues then some w else none
queue_index s (negsuc n) = none

-- `initTransport`.
unfoldable pub init_transport : ℕ → State
init_transport num_queues = record {
  num_queues = num_queues;
  req_prop_vec = [];
  outstanding = λ w. pos 0;
  waiting_quiet = λ w. [];
  status = λ w t. false;
  host_barrier_done = false;
  freed = [];
}

-- The end of every call that starts a request: it is followed, and counted for its queue.
unfoldable pub track_request : RequestProperties → State → Option State
track_request r s = do
  w ← queue_index s r.wg_id
  some (record s {
    req_prop_vec = s.req_prop_vec ++ r ∷ [];
    outstanding = update s.outstanding w (s.outstanding w +ℤ pos 1);
  })

-- `quiet`: the status of the thread is raised at once, or when the queue has no request left.
unfoldable pub quiet : ℤ → ℕ → State → Option State
quiet wg_id thread_id s = do
  w ← queue_index s wg_id
  if is_zero (s.outstanding w)
      then some (record s { status = raise w thread_id s.status })
      else some (record s {
        waiting_quiet = update s.waiting_quiet w (s.waiting_quiet w ++ thread_id ∷ []);
      })
