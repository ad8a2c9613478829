-- ===== src/Transport/Progress.antt =====
-- library/src/reverse_offload/mpi_transport.cpp: `MPITransport::progress`, the completion of
-- requests. `MPI_Testsome` gives the indices of the requests that are complete.
use roc_shmem.Common.{
  update, ℕ, zero, suc, List, [], ◌∷◌, ◌++◌, if◌then◌else◌, ltb, ◌==◌, Option, none, some, ◌>>=◌,
  length, get_elem?,
}
use roc_shmem.Common.Int.{pos, ◌-ℤ◌, is_zero}
use roc_shmem.Transport.{RequestProperties, State, raise, raise_all, queue_index}

-- `std::vector::erase` at an index: `none` out of bounds.
unfoldable pub erase {ℓ} : {A : Type ℓ} → ℕ → List A → Option (List A)
erase i [] = none
erase zero (x ∷ xs) = some xs
erase (suc i) (x ∷ xs) = do ys ← erase i xs; some (x ∷ ys)

-- `std::sort` with `std::greater`.
unfoldable pub insert_greater : ℕ → List ℕ → List ℕ
insert_greater i [] = i ∷ []
insert_greater i (j ∷ js) =
    let rest = insert_greater i js in if ltb i j then j ∷ rest else i ∷ j ∷ js

unfoldable pub sort_greater : List ℕ → List ℕ
unfolding insert_greater
sort_greater [] = []
sort_greater (i ∷ is) = insert_greater i (sort_greater is)

-- The status of the thread of a completed blocking request, and the buffer of an inline put.
unfoldable pub notify : RequestProperties → ℕ → State → State
notify r w s = record s {
  status = if r.blocking then raise w r.thread_id s.status else s.status;
  freed = if r.inline_data then s.freed ++ r.src ∷ [] else s.freed;
}

-- The threads that wait for the end of the requests of a queue are told when there is none left.
unfoldable pub release_quiet : ℕ → State → State
release_quiet w s =
    if is_zero (s.outstanding w)
    then record s {
      status = raise_all w (s.waiting_quiet w) s.status;
      waiting_quiet = update s.waiting_quiet w [];
    }
    else s

-- The body of the first loop. A request of the host (-1) reads the vectors of the queues out of
-- bounds after it has raised `hostBarrierDone`.
unfoldable pub complete : ℕ → State → Option State
unfolding notify release_quiet
complete indx s = do
  r ← get_elem? s.req_prop_vec indx
  w ← queue_index s r.wg_id
  let s' = record s { outstanding = update s.outstanding w (s.outstanding w -ℤ pos 1) }
  some (release_quiet w (notify r w s'))

unfoldable pub complete_all : List ℕ → State → Option State
unfolding complete
complete_all [] s = some s
complete_all (i ∷ is) s = complete i s >>= λ s'. complete_all is s'

unfoldable pub erase_all {ℓ} : {A : Type ℓ} → List ℕ → List A → Option (List A)
unfolding erase
erase_all [] xs = some xs
erase_all (i ∷ is) xs = erase i xs >>= λ ys. erase_all is ys

-- With no request, the probe of MPI leaves the state alone.
unfoldable pub progress : List ℕ → State → Option State
unfolding complete_all erase_all sort_greater
progress indices s = if length s.req_prop_vec == 0 then some s else do
  s' ← complete_all indices s
  left ← erase_all (sort_greater indices) s'.req_prop_vec
  some (record s' { req_prop_vec = left })
