-- ===== src/Transport/Tests.antt =====
-- library/src/reverse_offload/mpi_transport.cpp: two queues, with requests of the first.
use roc_shmem.Common.{
  update, ℕ, ◌^◌, ◌≡◌, refl, inl, inr, Bool, true, false, List, [], ◌∷◌, arith, Option, none, some,
  Returns, Bool-cases, ◌==◌,
}
use roc_shmem.Common.Int.{pos}
use roc_shmem.Transport.{State, quiet}
use roc_shmem.Transport.Request.{
  ro_net_put, ro_net_alltoall, ro_net_fcollect, QueueElement, Environment, properties, perform,
}
use roc_shmem.Transport.Progress.{progress}
use roc_shmem.Transport.Invariant.{Valid, Keeps, Answered, quiet-Answered}
use roc_shmem.Transport.Commands.{perform-Valid}

abbrev put : QueueElement
put = record {
  type = ro_net_put;
  pe = pos 1;
  size = pos 8;
  src = 4096;
  dst = 8192;
  thread_id = 5;
  log_pe_stride = pos 0;
  pe_size = pos 0;
  p_wrk = 0;
  p_sync = 0;
  op = 0;
  datatype = 0;
  pe_root = pos 0;
  team_comm = 0;
}

abbrev environment : Environment
environment = record {
  comm_size = λ c. 4;
  type_size = λ t. 8;
  sqrt = λ n. 2;
  malloc = λ n. 65536;
  makes_comm = λ start log_stride size. true;
  makes_clusters = λ c. true;
}

-- Two requests of queue 0, and a thread that waits for their end.
abbrev waiting : State
waiting = record {
  num_queues = 2;
  req_prop_vec = properties 5 (pos 0) true ∷ properties 6 (pos 0) true ∷ [];
  outstanding = update (λ w. pos 0) 0 (pos 2);
  waiting_quiet = update (λ w. []) 0 (9 ∷ []);
  status = λ w t. false;
  host_barrier_done = false;
  freed = [];
}

waiting-Valid : Valid waiting
waiting-Valid = record {
  owned = ((0, refl, omega arith), ((0, refl, omega arith), tt));
  counts = λ w. elim (Bool-cases (0 == w)) [ inl e ↦ rw e refl | inr e ↦ rw e refl ];
  served = λ w. elim (Bool-cases (0 == w)) [
    | inl e ↦ rw e (λ z. absurd (omega (arith, z)))
    | inr e ↦ rw e (λ z. refl)
  ];
}

-- After the first request the thread waits on, and after both it is told.
abbrev told_after : List ℕ → State → Option Bool
told_after indices s = elim (progress indices s) [ none ↦ none | some s' ↦ some (s'.status 0 9) ]

first_done : told_after (0 ∷ []) waiting ≡ some false
unfolding progress
first_done = refl

both_done : told_after (0 ∷ 1 ∷ []) waiting ≡ some true
unfolding progress
both_done = refl

quiet-Answered_example :
    Returns (λ s'. Keeps 2 s' × Answered waiting waiting-Valid 0 7 s') (quiet (pos 0) 7 waiting)
quiet-Answered_example = quiet-Answered waiting waiting-Valid 0 7 (omega arith)

perform-Valid_example : Returns (Keeps 2) (perform ro_net_alltoall environment put (pos 1) waiting)
perform-Valid_example =
    perform-Valid environment put (pos 1) waiting waiting-Valid (1, refl, omega arith)
      ro_net_alltoall ((omega arith, λ e. omega (arith, e)), (8, refl, omega arith, refl))

-- A type that MPI has not, and a buffer that is too large.
char_exits :
    perform ro_net_alltoall environment (record put { datatype = 1 }) (pos 1) waiting ≡ none
unfolding perform
char_exits = refl

large_exits :
    perform ro_net_fcollect environment (record put { size = pos (2 ^ 23) }) (pos 1) waiting ≡ none
unfolding perform
large_exits = refl
