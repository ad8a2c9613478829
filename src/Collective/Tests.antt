-- ===== src/Collective/Tests.antt =====
-- library/src/reverse_offload/mpi_transport.cpp: runs of the collectives over clusters, on two PEs
-- that are one cluster.
use roc_shmem.Common.{
  Returns, true, ℕ, zero, suc, ◌+◌, ◌*◌, ◌<◌, ◌≡◌, refl, sym, arith, none, some, if◌then◌else◌, leb,
  update, [], ◌∷◌,
}
use roc_shmem.Collective.{
  Call, Transfer, away, reading, sending, left, System, make_call, alltoall, fcollect, rget, put,
}
use roc_shmem.Collective.Exchange.{
  Variant, gcen, gcen2, calls, reads, synchronizes, sends, leaves, Reach, starts, steps, reads_done,
  puts_done, Step, Opens, comm_ring, Entered, AllEntered,
}
use roc_shmem.Collective.Invariant.{bytes}
use roc_shmem.Collective.Comms.{create_comm, find, group_ranks}
use roc_shmem.Collective.Comms.Made.{Right, create_comm-Right}
use roc_shmem.Collective.Result.{alltoall-return, fcollect-return}
use roc_shmem.Collective.Progress.{Reach-completes}
use roc_shmem.Collective.Progress.Barriers.{comm_cluster-Opens}
use roc_shmem.Collective.Progress.Work.{Run}

-- The root of a number below 16.
abbrev root : ℕ → ℕ
root n = if leb 9 n then 3 else if leb 4 n then 2 else 1

abbrev two : Call
two = record { pe_size = 2; num_clust = 1; clust_size = 2; type_size = 1; size = 1 }

two_made : make_call root 2 1 1 ≡ some two
unfolding make_call
two_made = refl

six_clusters :
    make_call root 6 4 8
    ≡ some (record { pe_size = 6; num_clust = 2; clust_size = 3; type_size = 4; size = 8 })
unfolding make_call
six_clusters = refl

-- Seven PEs do not split into clusters of one size.
seven_refused : make_call root 7 4 8 ≡ none
unfolding make_call
seven_refused = refl

abbrev contents : ℕ → ℕ → ℕ
contents p j = 10 * p + j

abbrev start : System
start = record { phases = λ p. away; src = λ p j. 0; ata_buff = λ p j. 0; dst = λ p j. 0 }

abbrev called : System
called = record start {
  phases = update (update start.phases 0 (reading 0)) 1 (reading 0);
  src = update (update start.src 0 (contents 0)) 1 (contents 1);
}

module _ (x : Transfer) where
  abbrev both_read : System
  both_read = rget two x 1 1 (rget two x 1 0 (rget two x 0 1 (rget two x 0 0 called)))

  abbrev synchronized : System
  synchronized = record both_read { phases = update both_read.phases 0 (sending 0) }

  abbrev sent : System
  sent = put two x 0 0 synchronized

  abbrev finished : System
  finished = record sent { phases = update sent.phases 0 left }

  module _ (v : Variant) (enough : x.reads ≡ 2) where
    -- A run in which every read is of a PE that has called.
    abbrev GoodRun : System → Type 0
    GoodRun s = (r : Reach two x v contents s) × AllEntered two x v contents s r

    and_then :
        (s s' : System)
        → GoodRun s
        → (st : Step two x v contents s s') → Entered two x v contents s s' st
        → GoodRun s'
    unfolding AllEntered
    and_then s s' run st e = (steps s s' run.0 st, (run.1, e))

    both_called : GoodRun called
    unfolding AllEntered Entered
    both_called =
        and_then _ _
          (and_then _ _ (starts start (λ p l. refl), tt) (calls start 0 (omega arith) refl) tt)
          (calls _ 1 (omega arith) refl) tt

    reads_two : GoodRun both_read
    unfolding rget Entered
    reads_two =
        and_then _ _
          (and_then _ _
            (and_then _ _
              (and_then _ _ both_called
                (reads called 0 0 (omega arith) (omega (arith, enough)) refl) tt)
              (reads _ 0 1 (omega arith) (omega (arith, enough)) refl) tt)
            (reads _ 1 0 (omega arith) (omega (arith, enough)) refl) tt)
          (reads _ 1 1 (omega arith) (omega (arith, enough)) refl) tt

    phases_done : (k : ℕ) → k < 2 → reads_done two x (both_read.phases k) ≡ x.reads
    unfolding rget
    phases_done zero l = sym enough
    phases_done (suc zero) l = sym enough
    phases_done (suc (suc k)) l = absurd (omega (arith, l))

    -- The ring of PE 0 is PE 0 alone.
    ring_of_zero : Opens (comm_ring two) (λ q. puts_done two x (sent.phases q) ≡ 1) 0
    unfolding rget put comm_ring
    ring_of_zero = record {
      own = (0, omega arith, refl);
      agreed = λ k l. (let e : k ≡ 0 = omega (arith, l) in rw e refl);
      come = λ k l. (let e : k ≡ 0 = omega (arith, l) in rw e refl);
    }

    finishes : GoodRun finished
    unfolding rget put Entered
    finishes =
        and_then _ _
          (and_then _ _
            (and_then _ _ reads_two
              (synchronizes both_read 0 (omega arith) (rw enough refl) (λ g.
                comm_cluster-Opens two refl (omega arith)
                  (λ q. reads_done two x (both_read.phases q) ≡ x.reads) phases_done 0
                  (omega arith)))
              tt)
            (sends synchronized 0 0 (omega arith) (omega arith) refl) tt)
          (leaves sent 0 (omega arith) refl ring_of_zero) tt

alltoall-return_example :
    (finished (alltoall two)).dst 0 (1 * bytes two + 0) ≡ contents 1 (0 * bytes two + 0)
unfolding alltoall
alltoall-return_example =
    alltoall-return root 2 1 1 two two_made gcen2 contents (finished (alltoall two))
      (finishes (alltoall two) gcen2 refl).0 (finishes (alltoall two) gcen2 refl).1 0 1 0
      (omega arith) (omega arith) (omega arith) refl

fcollect-return_example : (finished (fcollect two)).dst 0 (1 * bytes two + 0) ≡ contents 1 0
unfolding fcollect
fcollect-return_example =
    fcollect-return root 2 1 1 two two_made gcen contents (finished (fcollect two))
      (finishes (fcollect two) gcen refl).0 (finishes (fcollect two) gcen refl).1 0 1 0
      (omega arith) (omega arith) (omega arith) refl

Reach-completes_example :
    (s' : System) × Run two (alltoall two) gcen2 contents (finished (alltoall two)) s'
    × ((p : ℕ) → p < 2 → s'.phases p ≡ left)
unfolding alltoall
Reach-completes_example =
    Reach-completes root 2 1 1 two two_made (alltoall two) gcen2 contents (finished (alltoall two))
      (finishes (alltoall two) gcen2 refl).0

-- The ring of PE 1 among six PEs, made on an empty map, where MPI takes every group.
create_comm-Right_example :
    Returns
      (Right (λ g. true) 6 1 3 2)
      (create_comm (λ g. true) 6 1 3 2 (record { comm_map = []; made = 0 }))
create_comm-Right_example =
    create_comm-Right (λ g. true) 6 1 3 2 (λ g a d. refl) (omega arith) (omega arith) (omega arith)
      (record { comm_map = []; made = 0 }) tt

ring_of_one :
    create_comm (λ g. true) 6 1 3 2 (record { comm_map = []; made = 0 })
    ≡ some (
      (record { handle = 0; group = 1 ∷ 4 ∷ [] }),
      (record {
        comm_map =
            (
              (record { start = 1; log_p_stride = 3; size = 2 }),
              (record { handle = 0; group = 1 ∷ 4 ∷ [] }),
            )
            ∷ [];
        made = 1;
      }),
    )
unfolding create_comm find group_ranks
ring_of_one = refl
