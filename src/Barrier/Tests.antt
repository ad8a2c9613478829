-- ===== src/Barrier/Tests.antt =====
-- library/src/gpu_ib/gpu_ib_gpu_coll.cpp: a direct barrier of the PEs 1 and 3.
use roc_shmem.Common.{ℕ, zero, suc, ◌+◌, ◌*◌, ◌<◌, ◌≤◌, ◌≡◌, refl, arith, ◌⊎◌}
use roc_shmem.Barrier.{
  Triplet, outside, System, root_enters, root_sees, root_turns, root_announces, root_leaves,
  arrives, lands, Reach, starts, steps,
}
use roc_shmem.Barrier.Progress.{Onward, Reach-Onward}
use roc_shmem.Barrier.Order.{Idle, Clear, Reach-Ordered}

abbrev pair : Triplet
pair = record { pe_start = 1; stride = 2; n_pes = 2 }

abbrev nobody : System
nobody = record {
  stage = outside;
  psync = λ pe at. 0;
  flying = λ pe at. 0;
  entered = λ pe. 0;
  left = λ pe. 0;
}

-- PE 3 has arrived, PE 1 has seen its flag, announced that and left.
released : (s : System) × Reach pair s × (s.left 1 ≡ 1) × (s.flying 3 0 ≡ 1)
released = (
  _,
  steps _ _
      (steps _ _
        (steps _ _
          (steps _ _
            (steps _ _
              (steps _ _
                (steps _ _
                  (starts nobody refl (λ pe at. refl) (λ pe at. refl) (λ pe. refl) (λ pe. refl))
                  (arrives nobody 3 1 refl (omega arith) (omega arith) refl))
                (lands _ 1 1 0 refl))
              (root_enters _ refl))
            (root_sees _ 1 refl (omega arith) refl))
          (root_turns _ 2 refl (omega arith)))
        (root_announces _ 1 refl (omega arith)))
      (root_leaves _ 2 refl (omega arith)),
  refl,
  refl,
)

Reach-Ordered_example :
    ((i j : ℕ) → i < 2 → j < 2 → released.0.left (1 + i * 2) ≤ released.0.entered (1 + j * 2))
    × (Idle pair (omega arith) released.0 → Clear pair (omega arith) released.0)
Reach-Ordered_example = Reach-Ordered pair (omega arith) released.0 released.1

both_entered : (i : ℕ) → i < 2 → released.0.entered (1 + i * 2) ≡ 1
unfolding released
both_entered zero l = refl
both_entered (suc zero) l = refl
both_entered (suc (suc i)) l = absurd (omega (arith, l))

Reach-Onward_example : ((i : ℕ) → i < 2 → released.0.left (1 + i * 2) ≡ 1) ⊎ Onward pair released.0
Reach-Onward_example =
    Reach-Onward pair (omega arith) (omega arith) released.0 released.1 1 both_entered
