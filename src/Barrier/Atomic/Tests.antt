-- ===== src/Barrier/Atomic/Tests.antt =====
-- library/src/gpu_ib/gpu_ib_gpu_coll.cpp: an atomic barrier of two PEs.
use roc_shmem.Common.{ℕ, ◌<◌, ◌≤◌, ◌≡◌, refl, arith}
use roc_shmem.Barrier.Atomic.{
  outside, System, root_enters, root_sees, root_announces, root_leaves, arrives, add_lands, Reach,
  starts, steps,
}
use roc_shmem.Barrier.Atomic.History.{Idle, Reach-Counted}

abbrev nobody : System
nobody = record {
  stage = outside;
  count = 0;
  adds = 0;
  flag = λ i. 0;
  puts = λ i. 0;
  entered = λ i. 0;
  left = λ i. 0;
}

-- PE 1 has come, PE 0 has counted it, announced that and left.
announced : (s : System) × Reach 2 s × (s.left 0 ≡ 1) × (s.puts 1 ≡ 1)
announced = (
  _,
  steps _ _
      (steps _ _
        (steps _ _
          (steps _ _
            (steps _ _
              (steps _ _
                (starts nobody refl refl refl (λ i. refl) (λ i. refl) (λ i. refl) (λ i. refl))
                (arrives nobody 1 (omega arith) (omega arith) refl))
              (root_enters _ refl))
            (add_lands _ 0 refl))
          (root_sees _ refl refl))
        (root_announces _ 1 refl (omega arith)))
      (root_leaves _ 2 refl (omega arith)),
  refl,
  refl,
)

Reach-Counted_example :
    ((i j : ℕ) → i < 2 → j < 2 → announced.0.left i ≤ announced.0.entered j)
    × (Idle 2 (omega arith) announced.0
        → (announced.0.count ≡ 0) × ((i : ℕ) → 0 < i → i < 2 → announced.0.flag i ≡ 0))
Reach-Counted_example = Reach-Counted 2 (omega arith) announced.0 announced.1
