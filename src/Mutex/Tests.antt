-- ===== src/Mutex/Tests.antt =====
-- library/src/device_mutex.cpp: two wavefronts of a work-group in the mutex, one of another that
-- waits, and three active lanes.
use roc_shmem.Common.{ℕ, ◌<◌, ◌≡◌, refl, arith, Bool, true, false, ◌||◌, if◌then◌else◌, ◌==◌, none}
use roc_shmem.Mutex.{outside, System, locks, takes, enters, owns, waits, Reach, starts, steps}
use roc_shmem.Mutex.Counting.{total}
use roc_shmem.Mutex.Exclusion.{is_in, Reach-Exclusive}
use roc_shmem.Mutex.Lanes.{
  number_active_lanes, active_logical_lane_id, active_logical_lane_id_ordered,
}

-- The wavefronts 0 and 1 are of work-group 0, wavefront 2 is of work-group 1.
abbrev group : ℕ → ℕ
group w = if w == 2 then 1 else 0

abbrev lanes : ℕ → ℕ
lanes w = 64

abbrev nobody : System
nobody = record {
  ctx_lock = false;
  wg_owner = none;
  num_threads_in_lock = 0;
  phases = λ w. outside;
}

crowded : (s : System) × Reach 3 group lanes s × (s.num_threads_in_lock ≡ 128)
crowded = (
  _,
  steps _ _
      (steps _ _
        (steps _ _
          (steps _ _
            (steps _ _
              (steps _ _
                (steps _ _
                  (steps _ _
                    (steps _ _
                      (steps _ _ (starts nobody refl refl refl (λ w. refl))
                        (locks _ 0 (omega arith) refl))
                      (locks _ 2 (omega arith) refl))
                    (takes _ 0 (omega arith) refl refl))
                  (owns _ 0 (omega arith) refl refl))
                (enters _ 0 (omega arith) refl refl))
              (takes _ 2 (omega arith) refl refl))
            (waits _ 2 0 (omega arith) refl refl (λ e. omega (arith, e))))
          (locks _ 1 (omega arith) refl))
        (takes _ 1 (omega arith) refl refl))
      (enters _ 1 (omega arith) refl refl),
  refl,
)

Reach-Exclusive_example :
    ((w v : ℕ)
      → w < 3
      → v < 3
      → is_in (crowded.0.phases w) ≡ true
      → is_in (crowded.0.phases v) ≡ true
      → group w ≡ group v)
    × (crowded.0.num_threads_in_lock ≡ total lanes 3 crowded.0.phases)
Reach-Exclusive_example = Reach-Exclusive 3 group lanes (λ w l. omega arith) crowded.0 crowded.1

abbrev three_active : ℕ → Bool
three_active j = (j == 2) || (j == 5) || (j == 62)

third : active_logical_lane_id three_active 62 ≡ 2
unfolding active_logical_lane_id
third = refl

active_logical_lane_id_ordered_example :
    ((a b : ℕ)
      → a < b
      → b < 64
      → three_active a ≡ true
      → active_logical_lane_id three_active a < active_logical_lane_id three_active b)
    × ((a : ℕ)
        → a < 64
        → three_active a ≡ true
        → active_logical_lane_id three_active a < number_active_lanes three_active)
active_logical_lane_id_ordered_example = active_logical_lane_id_ordered three_active
