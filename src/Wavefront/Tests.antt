-- ===== src/Wavefront/Tests.antt =====
-- library/src/wf_coal_policy.cpp: four active lanes of 8 bytes each, of which the first three are
-- neighbours in memory.
use roc_shmem.Common.{ℕ, ◌+◌, ◌*◌, ◌%◌, ◌<◌, ◌≡◌, refl, if◌then◌else◌, ltb, ◌==◌, none, some, arith}
use roc_shmem.Wavefront.{Wave, coalesce, coalescable, through_int}
use roc_shmem.Wavefront.Messages.{Answered, coalesce-Answered}
use roc_shmem.Wavefront.Neighbours.{Fits, Sends}

abbrev wave : Wave
wave i = record {
  active = ltb i 4;
  pe = 1;
  source = if i == 3 then 9000 else 1000 + 8 * (i % 8);
  dest = 5000 + 8 * (i % 8);
  size = 8;
}

first_sends_three : coalesce wave 0 ≡ some 24
unfolding coalesce coalescable through_int
first_sends_three = refl

second_is_silent : coalesce wave 1 ≡ none
unfolding coalesce coalescable through_int
second_is_silent = refl

fourth_sends_one : coalesce wave 3 ≡ some 8
unfolding coalesce coalescable through_int
fourth_sends_one = refl

wave-Fits : Fits wave
wave-Fits = record {
  sources = λ i. ground arith;
  dests = λ i. ground arith;
  sizes = λ i. omega arith;
}

coalesce-Answered_example :
    (q : Answered wave wave-Fits 2) × ((s k d : ℕ)
      → Sends wave s k
      → 2 ≡ s + d
      → d < k
      → s ≡ q.sender)
coalesce-Answered_example = coalesce-Answered wave wave-Fits 2 (omega arith) refl
