-- ===== src/Reduce/Tests.antt =====
-- library/src/gpu_ib/gpu_ib_gpu_templates.hpp: choices of `to_all`.
use roc_shmem.Common.{◌^◌, ◌≡◌, refl, arith}
use roc_shmem.Reduce.{max, direct, ring, ring_sizes, to_all}
use roc_shmem.Reduce.Plan.{Within, to_all-Within}

small_is_direct : to_all 4 100 ≡ direct
unfolding to_all max
small_is_direct = refl

-- Three chunks of 333 elements leave the last of 1000 elements out.
one_left_out : to_all 3 1000 ≡ ring 1 1000 333
unfolding to_all max ring_sizes
one_left_out = refl

to_all-Within_example : Within 1024 3 1000 (to_all 3 1000)
to_all-Within_example =
    to_all-Within 1024 3 1000 (omega arith) (omega arith) (omega arith) (omega arith) (omega arith)

-- The product of 64 and 2^26 is 0 as an `int`.
product_wraps : to_all 64 (2 ^ 26) ≡ direct
unfolding to_all max
product_wraps = refl
