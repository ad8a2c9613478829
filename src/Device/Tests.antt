-- ===== src/Device/Tests.antt =====
-- library/src/reverse_offload/context_ro_device.cpp: PE 0, which shares memory with PE 1 only.
use roc_shmem.Common.{ℕ, zero, suc, ◌+◌, ◌≡◌, ◌↔◌, refl, Bool, true, false, arith, Returns}
use roc_shmem.Common.Int.{ℤ, pos, negsuc}
use roc_shmem.Transport.{init_transport}
use roc_shmem.Transport.Request.{ro_net_fence, Environment, QueueElement, perform}
use roc_shmem.Transport.Invariant.{init_transport-Valid}
use roc_shmem.Device.{
  Context, sends, command, shmem_ptr, amo_fetch_add, run, moves, put_nbi, fences, fence,
}
use roc_shmem.Device.Answers.{Suits, run-Suits}
use roc_shmem.Device.Replies.{Answerable, run-perform}
use roc_shmem.Device.Heap.{Fits, below_zero, shmem_ptr-offset, amo_fetch_add-value}

abbrev context : Context
context = record {
  my_pe = pos 0;
  is_ipc_available = λ p. near p;
  ipc_bases = λ p. base p;
  must_send_message = true;
  is_thread_zero_in_block = true;
  is_thread_zero_in_wave = true;
  thread_id = 3;
  atomic_counter = 0;
  max_nb_atomic = 64;
  atomic_base_ptr = 512;
}
  where
    near : ℤ → Bool
    near (pos zero) = false
    near (pos (suc zero)) = true
    near (pos (suc (suc n))) = false
    near (negsuc n) = false

    base : ℤ → ℕ
    base (pos zero) = 4096
    base (pos (suc n)) = 1048576
    base (negsuc n) = 0

abbrev environment : Environment
environment = record {
  comm_size = λ c. 4;
  type_size = λ t. 8;
  sqrt = λ n. 2;
  malloc = λ n. 65536;
  makes_comm = λ start log_stride size. true;
  makes_clusters = λ c. true;
}

run-Suits_example : Suits context (run context (moves put_nbi 4096 8192 16 (pos 2)))
run-Suits_example = run-Suits context (moves put_nbi 4096 8192 16 (pos 2))

run-perform_example : Returns (Answerable 1 3) (
    perform ro_net_fence environment
      (command context ro_net_fence 0 0 0 (pos 0))
      (pos 1)
      (init_transport 2))
unfolding run fence init_transport
run-perform_example =
    run-perform context fences (command context ro_net_fence 0 0 0 (pos 0)) environment 1
      (init_transport 2) (init_transport-Valid 2) (omega arith) refl

pointer_to_other_heap : shmem_ptr context (4096 + 40) (pos 1) ≡ 1048576 + 40
pointer_to_other_heap = shmem_ptr-offset context 40 (pos 1) refl (omega arith) (omega arith)

amo_fetch_add-value_example :
    (q : QueueElement) × (amo_fetch_add context 4096 (negsuc 4) (pos 2) ≡ sends q true)
    × ((q.size ≡ negsuc 4) ↔ Fits 31 (negsuc 4))
amo_fetch_add-value_example =
    amo_fetch_add-value context 4096 (negsuc 4) (pos 2) refl (below_zero 4 (omega arith))
