-- ===== src/Queue/Tests.antt =====
-- library/src/reverse_offload/context_ro_device.cpp, backend_ro.cpp: a queue of two places, whose
-- first element goes through.
use roc_shmem.Common.{
  update, ℕ, ◌+◌, ◌%◌, ◌≡◌, ◌≢◌, refl, true, false, arith, Returns, [], ◌∷◌, none, some, ◌≤◌, ap,
}
use roc_shmem.Common.Int.{pos}
use roc_shmem.Transport.Request.{ro_net_fence, QueueElement}
use roc_shmem.Queue.{
  is_full, store_read_idx, take_slot, ro_net_process_queue, drain, pack, set_valid,
}
use roc_shmem.Queue.Ring.{
  taken, System, Step, Fresh, loads, stores, tests, takes, packed, published, packs, publishes,
  polls,
}
use roc_shmem.Queue.Invariant.{Inv, Delivered, is_published}
use roc_shmem.Queue.Steps.{Polled, ro_net_process_queue-Polled, Step-Inv}
use roc_shmem.Queue.History.{
  start, Reach, AllFresh, begins, steps, Reach-Inv, Reach-Delivered, pack_overwrites_nothing,
  places_apart, drain-Inv,
}

abbrev fence : ℕ → QueueElement
fence thread = record {
  type = ro_net_fence;
  pe = pos 0;
  size = pos 0;
  src = 0;
  dst = 0;
  thread_id = thread;
  log_pe_stride = pos 0;
  pe_size = pos 0;
  p_wrk = 0;
  p_sync = 0;
  op = 0;
  datatype = 0;
  pe_root = pos 0;
  team_comm = 0;
}

-- A run in which no store moves the copy of the read index back.
abbrev GoodRun : System → Type 0
GoodRun s = (r : Reach 2 s) × AllFresh 2 s r

and_then : (s s' : System) → GoodRun s → (t : Step s s') → Fresh s s' t → GoodRun s'
unfolding AllFresh
and_then s s' run t f = (steps s s' run.0 t, (run.1, f))

-- Two threads have taken the two places.
abbrev one_tested : System
one_tested = record (start 2) { tested = update (start 2).tested 4 (some 0) }

abbrev one_taken : System
one_taken = record one_tested {
  queue = record one_tested.queue { write_idx = 0 + 1 };
  writers = update one_tested.writers 0 (taken (fence 1));
  tested = update one_tested.tested 4 none;
}

one_taken-Reach : GoodRun one_taken
unfolding start is_full take_slot AllFresh Fresh
one_taken-Reach =
    and_then one_tested one_taken
      (and_then (start 2) one_tested (begins, tt) (tests (start 2) 4 0 (omega arith) refl) tt)
      (takes one_tested 4 0 (fence 1) (record one_tested.queue { write_idx = 0 + 1 }) refl
        (omega arith) refl)
      tt

abbrev two_tested : System
two_tested = record one_taken { tested = update one_taken.tested 5 (some 1) }

abbrev two_taken : System
two_taken = record two_tested {
  queue = record two_tested.queue { write_idx = 1 + 1 };
  writers = update two_tested.writers 1 (taken (fence 2));
  tested = update two_tested.tested 5 none;
}

two_taken-Reach : GoodRun two_taken
unfolding start is_full take_slot Fresh
two_taken-Reach =
    and_then two_tested two_taken
      (and_then one_taken two_tested one_taken-Reach (tests one_taken 5 1 (omega arith) refl) tt)
      (takes two_tested 5 1 (fence 2) (record two_tested.queue { write_idx = 1 + 1 }) refl
        (omega arith) refl)
      tt

full_after_two : is_full 0 2 2 ≡ true
unfolding is_full
full_after_two = refl

-- The first thread packs its element and sets the valid byte, and the host polls.
abbrev one_packed : System
one_packed = record one_taken {
  queue = record one_taken.queue { elements = update one_taken.queue.elements 0 (some (fence 1)) };
  writers = update one_taken.writers 0 (packed (fence 1));
}

abbrev one_published : System
one_published = record one_packed {
  queue = record one_packed.queue { valid = update one_packed.queue.valid 0 true };
  writers = update one_packed.writers 0 (published (fence 1));
}

abbrev one_inserted : System
one_inserted = record one_published {
  queue = record one_published.queue {
    inserted = fence 1 ∷ [];
    valid = update one_published.queue.valid 0 false;
    host_read_idx = 0 + 1;
  };
  writers = one_published.writers;
}

one_published-Reach : GoodRun one_published
unfolding start pack set_valid Fresh
one_published-Reach =
    and_then one_packed one_published
      (and_then one_taken one_packed one_taken-Reach (packs one_taken 0 (fence 1) refl) tt)
      (publishes one_packed 0 (fence 1) refl) tt

one_published-Inv : Inv one_published
one_published-Inv =
    Reach-Inv 2 one_published (omega arith) (omega arith) one_published-Reach.0
      one_published-Reach.1

one_inserted-Reach : GoodRun one_inserted
unfolding ro_net_process_queue start Fresh
one_inserted-Reach =
    and_then one_published one_inserted one_published-Reach
      (polls one_published true one_inserted.queue refl) tt

Reach-Delivered_example : Delivered one_inserted.writers 1 (fence 1 ∷ [])
unfolding start
Reach-Delivered_example =
    Reach-Delivered 2 one_inserted (omega arith) (omega arith) one_inserted-Reach.0
      one_inserted-Reach.1

pack_overwrites_nothing_example : one_taken.queue.valid (0 % one_taken.queue.queue_size) ≡ false
pack_overwrites_nothing_example =
    pack_overwrites_nothing 2 one_taken 0 (fence 1) (omega arith) (omega arith) one_taken-Reach.0
      one_taken-Reach.1 refl

places_apart_example : (0 % two_taken.queue.queue_size) ≢ (1 % two_taken.queue.queue_size)
places_apart_example =
    places_apart 2 two_taken 0 1 (fence 1) (fence 2) (omega arith) (omega arith) two_taken-Reach.0
      two_taken-Reach.1 refl refl (λ e. omega (arith, e))

one_taken-Inv : Inv one_taken
one_taken-Inv =
    Reach-Inv 2 one_taken (omega arith) (omega arith) one_taken-Reach.0 one_taken-Reach.1

poll_of_published : Polled one_taken one_taken-Inv (ro_net_process_queue one_taken.queue)
poll_of_published = ro_net_process_queue-Polled one_taken one_taken-Inv

-- A thread that has loaded 0 stores it.
abbrev one_loaded : System
one_loaded = record two_taken { loaded = update two_taken.loaded 6 (some 0) }

one_loaded-Inv : Inv one_loaded
unfolding start is_full Fresh
one_loaded-Inv =
    Step-Inv two_taken one_loaded (loads two_taken 6 2 (omega arith) refl) tt
      (Reach-Inv 2 two_taken (omega arith) (omega arith) two_taken-Reach.0 two_taken-Reach.1)

Step-Inv_example : Inv (record one_loaded {
  queue = store_read_idx 0 one_loaded.queue;
  loaded = update one_loaded.loaded 6 none;
})
unfolding start Fresh
Step-Inv_example =
    Step-Inv one_loaded
      (record one_loaded {
        queue = store_read_idx 0 one_loaded.queue;
        loaded = update one_loaded.loaded 6 none;
      })
      (stores one_loaded 6 0 refl) (omega arith) one_loaded-Inv

-- Two places with the numbers 0 to 2 written and 0 read are full, but not by a copy that a late
-- store has moved back.
late_store_misses : (is_full 1 3 2 ≡ true) × (is_full 0 3 2 ≡ false)
unfolding is_full
late_store_misses = (refl, refl)

drain-Inv_example :
    Returns
      (λ q. Inv (record one_published { queue = q }) × (0 + 1 ≤ q.host_read_idx))
      (drain 64 one_published.queue)
unfolding start
drain-Inv_example = drain-Inv 64 1 one_published one_published-Inv (omega arith) (λ j lt.
    let e : 0 + j ≡ 0 = omega (arith, lt) in ap (λ n. is_published (one_published.writers n)) e)
