-- ===== src/Queue/History.antt =====
-- library/src/reverse_offload/context_ro_device.cpp, backend_ro.cpp: what holds of a queue in every
-- interleaving of its writers and the host.
use roc_shmem.Common.{
  true, ℕ, zero, suc, ◌%◌, ◌^◌, ◌<◌, ◌≡◌, ◌≢◌, refl, ap, ◌∙◌, [], false, none, Returns, arith, inl,
  inr, ◌+◌, ◌-◌, ◌≤◌, Returns-map, Bool-cases, ◌==◌,
}
use roc_shmem.Transport.Request.{QueueElement}
use roc_shmem.Queue.{drain}
use roc_shmem.Queue.Ring.{absent, taken, System, Step, Fresh, place_unique}
use roc_shmem.Queue.Invariant.{Inv, Delivered, nothing, is_published}
use roc_shmem.Queue.Writers.{window}
use roc_shmem.Queue.Steps.{
  Polled, popped, popped-Inv, ro_net_process_queue-Polled, Step-Inv, published_by,
}

-- An empty queue of some size, with no writer.
unfoldable pub start : ℕ → System
start queue_size = record {
  queue = record {
    queue_size = queue_size;
    write_idx = 0;
    read_idx = 0;
    host_read_idx = 0;
    elements = λ i. none;
    valid = λ i. false;
    inserted = [];
  };
  writers = λ n. absent;
  loaded = λ w. none;
  tested = λ w. none;
}

-- The systems that steps reach from an empty queue.
pub data Reach (queue_size : ℕ) : System → Type 0 where
  begins : Reach queue_size (start queue_size)
  steps : (s s' : System) → Reach queue_size s → Step s s' → Reach queue_size s'

-- No store of the run moves the device's copy of the read index back.
unfoldable pub AllFresh : (queue_size : ℕ) (s : System) → Reach queue_size s → Type 0
unfolding Fresh
AllFresh n _ begins = Unit
AllFresh n _ (steps s s' r t) = AllFresh n s r × Fresh s s' t

start-Inv : (n : ℕ) → 0 < n → n < 2 ^ 64 → Inv (start n)
unfolding start
start-Inv n h k = record {
  sized = h;
  small = k;
  bounded = omega arith;
  behind = omega arith;
  ordered = omega arith;
  fits = omega arith;
  unclaimed = λ n le. refl;
  marked = λ n w. refl;
  held = λ n w. tt;
  delivered = nothing;
  loaded_behind = λ w v h. absurd (ground (arith, h));
  tested_room = λ w v h. absurd (ground (arith, h));
}

pub Reach-Inv : (n : ℕ) (s : System) → 0 < n → n < 2 ^ 64 → (r : Reach n s) → AllFresh n s r → Inv s
unfolding AllFresh
Reach-Inv n _ h k begins f = start-Inv n h k
Reach-Inv n _ h k (steps s s' r t) f = Step-Inv s s' t f.1 (Reach-Inv n s h k r f.0)

-- In every interleaving of writers and host on a queue of 1 place or more and fewer than 2^64, in
-- which no store moves the device's copy of the read index back, the host has inserted the
-- elements of the writers of the first numbers, as many as its read index says, each once and in
-- the order of the numbers.
pub Reach-Delivered :
    (n : ℕ) (s : System)
    → 0 < n
    → n < 2 ^ 64
    → (r : Reach n s) → AllFresh n s r
    → Delivered s.writers s.queue.host_read_idx s.queue.inserted
Reach-Delivered n s h k r f = (Reach-Inv n s h k r f).delivered

-- In every interleaving on a queue of 1 place or more and fewer than 2^64, in which no store
-- moves the device's copy of the read index back, a writer that has a number and has not packed
-- its element finds the valid byte of its place clear, so it overwrites no element that the host
-- has still to read.
pub pack_overwrites_nothing :
    (n : ℕ) (s : System) (i : ℕ) (e : QueueElement)
    → 0 < n
    → n < 2 ^ 64
    → (r : Reach n s) → AllFresh n s r
    → s.writers i ≡ taken e
    → s.queue.valid (i % s.queue.queue_size) ≡ false
pack_overwrites_nothing n s i e h k r f w =
    let inv = Reach-Inv n s h k r f in
    inv.marked i (window s inv i (λ a. cc) (λ e' p. cc)) ∙ ap is_published w

-- In every interleaving on a queue of 1 place or more and fewer than 2^64, in which no store
-- moves the device's copy of the read index back, two writers with different numbers that have
-- not packed their elements write to two places.
pub places_apart :
    (n : ℕ) (s : System) (i j : ℕ) (e f : QueueElement)
    → 0 < n
    → n < 2 ^ 64
    → (r : Reach n s) → AllFresh n s r
    → s.writers i ≡ taken e
    → s.writers j ≡ taken f
    → i ≢ j
    → (i % s.queue.queue_size) ≢ (j % s.queue.queue_size)
places_apart n s i j e f h k r fresh wi wj ne = λ q.
    let inv = Reach-Inv n s h k r fresh in
    let a = window s inv i (λ a. cc) (λ e' p. cc) in
    let b = window s inv j (λ a. cc) (λ e' p. cc) in
    ne (place_unique s.queue.queue_size s.queue.host_read_idx i j inv.sized a.0 a.1 b.0 b.1 q)

-- Where the invariant of the queue holds and the writers of the next k numbers have published,
-- the loop of the host over the queue with a limit of k readings or more ends, it moves the read
-- index by k or more, and the invariant holds after it.
pub drain-Inv :
    (limit k : ℕ) (s : System)
    → Inv s
    → k ≤ limit
    → ((j : ℕ) → j < k → is_published (s.writers (s.queue.host_read_idx + j)) ≡ true)
    → Returns
        (λ q. Inv (record s { queue = q }) × (s.queue.host_read_idx + k ≤ q.host_read_idx))
        (drain limit s.queue)
unfolding drain Polled
drain-Inv zero k s inv le ready = (inv, omega (arith, le))
drain-Inv (suc limit) k s inv le ready = elim (ro_net_process_queue-Polled s inv) [
  | inl (e, p, r) ↦ rw r (
      Returns-map _ _ (drain limit (popped s inv e)) (λ q h. (h.0, omega (arith, h.1)))
        (drain-Inv limit (k - 1) (record s { queue = popped s inv e }) (popped-Inv s inv e p)
          (omega (arith, le))
          (λ j lt.
            ap (λ n. is_published (s.writers n)) (omega arith)
            ∙ ready (j + 1) (omega (arith, lt)))))
  | inr (n, r) ↦ rw r (
    inv,
    elim (Bool-cases (0 == k)) [
      | inl done ↦ ground (arith, done)
      | inr more ↦ absurd (
          let set =
            ap (λ n. is_published (s.writers n)) (omega arith) ∙ ready 0 (ground (arith, more)) in
          let (e, p) = published_by s inv (s.writers s.queue.host_read_idx) set in n e p)
    ],
  )
]
