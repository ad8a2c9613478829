-- ===== src/Queue/Ring.antt =====
-- library/src/reverse_offload/context_ro_device.cpp, backend_ro.cpp: the steps of the threads of
-- the device in `build_queue_element`, and of the host, on a queue that they share.
use native.Mathlib.Nat.{div-add-mod}
use roc_shmem.Common.{
  update, ℕ, ◌+◌, ◌-◌, ◌*◌, ◌/◌, ◌%◌, ◌^◌, ◌<◌, ◌≤◌, ◌≡◌, Bool, true, false, Option, none, some,
  arith, Bool-cases, ltb, ltb→lt, inl, inr, ap, sym, ◌∙◌,
}
use roc_shmem.Transport.Request.{QueueElement}
use roc_shmem.Queue.{
  Queue, is_full, store_read_idx, take_slot, pack, set_valid, ro_net_process_queue,
}

-- Where the writer of a number stands: it has not begun, has the number, has packed the element,
-- has set the valid byte.
pub data Writer : Type 0 where
  absent : Writer
  taken : QueueElement → Writer
  packed : QueueElement → Writer
  published : QueueElement → Writer

-- The queue with the writers by their numbers, and the registers of the threads: the value of the
-- host's read index that a thread has loaded and has still to store, and the write index for which
-- it has found the queue not full.
pub record System : Type 0 where
  pub queue : Queue
  pub writers : ℕ → Writer
  pub loaded : ℕ → Option ℕ
  pub tested : ℕ → Option ℕ

-- One step of one thread `w`. The write index that it tests is one that it has read at some time
-- before, and so is the index of the host that it stores.
pub data Step : System → System → Type 0 where
  loads :
      (s : System) (w write_slot : ℕ)
      → write_slot ≤ s.queue.write_idx
      → is_full s.queue.read_idx write_slot s.queue.queue_size ≡ true
      → Step s (record s { loaded = update s.loaded w (some s.queue.host_read_idx) })
  stores :
      (s : System) (w value : ℕ)
      → s.loaded w ≡ some value
      → Step s (record s { queue = store_read_idx value s.queue; loaded = update s.loaded w none })
  tests :
      (s : System) (w write_slot : ℕ)
      → write_slot ≤ s.queue.write_idx
      → is_full s.queue.read_idx write_slot s.queue.queue_size ≡ false
      → Step s (record s { tested = update s.tested w (some write_slot) })
  takes :
      (s : System) (w write_slot : ℕ) (e : QueueElement) (q : Queue)
      → s.tested w ≡ some write_slot
      → write_slot + 1 < 2 ^ 64
      → take_slot write_slot s.queue ≡ some q
      → Step s (record s {
        queue = q;
        writers = update s.writers write_slot (taken e);
        tested = update s.tested w none;
      })
  packs :
      (s : System) (n : ℕ) (e : QueueElement)
      → s.writers n ≡ taken e
      → Step s (record s { queue = pack n e s.queue; writers = update s.writers n (packed e) })
  publishes :
      (s : System) (n : ℕ) (e : QueueElement)
      → s.writers n ≡ packed e
      → Step s
          (record s { queue = set_valid n s.queue; writers = update s.writers n (published e) })
  polls :
      (s : System) (b : Bool) (q : Queue)
      → ro_net_process_queue s.queue ≡ some (b, q)
      → Step s (record s { queue = q })

-- A store does not move the device's copy of the read index back.
unfoldable pub Fresh : (s s' : System) → Step s s' → Type 0
Fresh _ _ (stores s w value h) = s.queue.read_idx ≤ value
Fresh _ _ (loads s w write_slot le f) = Unit
Fresh _ _ (tests s w write_slot le f) = Unit
Fresh _ _ (takes s w write_slot e q h l t) = Unit
Fresh _ _ (packs s n e h) = Unit
Fresh _ _ (publishes s n e h) = Unit
Fresh _ _ (polls s b q h) = Unit

round_further : (size a b : ℕ) → a < b → size * a + size ≤ size * b
round_further size a b h = let e : b ≡ a + 1 + (b - a - 1) = omega (arith, h) in rw e (grind arith)

-- The numbers from `read` on, for one round of the ring, have places of their own.
pub place_unique :
    (size read n k : ℕ)
    → 0 < size
    → read ≤ n
    → n < read + size
    → read ≤ k
    → k < read + size
    → n % size ≡ k % size
    → n ≡ k
place_unique size read n k z h1 h2 h3 h4 e =
    let qn : n ≡ size * (n / size) + n % size = omega (arith, div-add-mod n size) in
    let qk : k ≡ size * (k / size) + k % size = omega (arith, div-add-mod k size) in
    elim (Bool-cases (ltb (n / size) (k / size))) [
      | inl lo ↦ absurd (
          let f = round_further size (n / size) (k / size) (ltb→lt _ _ lo) in
          omega (arith, qn, qk, e, f, h1, h2, h3, h4))
      | inr hi ↦ elim (Bool-cases (ltb (k / size) (n / size))) [
        | inl lo ↦ absurd (
            let f = round_further size (k / size) (n / size) (ltb→lt _ _ lo) in
            omega (arith, qn, qk, e, f, h1, h2, h3, h4))
        | inr lo ↦
            let q : n / size ≡ k / size = ground (arith, hi, lo) in
            qn ∙ ap (λ x. size * x + n % size) q ∙ ap (λ x. size * (k / size) + x) e ∙ sym qk
      ]
    ]
