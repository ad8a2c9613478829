-- ===== src/Queue/Invariant.antt =====
-- library/src/reverse_offload/context_ro_device.cpp, backend_ro.cpp: the invariant of the command
-- queue, kept by every step of every thread.
use roc_shmem.Common.{
  ℕ, ◌+◌, ◌-◌, ◌%◌, ◌^◌, ◌<◌, ◌≤◌, ◌≡◌, ◌≢◌, sym, ap, ◌∙◌, List, [], ◌∷◌, ◌++◌, Bool, true, false,
  ◌==◌, Option, none, some, some_injective, update, update-cases, arith, Bool-cases, ltb, ltb→lt,
  inl, inr,
}
use roc_shmem.Transport.Request.{QueueElement}
use roc_shmem.Queue.{Queue, sub64, is_full, store_read_idx}
use roc_shmem.Queue.Ring.{Writer, absent, taken, packed, published, System}

sub64-le : (a b : ℕ) → b ≤ a → a < 2 ^ 64 → sub64 a b ≡ a - b
sub64-le a b h k = omega (arith, h, k)

-- The test of the device, where the indices are in range.
pub is_full-lt :
    (r w size : ℕ)
    → r ≤ w
    → w ≤ r + size
    → w < 2 ^ 64
    → size < 2 ^ 64
    → is_full r w size ≡ false
    → w < r + size
unfolding is_full
is_full-lt r w size h1 h2 h3 h4 e =
    let inner = sub64-le w r h1 h3 in
    let outer = sub64-le size (w - r) (omega (arith, h1, h2)) h4 in
    let q : ((size - (w - r)) == 0) ≡ false =
      ap (λ n. n == 0) (sym outer) ∙ ap (λ n. sub64 size n == 0) (sym inner) ∙ e in
    ground (arith, q, h1, h2)

-- The host has inserted the elements of the writers of the first numbers, in order.
pub data Delivered (writers : ℕ → Writer) : ℕ → List QueueElement → Type 0 where
  nothing : Delivered writers 0 []
  one_more :
      (n : ℕ) (es : List QueueElement) (e : QueueElement)
      → Delivered writers n es
      → writers n ≡ published e
      → Delivered writers (n + 1) (es ++ e ∷ [])

-- Whether the valid byte is set, and what is in the place, by the writer of a number.
abbrev pub is_published : Writer → Bool
is_published absent = false
is_published (taken e) = false
is_published (packed e) = false
is_published (published e) = true

abbrev pub Holds : Writer → Option QueueElement → Type 0
Holds absent o = Unit
Holds (taken e) o = Unit
Holds (packed e) o = o ≡ some e
Holds (published e) o = o ≡ some e

-- The numbers from the host's read index on, for one round of the ring.
abbrev pub InWindow : Queue → ℕ → Type 0
InWindow q n = (q.host_read_idx ≤ n) × (n < q.host_read_idx + q.queue_size)

pub record Inv (s : System) : Type 0 where
  pub sized : 0 < s.queue.queue_size
  pub small : s.queue.queue_size < 2 ^ 64
  pub bounded : s.queue.write_idx < 2 ^ 64
  pub behind : s.queue.read_idx ≤ s.queue.host_read_idx
  pub ordered : s.queue.host_read_idx ≤ s.queue.write_idx
  pub fits : s.queue.write_idx ≤ s.queue.read_idx + s.queue.queue_size
  pub unclaimed : (n : ℕ) → s.queue.write_idx ≤ n → s.writers n ≡ absent
  pub marked :
      (n : ℕ)
      → InWindow s.queue n
      → s.queue.valid (n % s.queue.queue_size) ≡ is_published (s.writers n)
  pub held :
      (n : ℕ) → InWindow s.queue n → Holds (s.writers n) (s.queue.elements (n % s.queue.queue_size))
  pub delivered : Delivered s.writers s.queue.host_read_idx s.queue.inserted
  pub loaded_behind : (w value : ℕ) → s.loaded w ≡ some value → value ≤ s.queue.host_read_idx
  pub tested_room :
      (w slot : ℕ) → s.tested w ≡ some slot → slot < s.queue.read_idx + s.queue.queue_size

-- What is delivered depends on the writers of the numbers before the read index.
pub Delivered-cong :
    (f g : ℕ → Writer) (n : ℕ) (es : List QueueElement)
    → ((k : ℕ) → k < n → f k ≡ g k)
    → Delivered f n es
    → Delivered g n es
Delivered-cong f g _ _ same nothing = nothing
Delivered-cong f g _ _ same (one_more n es e d h) =
    one_more n es e (Delivered-cong f g n es (λ k l. same k (omega (arith, l))) d)
      (sym (same n (omega arith)) ∙ h)

module _ (s : System) (inv : Inv s) where
  -- A number with a writer at work is in the window.
  pub at_work : (n : ℕ) → s.writers n ≢ absent → s.queue.host_read_idx ≤ n → InWindow s.queue n
  at_work n busy h = (
    h,
    elim (Bool-cases (ltb n s.queue.write_idx)) [
      | inl lt ↦ omega (arith, ltb→lt _ _ lt, inv.fits, inv.behind)
      | inr ge ↦ absurd (busy (inv.unclaimed n (ground (arith, ge))))
    ],
  )

  -- A thread loads the index of the host.
  pub load-Inv :
      (w : ℕ) → Inv (record s { loaded = update s.loaded w (some s.queue.host_read_idx) })
  load-Inv w = record {
    sized = inv.sized;
    small = inv.small;
    bounded = inv.bounded;
    behind = inv.behind;
    ordered = inv.ordered;
    fits = inv.fits;
    unclaimed = inv.unclaimed;
    marked = inv.marked;
    held = inv.held;
    delivered = inv.delivered;
    loaded_behind = λ v value h. elim (update-cases s.loaded w (some s.queue.host_read_idx) v) [
      | inl (e, k) ↦
          (let q : s.queue.host_read_idx ≡ value = some_injective (sym k ∙ h) in omega (arith, q))
      | inr (n, k) ↦ inv.loaded_behind v value (sym k ∙ h)
    ];
    tested_room = inv.tested_room;
  }

  -- It stores it, where the store does not move the copy back.
  pub store_read_idx-Inv :
      (w value : ℕ)
      → s.loaded w ≡ some value
      → s.queue.read_idx ≤ value
      → Inv (record s { queue = store_read_idx value s.queue; loaded = update s.loaded w none })
  unfolding store_read_idx
  store_read_idx-Inv w value h fresh = record {
    sized = inv.sized;
    small = inv.small;
    bounded = inv.bounded;
    behind = inv.loaded_behind w value h;
    ordered = inv.ordered;
    fits = omega (arith, inv.fits, fresh);
    unclaimed = inv.unclaimed;
    marked = inv.marked;
    held = inv.held;
    delivered = inv.delivered;
    loaded_behind = λ v other k. elim (update-cases s.loaded w none v) [
      | inl (e, l) ↦ absurd (let q = sym l ∙ k in ground (arith, q))
      | inr (n, l) ↦ inv.loaded_behind v other (sym l ∙ k)
    ];
    tested_room = λ v slot k. let r = inv.tested_room v slot k in omega (arith, r, fresh);
  }

  -- A write index of before that is not found to be a round ahead of the copy.
  room_before :
      (slot : ℕ)
      → slot ≤ s.queue.write_idx
      → is_full s.queue.read_idx slot s.queue.queue_size ≡ false
      → slot < s.queue.read_idx + s.queue.queue_size
  room_before slot le f = elim (Bool-cases (ltb slot s.queue.read_idx)) [
    | inl lt ↦ (let l = ltb→lt _ _ lt in omega (arith, l))
    | inr ge ↦
        is_full-lt s.queue.read_idx slot s.queue.queue_size (ground (arith, ge))
          (omega (arith, le, inv.fits)) (omega (arith, le, inv.bounded)) inv.small f
  ]

  pub test-Inv :
      (w slot : ℕ)
      → slot ≤ s.queue.write_idx
      → is_full s.queue.read_idx slot s.queue.queue_size ≡ false
      → Inv (record s { tested = update s.tested w (some slot) })
  test-Inv w slot le f = record {
    sized = inv.sized;
    small = inv.small;
    bounded = inv.bounded;
    behind = inv.behind;
    ordered = inv.ordered;
    fits = inv.fits;
    unclaimed = inv.unclaimed;
    marked = inv.marked;
    held = inv.held;
    delivered = inv.delivered;
    loaded_behind = inv.loaded_behind;
    tested_room = λ v other h. elim (update-cases s.tested w (some slot) v) [
      | inl (e, k) ↦
          (let q : slot ≡ other = some_injective (sym k ∙ h) in
            let r = room_before slot le f in omega (arith, q, r))
      | inr (n, k) ↦ inv.tested_room v other (sym k ∙ h)
    ];
  }

pub Delivered-published :
    (f : ℕ → Writer) (n : ℕ) (es : List QueueElement)
    → Delivered f n es
    → (k : ℕ) → k < n
    → (e : QueueElement) × (f k ≡ published e)
Delivered-published f _ _ nothing k h = absurd (omega (arith, h))
Delivered-published f _ _ (one_more n es e d p) k h = elim (Bool-cases (k == n)) [
  | inl same ↦ (e, (let q : k ≡ n = ground (arith, same) in ap f q ∙ p))
  | inr other ↦ Delivered-published f n es d k (ground (arith, h, other))
]
