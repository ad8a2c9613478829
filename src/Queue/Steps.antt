-- ===== src/Queue/Steps.antt =====
-- library/src/reverse_offload/backend_ro.cpp: the poll of the host keeps the invariant, and so does
-- every step of every thread.
use native.Mathlib.Nat.{add-mod_right}
use roc_shmem.Common.{
  some_injective, equal, update_elsewhere, update, ℕ, ◌+◌, ◌%◌, ◌<◌, ◌≤◌, ◌≡◌, ◌≢◌, refl, sym, ap,
  ◌∙◌, subst, [], ◌∷◌, ◌++◌, Bool, true, false, ◌==◌, Option, some, arith, Bool-cases, inl, inr,
  ◌⊎◌,
}
use roc_shmem.Transport.Request.{QueueElement}
use roc_shmem.Queue.{Queue, ro_net_process_queue}
use roc_shmem.Queue.Ring.{
  Writer, absent, taken, packed, published, System, Step, Fresh, loads, stores, tests, takes, packs,
  publishes, polls, place_unique,
}
use roc_shmem.Queue.Invariant.{
  one_more, is_published, Holds, InWindow, Inv, load-Inv, store_read_idx-Inv, test-Inv,
}
use roc_shmem.Queue.Writers.{claimed, take_slot-Inv, pack-Inv, set_valid-Inv}

module _ (s : System) (inv : Inv s) where
  pub published_by : (w : Writer) → is_published w ≡ true → (e : QueueElement) × (w ≡ published e)
  published_by absent h = absurd (ground (arith, h))
  published_by (taken e) h = absurd (ground (arith, h))
  published_by (packed e) h = absurd (ground (arith, h))
  published_by (published e) h = (e, refl)

  head_inside : InWindow s.queue s.queue.host_read_idx
  head_inside = (omega arith, omega (arith, inv.sized))

  -- The queue without its first element.
  abbrev pub popped : QueueElement → Queue
  popped e = record s.queue {
    inserted = s.queue.inserted ++ e ∷ [];
    valid = update s.queue.valid (s.queue.host_read_idx % s.queue.queue_size) false;
    host_read_idx = s.queue.host_read_idx + 1;
  }

  -- The place of the number that enters the window is the place just read.
  entering :
      (s.queue.host_read_idx + s.queue.queue_size) % s.queue.queue_size
      ≡ s.queue.host_read_idx % s.queue.queue_size
  entering = add-mod_right s.queue.host_read_idx s.queue.queue_size

  new_window :
      (k : ℕ)
      → (s.queue.host_read_idx + 1 ≤ k) × (k < s.queue.host_read_idx + 1 + s.queue.queue_size)
      → (k ≡ s.queue.host_read_idx + s.queue.queue_size)
        ⊎ (InWindow s.queue k × (s.queue.host_read_idx ≢ k))
  new_window k h = elim (Bool-cases (k == s.queue.host_read_idx + s.queue.queue_size)) [
    | inl last ↦ inl (ground (arith, last))
    | inr before ↦
        inr ((omega (arith, h.0), ground (arith, before, h.1)), (λ q. omega (arith, q, h.0)))
  ]

  last_absent : s.writers (s.queue.host_read_idx + s.queue.queue_size) ≡ absent
  last_absent = inv.unclaimed _ (omega (arith, inv.fits, inv.behind))

  -- The valid byte is clear again for the number that enters the window.
  marked_popped :
      (k : ℕ)
      → (s.queue.host_read_idx + 1 ≤ k) × (k < s.queue.host_read_idx + 1 + s.queue.queue_size)
      → update s.queue.valid
          (s.queue.host_read_idx % s.queue.queue_size)
          false
          (k % s.queue.queue_size)
        ≡ is_published (s.writers k)
  marked_popped k h = elim (new_window k h) [
    | inl last ↦
        rw (last, entering, equal (s.queue.host_read_idx % s.queue.queue_size))
          (ap is_published (sym last_absent))
    | inr (w, ne) ↦
        update_elsewhere s.queue.valid (s.queue.host_read_idx % s.queue.queue_size)
          (k % s.queue.queue_size) false
          (λ q. ne (
            place_unique s.queue.queue_size s.queue.host_read_idx s.queue.host_read_idx k inv.sized
              head_inside.0 head_inside.1 w.0 w.1 q))
        ∙ inv.marked k w
  ]

  held_popped :
      (k : ℕ)
      → (s.queue.host_read_idx + 1 ≤ k) × (k < s.queue.host_read_idx + 1 + s.queue.queue_size)
      → Holds (s.writers k) (s.queue.elements (k % s.queue.queue_size))
  held_popped k h = elim (new_window k h) [
    | inl last ↦ rw (last, last_absent) tt
    | inr (w, ne) ↦ inv.held k w
  ]

  pub popped-Inv :
      (e : QueueElement)
      → s.writers s.queue.host_read_idx ≡ published e
      → Inv (record s { queue = popped e })
  popped-Inv e p =
      let n = s.queue.host_read_idx in
      record {
        sized = inv.sized;
        small = inv.small;
        bounded = inv.bounded;
        behind = omega (arith, inv.behind);
        ordered = omega (arith, claimed s inv n (λ a. cc));
        fits = inv.fits;
        unclaimed = inv.unclaimed;
        marked = marked_popped;
        held = held_popped;
        delivered = one_more n s.queue.inserted e inv.delivered p;
        loaded_behind = λ w v h. let l = inv.loaded_behind w v h in omega (arith, l);
        tested_room = inv.tested_room;
      }

  -- What a poll of the host gives.
  unfoldable pub Polled : Option (Bool × Queue) → Type 0
  Polled r =
      ((e : QueueElement) × (s.writers s.queue.host_read_idx ≡ published e)
        × (r ≡ some (true, popped e)))
      ⊎ (((e : QueueElement) → s.writers s.queue.host_read_idx ≢ published e)
          × (r ≡ some (false, s.queue)))

  -- Where the invariant of the queue holds, a poll of the host inserts the element of the next
  -- number and clears its place if the writer of the number has published it, and changes nothing
  -- if the writer has not.
  pub ro_net_process_queue-Polled : Polled (ro_net_process_queue s.queue)
  unfolding Polled ro_net_process_queue
  ro_net_process_queue-Polled =
      elim (Bool-cases (s.queue.valid (s.queue.host_read_idx % s.queue.queue_size))) [
        | inr clear ↦ inr (
          (λ e p. absurd (
              let q =
                sym clear ∙ inv.marked s.queue.host_read_idx head_inside ∙ ap is_published p in
              ground (arith, q))),
          (rw clear refl),
        )
        | inl set ↦
            (let (e, p) =
                published_by (s.writers s.queue.host_read_idx)
                  (sym (inv.marked s.queue.host_read_idx head_inside) ∙ set) in
              let h : s.queue.elements (s.queue.host_read_idx % s.queue.queue_size) ≡ some e =
                subst (λ w. Holds w (s.queue.elements (s.queue.host_read_idx % s.queue.queue_size)))
                  p (inv.held s.queue.host_read_idx head_inside) in
              inl (e, p, rw (set, h) refl))
      ]

  pub poll-Inv :
      (b : Bool) (q : Queue)
      → ro_net_process_queue s.queue ≡ some (b, q)
      → Inv (record s { queue = q })
  unfolding Polled
  poll-Inv b q r = elim ro_net_process_queue-Polled [
    | inl (e, p, k) ↦
        subst (λ q. Inv (record s { queue = q })) (ap (λ x. x.1) (some_injective (sym k ∙ r)))
          (popped-Inv e p)
    | inr (n, k) ↦
        subst (λ q. Inv (record s { queue = q })) (ap (λ x. x.1) (some_injective (sym k ∙ r))) inv
  ]

-- Every step of a thread of the device or of the host, but a store that moves the device's copy
-- of the read index back, keeps the invariant of the queue: the indices are ordered and at most
-- one round apart, an index that a thread has loaded is not past the host's, a write index that a
-- thread has tested is less than a round past the copy, the valid byte of a place is set just
-- where the writer of the number that has the place has published, and the place then holds the
-- writer's element.
pub Step-Inv : (s s' : System) (t : Step s s') → Fresh s s' t → Inv s → Inv s'
unfolding Fresh
Step-Inv _ _ (loads s w n le f) fresh inv = load-Inv s inv w
Step-Inv _ _ (stores s w v h) fresh inv = store_read_idx-Inv s inv w v h fresh
Step-Inv _ _ (tests s w n le f) fresh inv = test-Inv s inv w n le f
Step-Inv _ _ (takes s w n e q h b t) fresh inv = take_slot-Inv s inv w n e q h b t
Step-Inv _ _ (packs s n e w) fresh inv = pack-Inv s inv n e w
Step-Inv _ _ (publishes s n e w) fresh inv = set_valid-Inv s inv n e w
Step-Inv _ _ (polls s b q r) fresh inv = poll-Inv s inv b q r
