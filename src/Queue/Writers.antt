-- ===== src/Queue/Writers.antt =====
-- library/src/reverse_offload/context_ro_device.cpp: the steps of a writer keep the invariant.
use roc_shmem.Common.{
  some_injective, equal, update_elsewhere, update_same, update, update-cases, ℕ, ◌+◌, ◌%◌, ◌^◌, ◌<◌,
  ◌≤◌, ◌≡◌, ◌≢◌, refl, sym, ap, ◌∙◌, subst, Bool, true, ◌==◌, Option, none, some, arith, Bool-cases,
  ltb, ltb→lt, inl, inr,
}
use roc_shmem.Transport.Request.{QueueElement}
use roc_shmem.Queue.{Queue, take_slot, pack, set_valid}
use roc_shmem.Queue.Ring.{Writer, absent, taken, packed, published, System, place_unique}
use roc_shmem.Queue.Invariant.{
  Delivered, is_published, Holds, InWindow, Inv, Delivered-cong, at_work, Delivered-published,
}

-- The change of one writer in the window, to another one that has the number.
module _ (s : System) (inv : Inv s) (n : ℕ) (inside : InWindow s.queue n) (v : Writer) where
  abbrev changed : ℕ → Writer
  changed = update s.writers n v

  unclaimed_after : n < s.queue.write_idx → (k : ℕ) → s.queue.write_idx ≤ k → changed k ≡ absent
  unclaimed_after h k le =
      update_elsewhere s.writers n k v (λ e. omega (arith, e, h, le)) ∙ inv.unclaimed k le

  still-Delivered : Delivered changed s.queue.host_read_idx s.queue.inserted
  still-Delivered =
      Delivered-cong s.writers changed s.queue.host_read_idx s.queue.inserted
        (λ k h. sym (update_elsewhere s.writers n k v (λ e. omega (arith, e, h, inside.0))))
        inv.delivered

  other_place :
      (k : ℕ) → InWindow s.queue k → n ≢ k → (n % s.queue.queue_size) ≢ (k % s.queue.queue_size)
  other_place k w ne e = ne (
      place_unique s.queue.queue_size s.queue.host_read_idx n k inv.sized inside.0 inside.1 w.0 w.1
        e)

  marked_after :
      (valid : ℕ → Bool)
      → valid (n % s.queue.queue_size) ≡ is_published v
      → ((j : ℕ) → (n % s.queue.queue_size) ≢ j → valid j ≡ s.queue.valid j)
      → (k : ℕ) → InWindow s.queue k
      → valid (k % s.queue.queue_size) ≡ is_published (changed k)
  marked_after valid here there k w = elim (Bool-cases (n == k)) [
    | inl same ↦
        (let q : n ≡ k = ground (arith, same) in
          rw same (ap (λ k. valid (k % s.queue.queue_size)) (sym q) ∙ here))
    | inr other ↦
        rw other (
          there (k % s.queue.queue_size) (other_place k w (ground (arith, other))) ∙ inv.marked k w)
  ]

  held_after :
      (elements : ℕ → Option QueueElement)
      → Holds v (elements (n % s.queue.queue_size))
      → ((j : ℕ) → (n % s.queue.queue_size) ≢ j → elements j ≡ s.queue.elements j)
      → (k : ℕ) → InWindow s.queue k
      → Holds (changed k) (elements (k % s.queue.queue_size))
  held_after elements here there k w = elim (Bool-cases (n == k)) [
    | inl same ↦
        (let q : n ≡ k = ground (arith, same) in
          rw same (subst (λ k. Holds v (elements (k % s.queue.queue_size))) q here))
    | inr other ↦ rw other (
        subst (Holds (s.writers k))
          (sym (there (k % s.queue.queue_size) (other_place k w (ground (arith, other)))))
          (inv.held k w))
  ]

module _ (s : System) (inv : Inv s) where
  -- A writer at work has a number that the host has not reached.
  not_reached :
      (n : ℕ) → ((e : QueueElement) → s.writers n ≢ published e) → s.queue.host_read_idx ≤ n
  not_reached n h = elim (Bool-cases (ltb n s.queue.host_read_idx)) [
    | inr ge ↦ ground (arith, ge)
    | inl lt ↦ absurd (
        let (e, p) =
          Delivered-published s.writers s.queue.host_read_idx s.queue.inserted inv.delivered n
            (ltb→lt _ _ lt) in
        h e p)
  ]

  pub claimed : (n : ℕ) → s.writers n ≢ absent → n < s.queue.write_idx
  claimed n busy = elim (Bool-cases (ltb n s.queue.write_idx)) [
    | inl lt ↦ ltb→lt _ _ lt
    | inr ge ↦ absurd (busy (inv.unclaimed n (ground (arith, ge))))
  ]

  pub window :
      (n : ℕ)
      → s.writers n ≢ absent
      → ((e : QueueElement) → s.writers n ≢ published e)
      → InWindow s.queue n
  window n busy early = at_work s inv n busy (not_reached n early)

  numbered :
      (w : ℕ) (e : QueueElement)
      → s.queue.write_idx < s.queue.read_idx + s.queue.queue_size
      → s.queue.write_idx + 1 < 2 ^ 64
      → Inv (record s {
        queue = record s.queue { write_idx = s.queue.write_idx + 1 };
        writers = update s.writers s.queue.write_idx (taken e);
        tested = update s.tested w none;
      })
  numbered w e room below =
      let n = s.queue.write_idx in
      let inside : InWindow s.queue n = (inv.ordered, omega (arith, room, inv.behind)) in
      record {
        sized = inv.sized;
        small = inv.small;
        bounded = below;
        behind = inv.behind;
        ordered = omega (arith, inv.ordered);
        fits = omega (arith, room);
        unclaimed = λ k le.
            update_elsewhere s.writers n k (taken e) (λ q. omega (arith, q, le))
            ∙ inv.unclaimed k (omega (arith, le));
        marked =
            marked_after s inv n inside (taken e) s.queue.valid
              (inv.marked n inside ∙ ap is_published (inv.unclaimed n (omega arith)))
              (λ j ne. refl);
        held = held_after s inv n inside (taken e) s.queue.elements tt (λ j ne. refl);
        delivered = still-Delivered s inv n inside (taken e);
        loaded_behind = inv.loaded_behind;
        tested_room = λ v slot h. elim (update-cases s.tested w none v) [
          | inl (q, k) ↦ absurd (let z = sym k ∙ h in ground (arith, z))
          | inr (q, k) ↦ inv.tested_room v slot (sym k ∙ h)
        ];
      }

  took : (slot : ℕ) (q : Queue) → take_slot slot s.queue ≡ some q → s.queue.write_idx ≡ slot
  unfolding take_slot
  took slot q t = elim (Bool-cases (s.queue.write_idx == slot)) [
    | inl e ↦ ground (arith, e)
    | inr e ↦ absurd (let z = rw e at t in ground (arith, z))
  ]

  take_current-Inv :
      (w : ℕ) (e : QueueElement) (q : Queue)
      → s.queue.write_idx < s.queue.read_idx + s.queue.queue_size
      → s.queue.write_idx + 1 < 2 ^ 64
      → take_slot s.queue.write_idx s.queue ≡ some q
      → Inv (record s {
        queue = q;
        writers = update s.writers s.queue.write_idx (taken e);
        tested = update s.tested w none;
      })
  unfolding take_slot
  take_current-Inv w e q room below t =
      subst
        (λ q. Inv (record s {
          queue = q;
          writers = update s.writers s.queue.write_idx (taken e);
          tested = update s.tested w none;
        }))
        (some_injective (rw (equal s.queue.write_idx) refl ∙ t)) (numbered w e room below)

  pub take_slot-Inv :
      (w slot : ℕ) (e : QueueElement) (q : Queue)
      → s.tested w ≡ some slot
      → slot + 1 < 2 ^ 64
      → take_slot slot s.queue ≡ some q
      → Inv (record s {
        queue = q;
        writers = update s.writers slot (taken e);
        tested = update s.tested w none;
      })
  take_slot-Inv w slot e q h below t =
      subst
        (λ slot.
          slot < s.queue.read_idx + s.queue.queue_size
          → slot + 1 < 2 ^ 64
          → take_slot slot s.queue ≡ some q
          → Inv (record s {
            queue = q;
            writers = update s.writers slot (taken e);
            tested = update s.tested w none;
          }))
        (took slot q t) (take_current-Inv w e q) (inv.tested_room w slot h) below t

  pub pack-Inv :
      (n : ℕ) (e : QueueElement)
      → s.writers n ≡ taken e
      → Inv (record s { queue = pack n e s.queue; writers = update s.writers n (packed e) })
  unfolding pack
  pack-Inv n e w =
      let busy : s.writers n ≢ absent = λ a. cc in
      let inside = window n busy (λ e'. λ p. cc) in
      record {
        sized = inv.sized;
        small = inv.small;
        bounded = inv.bounded;
        behind = inv.behind;
        ordered = inv.ordered;
        fits = inv.fits;
        unclaimed = unclaimed_after s inv n inside (packed e) (claimed n busy);
        marked =
            marked_after s inv n inside (packed e) s.queue.valid
              (inv.marked n inside ∙ ap is_published w) (λ j ne. refl);
        held =
            held_after s inv n inside (packed e)
              (update s.queue.elements (n % s.queue.queue_size) (some e))
              (update_same s.queue.elements (n % s.queue.queue_size) (some e))
              (λ j ne. update_elsewhere s.queue.elements (n % s.queue.queue_size) j (some e) ne);
        delivered = still-Delivered s inv n inside (packed e);
        loaded_behind = inv.loaded_behind;
        tested_room = inv.tested_room;
      }

  pub set_valid-Inv :
      (n : ℕ) (e : QueueElement)
      → s.writers n ≡ packed e
      → Inv (record s { queue = set_valid n s.queue; writers = update s.writers n (published e) })
  unfolding set_valid
  set_valid-Inv n e w =
      let busy : s.writers n ≢ absent = λ a. cc in
      let inside = window n busy (λ e'. λ p. cc) in
      record {
        sized = inv.sized;
        small = inv.small;
        bounded = inv.bounded;
        behind = inv.behind;
        ordered = inv.ordered;
        fits = inv.fits;
        unclaimed = unclaimed_after s inv n inside (published e) (claimed n busy);
        marked =
            marked_after s inv n inside (published e)
              (update s.queue.valid (n % s.queue.queue_size) true)
              (update_same s.queue.valid (n % s.queue.queue_size) true)
              (λ j ne. update_elsewhere s.queue.valid (n % s.queue.queue_size) j true ne);
        held =
            held_after s inv n inside (published e) s.queue.elements
              (subst (λ v. Holds v (s.queue.elements (n % s.queue.queue_size))) w
                (inv.held n inside))
              (λ j ne. refl);
        delivered = still-Delivered s inv n inside (published e);
        loaded_behind = inv.loaded_behind;
        tested_room = inv.tested_room;
      }
