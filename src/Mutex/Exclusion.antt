-- ===== src/Mutex/Exclusion.antt =====
-- library/src/device_mutex.cpp: only wavefronts of one work-group are in the mutex.
use roc_shmem.Common.{
  ℕ, zero, suc, ◌+◌, ◌-◌, ◌<◌, ◌≡◌, ◌≢◌, refl, sym, ap, ◌∙◌, arith, ◌⊎◌, inl, inr, Bool, true,
  false, ◌==◌, Option, none, some, update, update-cases, update_elsewhere, some_injective,
}
use roc_shmem.Mutex.{
  Phase, outside, trying, checking, inside, returning, leaving, System, leave, Step, locks, takes,
  enters, owns, waits, unlocks, retakes, leaves, Reach, starts, steps,
}
use roc_shmem.Mutex.Counting.{counted, total, total-update, counted_below}

-- In the mutex, and with `ctx_lock_`.
abbrev pub is_in : Phase → Bool
is_in outside = false
is_in trying = false
is_in checking = false
is_in inside = true
is_in returning = true
is_in leaving = true

abbrev has_lock : Phase → Bool
has_lock outside = false
has_lock trying = false
has_lock checking = true
has_lock inside = false
has_lock returning = false
has_lock leaving = true

is_in-counted : (n : ℕ) (ph : Phase) → is_in ph ≡ true → counted n ph ≡ n
is_in-counted n outside h = absurd (ground (arith, h))
is_in-counted n trying h = absurd (ground (arith, h))
is_in-counted n checking h = absurd (ground (arith, h))
is_in-counted n inside h = refl
is_in-counted n returning h = refl
is_in-counted n leaving h = refl

module _ (waves : ℕ) (wg lanes : ℕ → ℕ) where
  pub record Inv (s : System) : Type 0 where
    pub owner : (w : ℕ) → w < waves → is_in (s.phases w) ≡ true → s.wg_owner ≡ some (wg w)
    locked : (w : ℕ) → w < waves → has_lock (s.phases w) ≡ true → s.ctx_lock ≡ true
    single :
        (w v : ℕ)
        → w < waves
        → v < waves
        → has_lock (s.phases w) ≡ true
        → has_lock (s.phases v) ≡ true
        → w ≡ v
    pub number : s.num_threads_in_lock ≡ total lanes waves s.phases

  module _ (s : System) (inv : Inv s) (w : ℕ) (below : w < waves) (was ph : Phase)
      (at : s.phases w ≡ was) where
    -- A step of one wavefront, by what it does to the fields.
    moved-Inv :
        (lock' : Bool) (owner' : Option ℕ) (num' : ℕ)
        → num' + counted (lanes w) was ≡ s.num_threads_in_lock + counted (lanes w) ph
        → ((v : ℕ) → v < waves → w ≢ v → is_in (s.phases v) ≡ true → owner' ≡ some (wg v))
        → (is_in ph ≡ true → owner' ≡ some (wg w))
        → ((v : ℕ)
            → v < waves
            → w ≢ v
            → has_lock (s.phases v) ≡ true
            → (lock' ≡ true) × (has_lock ph ≡ false))
        → (has_lock ph ≡ true → lock' ≡ true)
        → Inv (record {
          ctx_lock = lock';
          wg_owner = owner';
          num_threads_in_lock = num';
          phases = update s.phases w ph;
        })
    moved-Inv lock' owner' num' n others own holders mine = record {
      owner = λ v l h. elim (update-cases s.phases w ph v) [
        | inl (e, k) ↦ own (ap is_in (sym k) ∙ h) ∙ ap (λ x. some (wg x)) e
        | inr (d, k) ↦ others v l d (ap is_in (sym k) ∙ h)
      ];
      locked = λ v l h. elim (update-cases s.phases w ph v) [
        | inl (e, k) ↦ mine (ap has_lock (sym k) ∙ h)
        | inr (d, k) ↦ (holders v l d (ap has_lock (sym k) ∙ h)).0
      ];
      single = λ v u l m h g. elim (update-cases s.phases w ph v) [
        | inl (e, k) ↦ elim (update-cases s.phases w ph u) [
          | inl (f, j) ↦ sym e ∙ f
          | inr (d, j) ↦
              absurd (clash (holders u m d (ap has_lock (sym j) ∙ g)).1 (ap has_lock (sym k) ∙ h))
        ]
        | inr (d, k) ↦ elim (update-cases s.phases w ph u) [
          | inl (f, j) ↦
              absurd (clash (holders v l d (ap has_lock (sym k) ∙ h)).1 (ap has_lock (sym j) ∙ g))
          | inr (c, j) ↦ inv.single v u l m (ap has_lock (sym k) ∙ h) (ap has_lock (sym j) ∙ g)
        ]
      ];
      number =
          let t = total-update lanes waves s.phases w ph below in
          let a = ap (counted (lanes w)) at in omega (arith, t, a, n, inv.number);
    }
      where
        clash : has_lock ph ≡ false → has_lock ph ≡ true → ⊥
        clash a b = ground (arith, a, b)

    -- The others keep the owner, and `ctx_lock_`.
    keep_owner : (v : ℕ) → v < waves → w ≢ v → is_in (s.phases v) ≡ true → s.wg_owner ≡ some (wg v)
    keep_owner v l d h = inv.owner v l h

    -- No other has `ctx_lock_` where this one has it, or nobody does.
    none_else :
        (has_lock was ≡ true) ⊎ (s.ctx_lock ≡ false)
        → (v : ℕ) → v < waves
        → w ≢ v
        → has_lock (s.phases v) ≡ true
        → ⊥
    none_else (inl h) v l d g = d (inv.single w v below l (ap has_lock at ∙ h) g)
    none_else (inr h) v l d g = let q = sym h ∙ inv.locked v l g in ground (arith, q)

  module _ (some_lane : (w : ℕ) → w < waves → 0 < lanes w) (s : System) (inv : Inv s) (w : ℕ)
      (below : w < waves) where
    owns-Inv : s.wg_owner ≡ none → Inv (record s { wg_owner = some (wg w) })
    owns-Inv free = record {
      owner = λ v l h. absurd (let q = sym free ∙ inv.owner v l h in ground (arith, q));
      locked = inv.locked;
      single = inv.single;
      number = inv.number;
    }

    -- The last one out gives the owner up.
    leaves-Inv : s.phases w ≡ leaving → Inv (leave w (lanes w) s)
    leaves-Inv at =
        let all = counted_below lanes waves s.phases w below in
        let mine = ap (counted (lanes w)) at in
        let t = total-update lanes waves s.phases w outside below in
        moved-Inv s inv w below leaving outside at false _ _ (omega (arith, all, mine, inv.number))
          (λ v l d h.
            let other = counted_below lanes waves (update s.phases w outside) v l in
            let n = is_in-counted (lanes v) (s.phases v) h in
            let kept : update s.phases w outside v ≡ s.phases v =
              update_elsewhere s.phases w v outside d in
            let a = ap (counted (lanes v)) kept in
            let more : (s.num_threads_in_lock - lanes w == 0) ≡ false =
              (let z : 0 < s.num_threads_in_lock - lanes w =
                  omega (arith, other, n, a, t, mine, inv.number, some_lane v l) in
                ground (arith, z)) in
            rw more (inv.owner v l h))
          (λ h. absurd (ground (arith, h)))
          (λ v l d h. absurd (none_else s inv w below leaving outside at (inl refl) v l d h))
          (λ h. absurd (ground (arith, h)))

  Step-Inv :
      ((w : ℕ) → w < waves → 0 < lanes w)
      → (s s' : System) → Step waves wg lanes s s'
      → Inv s
      → Inv s'
  Step-Inv some_lane _ _ (locks s w l at) inv =
      moved-Inv s inv w l outside trying at _ _ _ refl (keep_owner s inv w l outside trying at)
        (λ h. absurd (ground (arith, h))) (λ v m d h. (inv.locked v m h, refl))
        (λ h. absurd (ground (arith, h)))
  Step-Inv some_lane _ _ (takes s w l at free) inv =
      moved-Inv s inv w l trying checking at _ _ _ refl (keep_owner s inv w l trying checking at)
        (λ h. absurd (ground (arith, h)))
        (λ v m d h. absurd (none_else s inv w l trying checking at (inr free) v m d h)) (λ h. refl)
  Step-Inv some_lane _ _ (enters s w l at mine) inv =
      moved-Inv s inv w l checking inside at _ _ _ (omega arith)
        (keep_owner s inv w l checking inside at) (λ h. mine)
        (λ v m d h. absurd (none_else s inv w l checking inside at (inl refl) v m d h))
        (λ h. absurd (ground (arith, h)))
  Step-Inv some_lane _ _ (owns s w l at free) inv = owns-Inv some_lane s inv w l free
  Step-Inv some_lane _ _ (waits s w g l at other n) inv =
      moved-Inv s inv w l checking trying at _ _ _ refl (keep_owner s inv w l checking trying at)
        (λ h. absurd (ground (arith, h)))
        (λ v m d h. absurd (none_else s inv w l checking trying at (inl refl) v m d h))
        (λ h. absurd (ground (arith, h)))
  Step-Inv some_lane _ _ (unlocks s w l at) inv =
      moved-Inv s inv w l inside returning at _ _ _ refl (keep_owner s inv w l inside returning at)
        (λ h. inv.owner w l (ap is_in at)) (λ v m d h. (inv.locked v m h, refl))
        (λ h. absurd (ground (arith, h)))
  Step-Inv some_lane _ _ (retakes s w l at free) inv =
      moved-Inv s inv w l returning leaving at _ _ _ refl
        (keep_owner s inv w l returning leaving at) (λ h. inv.owner w l (ap is_in at))
        (λ v m d h. absurd (none_else s inv w l returning leaving at (inr free) v m d h))
        (λ h. refl)
  Step-Inv some_lane _ _ (leaves s w l at) inv = leaves-Inv some_lane s inv w l at

  Reach-Inv : ((w : ℕ) → w < waves → 0 < lanes w) → (s : System) → Reach waves wg lanes s → Inv s
  Reach-Inv some_lane _ (starts s free none' zero' out) = record {
    owner = λ w l h. absurd (let q = ap is_in (sym (out w)) ∙ h in ground (arith, q));
    locked = λ w l h. absurd (let q = ap has_lock (sym (out w)) ∙ h in ground (arith, q));
    single = λ w v l m h g. absurd (let q = ap has_lock (sym (out w)) ∙ h in ground (arith, q));
    number = zero' ∙ sym (nothing_counted waves s.phases out);
  }
    where
      nothing_counted :
          (n : ℕ) (phases : ℕ → Phase) → ((w : ℕ) → phases w ≡ outside) → total lanes n phases ≡ 0
      nothing_counted zero phases h = refl
      nothing_counted (suc n) phases h =
          let a = ap (counted (lanes n)) (h n) in
          let b = nothing_counted n phases h in omega (arith, a, b)
  Reach-Inv some_lane _ (steps s s' r st) = Step-Inv some_lane s s' st (Reach-Inv some_lane s r)

  -- In every interleaving of wavefronts with a lane or more on a shared mutex, all wavefronts
  -- that are in it are of one work-group, and `num_threads_in_lock_` is the sum of their lanes.
  pub Reach-Exclusive :
      ((w : ℕ) → w < waves → 0 < lanes w)
      → (s : System) → Reach waves wg lanes s
      → ((w v : ℕ)
          → w < waves
          → v < waves
          → is_in (s.phases w) ≡ true
          → is_in (s.phases v) ≡ true
          → wg w ≡ wg v)
        × (s.num_threads_in_lock ≡ total lanes waves s.phases)
  Reach-Exclusive some_lane s reached =
      let inv = Reach-Inv some_lane s reached in
      (λ w v l m h g. some_injective (sym (inv.owner w l h) ∙ inv.owner v m g), inv.number)
