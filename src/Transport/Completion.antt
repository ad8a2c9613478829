-- ===== src/Transport/Completion.antt =====
-- library/src/reverse_offload/mpi_transport.cpp: what a run of `MPITransport::progress` does to the
-- requests, to their counters and to the threads that wait for them.
use roc_shmem.Common.{
  update, ℕ, zero, suc, ◌-◌, ◌<◌, ◌≡◌, refl, sym, ap, ◌∙◌, subst, List, [], ◌∷◌, Bool, true, false,
  if◌then◌else◌, ◌==◌, some, ◌>>=◌, Bool-cases, inl, inr, ◌⊎◌, length, get_elem?, All, arith,
}
use roc_shmem.Common.Int.{ℤ, pos, ◌-ℤ◌, is_zero}
use roc_shmem.Transport.{RequestProperties, State, raise, raise_all, queue_index}
use roc_shmem.Transport.Progress.{complete, notify, release_quiet}
use roc_shmem.Transport.Counting.{one_of}
use roc_shmem.Transport.Invariant.{Queue, queue_index-Queue}

-- In the first loop the counters fall below the counts: `m w` is what the loop has not completed.
pub record Counted (m : ℕ → ℕ) (s : State) : Type 0 where
  pub owned : All (λ r. Queue s.num_queues r.wg_id) s.req_prop_vec
  pub counts : (w : ℕ) → s.outstanding w ≡ pos (m w)
  pub served : (w : ℕ) → m w ≡ 0 → s.waiting_quiet w ≡ []

-- What the first loop leaves alone.
pub record Same (s s' : State) : Type 0 where
  pub queues : s'.num_queues ≡ s.num_queues
  pub requests : s'.req_prop_vec ≡ s.req_prop_vec

pub found_in :
    (P : RequestProperties → Type 0) (rs : List RequestProperties) (i : ℕ)
    → i < length rs
    → All P rs
    → (r : RequestProperties) × (get_elem? rs i ≡ some r) × P r
found_in P [] i h a = absurd (ground (h, arith))
found_in P (x ∷ rs) zero h a = (x, refl, a.0)
found_in P (x ∷ rs) (suc i) h a = found_in P rs i (ground (h, arith)) a.1

-- The state with one request less of the queue `w`.
abbrev pub less : ℕ → State → State
less w s = record s { outstanding = update s.outstanding w (s.outstanding w -ℤ pos 1) }

one_less :
    (outstanding : ℕ → ℤ) (m : ℕ → ℕ) (w u : ℕ)
    → ((u : ℕ) → outstanding u ≡ pos (m u))
    → 0 < m w
    → update outstanding w (outstanding w -ℤ pos 1) u ≡ pos (m u - one_of u (pos w))
one_less outstanding m w u e h = elim (Bool-cases (w == u)) [
  | inl same ↦
      let q : w ≡ u = ground (arith, same) in
      rw (same, e w) (down (m w) h ∙ ap (λ u. pos (m u - 1)) q)
  | inr other ↦ rw (other, e u) (ap pos (omega arith))
]
  where
    down : (n : ℕ) → 0 < n → pos n -ℤ pos 1 ≡ pos (n - 1)
    down n h = ground arith

-- Whether the thread is in the list.
abbrev pub waits : ℕ → List ℕ → Bool
waits t [] = false
waits t (u ∷ us) = if u == t then true else waits t us

-- No status is lowered, and a thread that waited waits on or is told.
pub record Told (s s' : State) : Type 0 where
  pub raised : (w t : ℕ) → s.status w t ≡ true → s'.status w t ≡ true
  pub answered :
      (w t : ℕ)
      → waits t (s.waiting_quiet w) ≡ true
      → (waits t (s'.waiting_quiet w) ≡ true) ⊎ (s'.status w t ≡ true)

self : (n : ℕ) → (n == n) ≡ true
self n = ground arith

raise_keeps : (v u w t : ℕ) (f : ℕ → ℕ → Bool) → f w t ≡ true → raise v u f w t ≡ true
raise_keeps v u w t f e = elim (Bool-cases (v == w)) [
  | inr other ↦ rw other e
  | inl same ↦ rw same (elim (Bool-cases (u == t)) [
    | inl hit ↦ rw hit refl
    | inr miss ↦ rw miss (let q : v ≡ w = ground (arith, same) in ap (λ x. f x t) q ∙ e)
  ])
]

raise_all_keeps :
    (v : ℕ) (us : List ℕ) (w t : ℕ) (f : ℕ → ℕ → Bool) → f w t ≡ true → raise_all v us f w t ≡ true
raise_all_keeps v [] w t f e = e
raise_all_keeps v (u ∷ us) w t f e =
    raise_all_keeps v us w t (raise v u f) (raise_keeps v u w t f e)

raise_all_sets :
    (w t : ℕ) (us : List ℕ) (f : ℕ → ℕ → Bool) → waits t us ≡ true → raise_all w us f w t ≡ true
raise_all_sets w t [] f e = absurd (ground (e, arith))
raise_all_sets w t (u ∷ us) f e = elim (Bool-cases (u == t)) [
  | inl hit ↦ raise_all_keeps w us w t (raise w u f) (rw (self w, hit) refl)
  | inr miss ↦
      raise_all_sets w t us (raise w u f)
        (subst (λ b. (if b then true else waits t us) ≡ true) miss e)
]

notify-Told : (r : RequestProperties) (w : ℕ) (s : State) → Told s (notify r w s)
unfolding notify
notify-Told r w s = record {
  raised = λ v t e. elim (Bool-cases r.blocking) [
    | inl on ↦ rw on (raise_keeps w r.thread_id v t s.status e)
    | inr off ↦ rw off e
  ];
  answered = λ v t e. inl e;
}

release_quiet-Told : (w : ℕ) (s : State) → Told s (release_quiet w s)
unfolding release_quiet
release_quiet-Told w s = elim (Bool-cases (is_zero (s.outstanding w))) [
  | inr busy ↦ rw busy (record { raised = λ v t e. e; answered = λ v t e. inl e })
  | inl idle ↦ rw idle (record {
    raised = λ v t e. raise_all_keeps w (s.waiting_quiet w) v t s.status e;
    answered = λ v t e. elim (Bool-cases (w == v)) [
      | inr other ↦ inl (rw other e)
      | inl same ↦ inr (
          let q : w ≡ v = ground (arith, same) in
          subst (λ v. raise_all w (s.waiting_quiet w) s.status v t ≡ true) q
            (raise_all_sets w t (s.waiting_quiet w) s.status
              (ap (λ v. waits t (s.waiting_quiet v)) q ∙ e)))
    ];
  })
]

pub Told-trans : {a b c : State} → Told a b → Told b c → Told a c
Told-trans {a} {b} {c} f g = record {
  raised = λ w t e. g.raised w t (f.raised w t e);
  answered = λ w t e. elim (f.answered w t e) [
    | inl on ↦ g.answered w t on
    | inr told ↦ inr (g.raised w t told)
  ];
}

raised_here :
    (s : State) (w : ℕ) (r : RequestProperties)
    → r.blocking ≡ true
    → (notify r w s).status w r.thread_id ≡ true
unfolding notify
raised_here s w r b = rw (b, self w, self r.thread_id) refl

module _ (m : ℕ → ℕ) (s : State) (c : Counted m s) where
  pub complete_at :
      (i w : ℕ) (r : RequestProperties)
      → get_elem? s.req_prop_vec i ≡ some r
      → r.wg_id ≡ pos w
      → w < s.num_queues
      → complete i s ≡ some (release_quiet w (notify r w (less w s)))
  unfolding complete
  complete_at i w r found e h =
      let index : queue_index s r.wg_id ≡ some w = ap (queue_index s) e ∙ queue_index-Queue s w h in
      rw found (
        subst
          (λ o.
            (o >>= λ w. some (release_quiet w (notify r w (less w s))))
            ≡ some (release_quiet w (notify r w (less w s))))
          (sym index) refl)

  -- What is left of the counts after one request of the queue `w`.
  unfoldable pub remaining : ℕ → ℕ → ℕ
  remaining w u = m u - one_of u (pos w)

  emptied :
      (w : ℕ) (b : Bool)
      → is_zero (update s.outstanding w (s.outstanding w -ℤ pos 1) w) ≡ b
      → 0 < m w
      → (remaining w w == 0) ≡ b
  unfolding remaining
  emptied w b e h = ap is_zero (sym (one_less s.outstanding m w w c.counts h)) ∙ e

  served_after :
      (w u : ℕ) (b : Bool)
      → (remaining w w == 0) ≡ b
      → remaining w u ≡ 0
      → (if b then update s.waiting_quiet w [] u else s.waiting_quiet u) ≡ []
  unfolding remaining
  served_after w u true e z = elim (Bool-cases (w == u)) [
    | inl same ↦ rw same refl
    | inr other ↦ rw other (c.served u (ground (arith, other, z)))
  ]
  served_after w u false e z = elim (Bool-cases (w == u)) [
    | inl same ↦ absurd (still w u e z (ground (arith, same)))
    | inr other ↦ c.served u (ground (arith, other, z))
  ]
    where
      still : (w u : ℕ) → (remaining w w == 0) ≡ false → remaining w u ≡ 0 → w ≡ u → ⊥
      still w u e z q = let z' : remaining w w ≡ 0 = ap (remaining w) q ∙ z in ground (arith, e, z')

  pub completed :
      (w : ℕ) (r : RequestProperties)
      → 0 < m w
      → Counted (remaining w) (release_quiet w (notify r w (less w s)))
  unfolding release_quiet notify remaining
  completed w r h =
      elim (Bool-cases (is_zero (update s.outstanding w (s.outstanding w -ℤ pos 1) w))) [
        | inl none_left ↦ rw none_left (record {
          owned = c.owned;
          counts = λ u. one_less s.outstanding m w u c.counts h;
          served = λ u z. served_after w u true (emptied w true none_left h) z;
        })
        | inr some_left ↦ rw some_left (record {
          owned = c.owned;
          counts = λ u. one_less s.outstanding m w u c.counts h;
          served = λ u z. served_after w u false (emptied w false some_left h) z;
        })
      ]

  pub unchanged : (w : ℕ) (r : RequestProperties) → Same s (release_quiet w (notify r w (less w s)))
  unfolding release_quiet notify remaining
  unchanged w r =
      elim (Bool-cases (is_zero (update s.outstanding w (s.outstanding w -ℤ pos 1) w))) [
        | inl none_left ↦ rw none_left (record { queues = refl; requests = refl })
        | inr some_left ↦ rw some_left (record { queues = refl; requests = refl })
      ]

  pub told : (w : ℕ) (r : RequestProperties) → Told s (release_quiet w (notify r w (less w s)))
  told w r =
      let counter : Told s (less w s) = record { raised = λ v t e. e; answered = λ v t e. inl e } in
      Told-trans counter
        (Told-trans (notify-Told r w (less w s)) (release_quiet-Told w (notify r w (less w s))))

  -- The thread of a completed blocking request is told.
  pub notified :
      (w : ℕ) (r : RequestProperties)
      → r.blocking ≡ true
      → (release_quiet w (notify r w (less w s))).status w r.thread_id ≡ true
  notified w r b =
      (release_quiet-Told w (notify r w (less w s))).raised w r.thread_id
        (raised_here (less w s) w r b)

  pub held :
      (w u : ℕ) (r : RequestProperties)
      → 0 < m w
      → 0 < remaining w u
      → (release_quiet w (notify r w (less w s))).waiting_quiet u ≡ s.waiting_quiet u
  unfolding release_quiet notify
  held w u r h more =
      elim (Bool-cases (is_zero (update s.outstanding w (s.outstanding w -ℤ pos 1) w))) [
        | inl none_left ↦ rw (none_left, apart (emptied w true none_left h)) refl
        | inr some_left ↦ rw some_left refl
      ]
    where
      apart : (remaining w w == 0) ≡ true → (w == u) ≡ false
      apart z = elim (Bool-cases (w == u)) [
        | inr other ↦ other
        | inl same ↦ absurd (
            let q : w ≡ u = ground (arith, same) in
            let e : remaining w w ≡ 0 = ground (arith, z) in
            let f : remaining w u ≡ 0 = sym (ap (remaining w) q) ∙ e in omega (arith, f, more))
      ]
