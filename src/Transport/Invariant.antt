-- ===== src/Transport/Invariant.antt =====
-- library/src/reverse_offload/mpi_transport.cpp: the invariant of the transport's state, and its
-- preservation by the calls that start requests.
use roc_shmem.Common.{
  update, ℕ, ◌+◌, ◌<◌, ◌≡◌, ◌≢◌, refl, sym, ap, ◌∙◌, subst, List, [], ◌∷◌, ◌++◌, Bool, true, lt→ltb,
  ◌==◌, some, ◌>>=◌, Returns, Returns-map, Bool-cases, inl, inr, ◌⊎◌, All, arith,
}
use roc_shmem.Common.Int.{ℤ, pos, ◌+ℤ◌}
use roc_shmem.Transport.{
  RequestProperties, State, queue_index, init_transport, track_request, quiet,
}
use roc_shmem.Transport.Request.{properties, collective, amo}
use roc_shmem.Transport.Counting.{one_of, count, count-append}

-- The number of a queue that exists.
abbrev pub Queue : ℕ → ℤ → Type 0
Queue n wg = (w : ℕ) × (wg ≡ pos w) × (w < n)

-- Every request is of a queue, each counter is the number of the requests of its queue, and no
-- thread waits for the end of the requests of a queue that has none.
pub record Valid (s : State) : Type 0 where
  pub owned : All (λ r. Queue s.num_queues r.wg_id) s.req_prop_vec
  pub counts : (w : ℕ) → s.outstanding w ≡ pos (count w s.req_prop_vec)
  pub served : (w : ℕ) → count w s.req_prop_vec ≡ 0 → s.waiting_quiet w ≡ []

-- The transport starts with no request.
pub init_transport-Valid : (n : ℕ) → Valid (init_transport n)
unfolding init_transport
init_transport-Valid n = record { owned = tt; counts = λ w. refl; served = λ w e. refl }

All-append :
    (P : RequestProperties → Type 0) (rs : List RequestProperties) (r : RequestProperties)
    → All P rs
    → P r
    → All P (rs ++ r ∷ [])
All-append P [] r a p = (p, tt)
All-append P (x ∷ rs) r a p = (a.0, All-append P rs r a.1 p)

-- The states with the same number of queues that are valid.
abbrev pub Keeps : ℕ → State → Type 0
Keeps n s = (s.num_queues ≡ n) × Valid s

pub queue_index-Queue : (s : State) (w : ℕ) → w < s.num_queues → queue_index s (pos w) ≡ some w
queue_index-Queue s w h = rw (lt→ltb w s.num_queues h) refl

self : (n : ℕ) → (n == n) ≡ true
self n = ground arith

-- One more request of the queue `w`.
one_more :
    (outstanding : ℕ → ℤ) (n w u : ℕ)
    → outstanding u ≡ pos n
    → update outstanding w (outstanding w +ℤ pos 1) u ≡ pos (n + one_of u (pos w))
one_more outstanding n w u e = elim (Bool-cases (w == u)) [
  | inl same ↦ let q : w ≡ u = ground (arith, same) in rw (same, ap outstanding q, e) refl
  | inr other ↦ rw (other, e) (ap pos (omega arith))
]

module _ (s : State) (v : Valid s) where
  followed :
      (r : RequestProperties) (w : ℕ)
      → r.wg_id ≡ pos w
      → w < s.num_queues
      → Valid (record s {
        req_prop_vec = s.req_prop_vec ++ r ∷ [];
        outstanding = update s.outstanding w (s.outstanding w +ℤ pos 1);
      })
  followed r w e h = record {
    owned = All-append (λ r. Queue s.num_queues r.wg_id) s.req_prop_vec r v.owned (w, e, h);
    counts = λ u.
        one_more s.outstanding (count u s.req_prop_vec) w u (v.counts u)
        ∙ ap pos (
            ap (λ z. count u s.req_prop_vec + one_of u z) (sym e)
            ∙ sym (count-append u s.req_prop_vec r));
    served = λ u none_left. v.served u (omega (arith, none_left, count-append u s.req_prop_vec r));
  }

  track_at :
      (r : RequestProperties) (w : ℕ)
      → r.wg_id ≡ pos w
      → w < s.num_queues
      → Returns (Keeps s.num_queues) (track_request r s)
  unfolding track_request
  track_at r w e h =
      let found : queue_index s r.wg_id ≡ some w = ap (queue_index s) e ∙ queue_index-Queue s w h in
      subst
        (λ o. Returns (Keeps s.num_queues) (
          o >>= λ w. some (record s {
            req_prop_vec = s.req_prop_vec ++ r ∷ [];
            outstanding = update s.outstanding w (s.outstanding w +ℤ pos 1);
          })))
        (sym found) (refl, followed r w e h)

  -- A request of an existing queue is followed and counted.
  pub track_request-Valid :
      (r : RequestProperties)
      → Queue s.num_queues r.wg_id
      → Returns (Keeps s.num_queues) (track_request r s)
  track_request-Valid r (w, e, h) = track_at r w e h

  joins :
      (w thread : ℕ)
      → count w s.req_prop_vec ≢ 0
      → Valid
          (record s { waiting_quiet = update s.waiting_quiet w (s.waiting_quiet w ++ thread ∷ []) })
  joins w thread busy = record {
    owned = v.owned;
    counts = v.counts;
    served = λ u none_left. elim (Bool-cases (w == u)) [
      | inl same ↦ absurd (
          busy (
            let q : w ≡ u = ground (arith, same) in ap (λ u. count u s.req_prop_vec) q ∙ none_left))
      | inr other ↦ rw other (v.served u none_left)
    ];
  }

  -- What `quiet` does: the thread's status is raised where its queue has no request left, and the
  -- thread waits where it has.
  pub Answered : ℕ → ℕ → State → Type 0
  Answered w thread s' =
      ((count w s.req_prop_vec ≡ 0)
        × (s'.status w thread ≡ true)
        × (s'.waiting_quiet w ≡ s.waiting_quiet w))
      ⊎ ((count w s.req_prop_vec ≢ 0)
          × (s'.status w thread ≡ s.status w thread)
          × (s'.waiting_quiet w ≡ s.waiting_quiet w ++ thread ∷ []))

  -- From a valid state, `quiet` on an existing queue keeps the state valid; it raises the status
  -- of the thread where the queue has no request left, and otherwise leaves the status alone and
  -- has the thread wait.
  pub quiet-Answered :
      (w thread : ℕ)
      → w < s.num_queues
      → Returns (λ s'. (Keeps s.num_queues s') × Answered w thread s') (quiet (pos w) thread s)
  unfolding quiet Answered
  quiet-Answered w thread h = elim (Bool-cases (count w s.req_prop_vec == 0)) [
    | inl idle ↦
        rw (lt→ltb w s.num_queues h, v.counts w, idle)
          (
            (refl, record { owned = v.owned; counts = v.counts; served = v.served }),
            inl (ground (arith, idle), rw (self w, self thread) refl, refl),
          )
    | inr busy ↦
        rw (lt→ltb w s.num_queues h, v.counts w, busy)
          (
            (refl, joins w thread (ground (arith, busy))),
            inr (ground (arith, busy), refl, rw (self w) refl),
          )
  ]

  pub quiet-Valid :
      (wg : ℤ) (thread : ℕ)
      → Queue s.num_queues wg
      → Returns (Keeps s.num_queues) (quiet wg thread s)
  quiet-Valid wg thread (w, e, h) =
      subst (λ x. Returns (Keeps s.num_queues) (quiet x thread s)) (sym e)
        (Returns-map (λ s'. Keeps s.num_queues s' × Answered w thread s') (Keeps s.num_queues)
          (quiet (pos w) thread s) (λ s' k. k.0) (quiet-Answered w thread h))

  pub collective-Valid :
      (wg : ℤ) (thread : ℕ) (blocking : Bool)
      → Queue s.num_queues wg
      → Returns (Keeps s.num_queues) (collective wg thread blocking s)
  unfolding collective
  collective-Valid wg thread blocking h = track_request-Valid (properties thread wg blocking) h

  pub amo-Valid :
      (wg : ℤ) (thread : ℕ) → Queue s.num_queues wg → Returns (Keeps s.num_queues) (amo wg thread s)
  unfolding amo
  amo-Valid wg thread (w, e, h) =
      rw (e, lt→ltb w s.num_queues h)
        (refl, record { owned = v.owned; counts = v.counts; served = v.served })
