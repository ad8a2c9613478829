-- ===== src/Device/Replies.antt =====
-- library/src/reverse_offload/context_ro_device.cpp, mpi_transport.cpp: a thread that waits for its
-- command is answered.
use roc_shmem.Common.{
  update, assert, ◌>>◌, ℕ, ◌<◌, ◌≡◌, ◌≢◌, refl, sym, ap, ◌∙◌, subst, List, [], ◌∷◌, ◌++◌, Bool,
  true, false, not, if◌then◌else◌, lt→ltb, leb, ◌&&◌, ◌||◌, ◌==◌, Option, some, ◌>>=◌, Returns,
  Returns-bind, Bool-cases, inl, inr, ◌⊎◌, arith,
}
use roc_shmem.Common.Int.{pos, ◌+ℤ◌, ◌*ℤ◌, ltb_ℤ}
use roc_shmem.Transport.{RequestProperties, State, raise, queue_index, track_request}
use roc_shmem.Transport.Request.{
  RoNetCmds, ro_net_put, ro_net_p, ro_net_get, ro_net_put_nbi, ro_net_get_nbi, ro_net_amo_fop,
  ro_net_amo_fcas, ro_net_fence, ro_net_quiet, ro_net_finalize, ro_net_to_all, ro_net_team_to_all,
  ro_net_sync, ro_net_barrier_all, ro_net_broadcast, ro_net_team_broadcast, ro_net_alltoall,
  ro_net_fcollect, QueueElement, Environment, properties, collective, put_mem, get_mem, amo, gcen,
  clusters_fit, alltoall, fcollect, perform, amo_fop, reduction, team_reduction, broadcast,
  team_broadcast, wrap,
}
use roc_shmem.Transport.Completion.{waits}
use roc_shmem.Transport.Counting.{count}
use roc_shmem.Transport.Invariant.{Valid}
use roc_shmem.Transport.Commands.{
  KnownType, Small, Permitted, get_mpi_op-lt, convert_type-KnownType, gcen_fits, checked,
}
use roc_shmem.Device.Answers.{awaited, Suits, run-Suits}
use roc_shmem.Device.{
  Context, Outcome, copies, atomic, sends, nothing, putmem, getmem, putmem_nbi, getmem_nbi,
  putmem_wg, getmem_wg, putmem_nbi_wg, getmem_nbi_wg, putmem_wave, getmem_wave, putmem_nbi_wave,
  getmem_nbi_wave, fence, quiet, barrier_all, sync_all, sync, amo_fetch_cas, amo_fetch_add, put,
  get, put_nbi, get_nbi, put_wg, get_wg, put_nbi_wg, get_nbi_wg, put_wave, get_wave, put_nbi_wave,
  get_nbi_wave, transfer, Call, moves, fences, quiets, barriers, syncs_all, syncs, fetch_cas,
  fetch_add, run,
}

-- The thread of the queue is told, or the last request that the transport follows is a blocking
-- one of the thread, or the thread waits for the end of the requests of its queue, which has some.
abbrev pub Answerable : ℕ → ℕ → State → Type 0
Answerable w t s =
    (s.status w t ≡ true)
    ⊎ (((rs : List RequestProperties) × (r : RequestProperties) × (s.req_prop_vec ≡ rs ++ r ∷ [])
          × (r.blocking ≡ true)
          × (r.thread_id ≡ t)
          × (r.wg_id ≡ pos w))
        ⊎ ((waits t (s.waiting_quiet w) ≡ true) × (count w s.req_prop_vec ≢ 0)))

waits-append : (t : ℕ) (us : List ℕ) → waits t (us ++ t ∷ []) ≡ true
waits-append t [] = ground arith
waits-append t (u ∷ us) = rw (waits-append t us) (ground arith)

self : (n : ℕ) → (n == n) ≡ true
self n = ground arith

module _ (w : ℕ) (s : State) (h : w < s.num_queues) where
  tracked :
      (r : RequestProperties)
      → r.blocking ≡ true
      → r.wg_id ≡ pos w
      → Returns (Answerable w r.thread_id) (track_request r s)
  unfolding track_request
  tracked r b e =
      let found : queue_index s r.wg_id ≡ some w =
        ap (queue_index s) e ∙ rw (lt→ltb w s.num_queues h) refl in
      subst
        (λ o. Returns (Answerable w r.thread_id) (
          o >>= λ w. some (record s {
            req_prop_vec = s.req_prop_vec ++ r ∷ [];
            outstanding = update s.outstanding w (s.outstanding w +ℤ pos 1);
          })))
        (sym found) (inr (inl (s.req_prop_vec, r, refl, b, refl, e)))

  quieted : Valid s → (t : ℕ) → Returns (Answerable w t) (roc_shmem.Transport.quiet (pos w) t s)
  unfolding roc_shmem.Transport.quiet
  quieted v t = elim (Bool-cases (count w s.req_prop_vec == 0)) [
    | inl idle ↦ rw (lt→ltb w s.num_queues h, v.counts w, idle) (inl (rw (self w, self t) refl))
    | inr busy ↦
        rw (lt→ltb w s.num_queues h, v.counts w, busy)
          (inr (
            inr (rw (self w) (waits-append t (s.waiting_quiet w)), (λ z. ground (arith, busy, z)))))
  ]

  atomically : (t : ℕ) → Returns (Answerable w t) (amo (pos w) t s)
  unfolding amo
  atomically t = rw (lt→ltb w s.num_queues h) (inl (rw (self w, self t) refl))

  collected : (t : ℕ) → Returns (Answerable w t) (collective (pos w) t true s)
  unfolding collective
  collected t = tracked (properties t (pos w) true) refl refl

  queues_kept :
      (r : RequestProperties)
      → r.wg_id ≡ pos w
      → Returns (λ s'. s'.num_queues ≡ s.num_queues) (track_request r s)
  unfolding track_request
  queues_kept r e =
      let found : queue_index s r.wg_id ≡ some w =
        ap (queue_index s) e ∙ rw (lt→ltb w s.num_queues h) refl in
      subst
        (λ o.
          Returns (λ s'. s'.num_queues ≡ s.num_queues)
            (o >>= λ w. some (record s {
              req_prop_vec = s.req_prop_vec ++ r ∷ [];
              outstanding = update s.outstanding w (s.outstanding w +ℤ pos 1);
            })))
        (sym found) refl

either :
    (P : State → Type 0) (b : Bool) (x y : Option State)
    → Returns P x
    → Returns P y
    → Returns P (if b then x else y)
either P true x y h k = h
either P false x y h k = k

module _ (w : ℕ) (s : State) (v : Valid s) (h : w < s.num_queues) (e : Environment)
    (q : QueueElement) where
  abbrev P : State → Type 0
  P = Answerable w q.thread_id

  gathered : Small e q → Returns P (gcen e q (pos w) true s)
  unfolding gcen collective
  gathered small = checked P _ _ (gcen_fits e q small) (
      Returns-bind (λ s'. s'.num_queues ≡ s.num_queues) P
        (track_request (properties q.thread_id (pos w) false) s)
        (collective (pos w) q.thread_id true)
        (queues_kept w s h (properties q.thread_id (pos w) false) refl)
        (λ s' e. collected w s' (subst (λ n. w < n) (sym e) h) q.thread_id))

  all_to_all : KnownType q × Small e q → Returns P (alltoall e q (pos w) true s)
  unfolding alltoall
  all_to_all (known, small) = checked P _ _ (convert_type-KnownType q known) (
      either P
        ((leb 8 (e.comm_size q.team_comm)
            || ltb_ℤ (wrap (pos (e.type_size q.datatype) *ℤ q.size)) (pos 2048))
          && clusters_fit e (e.comm_size q.team_comm))
        _ _ (gathered small)
        (either P (not (ltb_ℤ (pos 512) q.size)) _ _ (quieted w s h v q.thread_id)
          (collected w s h q.thread_id)))

  all_gathered : KnownType q × Small e q → Returns P (fcollect e q (pos w) true s)
  unfolding fcollect
  all_gathered (known, small) = checked P _ _ (convert_type-KnownType q known) (
      either P (not (ltb_ℤ (pos 512) q.size)) _ _ (quieted w s h v q.thread_id) (
        either P (clusters_fit e (e.comm_size q.team_comm)) _ _ (gathered small)
          (collected w s h q.thread_id)))

  collects : (b : Bool) → b ≡ true → Returns P (assert b >> collective (pos w) q.thread_id true s)
  collects b f = checked P b _ f (collected w s h q.thread_id)

  -- The transport answers the thread of every awaited command of an existing queue that it is
  -- permitted: it tells the thread at once, or follows a blocking request of it, or has it wait
  -- for its queue.
  pub perform-Answerable :
      (c : RoNetCmds) → awaited c ≡ true → Permitted e q c → Returns P (perform c e q (pos w) s)
  unfolding perform put_mem get_mem amo_fop reduction team_reduction broadcast team_broadcast
  perform-Answerable ro_net_put a p = tracked w s h _ refl refl
  perform-Answerable ro_net_p a p = tracked w s h _ refl refl
  perform-Answerable ro_net_get a p = tracked w s h _ refl refl
  perform-Answerable ro_net_put_nbi a p = absurd (ground (a, arith))
  perform-Answerable ro_net_get_nbi a p = absurd (ground (a, arith))
  perform-Answerable ro_net_amo_fop a p =
      checked P _ _ (get_mpi_op-lt q.op p) (atomically w s h q.thread_id)
  perform-Answerable ro_net_amo_fcas a p = atomically w s h q.thread_id
  perform-Answerable ro_net_fence a p = quieted w s h v q.thread_id
  perform-Answerable ro_net_quiet a p = quieted w s h v q.thread_id
  perform-Answerable ro_net_finalize a p = quieted w s h v q.thread_id
  perform-Answerable ro_net_to_all a (o, t, m) =
      collects _ (rw (get_mpi_op-lt q.op o, convert_type-KnownType q t, m) refl)
  perform-Answerable ro_net_team_to_all a (o, t) =
      collects _ (rw (get_mpi_op-lt q.op o, convert_type-KnownType q t) refl)
  perform-Answerable ro_net_sync a p = collected w s h q.thread_id
  perform-Answerable ro_net_barrier_all a p = collected w s h q.thread_id
  perform-Answerable ro_net_broadcast a (t, m) =
      collects _ (rw (m, convert_type-KnownType q t) refl)
  perform-Answerable ro_net_team_broadcast a t = collects _ (convert_type-KnownType q t)
  perform-Answerable ro_net_alltoall a p = all_to_all p
  perform-Answerable ro_net_fcollect a p = all_gathered p

-- What a call sends needs nothing of MPI that it has not.
abbrev Sendable : Environment → Outcome → Type 0
Sendable e (sends q blocking) = Permitted e q q.type
Sendable e (copies dst src size) = Unit
Sendable e (atomic address) = Unit
Sendable e nothing = Unit

if-Sendable :
    (e : Environment) (b : Bool) (x y : Outcome)
    → Sendable e x
    → Sendable e y
    → Sendable e (if b then x else y)
if-Sendable e true x y h k = h
if-Sendable e false x y h k = k

-- The three ways of a transfer: through shared memory, with a command, or not at all.
three_ways :
    (e : Environment) (near sending : Bool) (x y z : Outcome)
    → Sendable e x
    → Sendable e y
    → Sendable e z
    → Sendable e (if near then x else if sending then y else z)
three_ways e near sending x y z f g h = if-Sendable e near _ _ f (if-Sendable e sending y z g h)

run-Sendable : (e : Environment) (c : Context) (call : Call) → Sendable e (run c call)
unfolding run transfer fence quiet barrier_all sync_all sync amo_fetch_cas amo_fetch_add putmem
    getmem putmem_nbi getmem_nbi putmem_wg getmem_wg putmem_nbi_wg getmem_nbi_wg putmem_wave
    getmem_wave putmem_nbi_wave getmem_nbi_wave
run-Sendable e c (moves put dest source nelems pe) =
    three_ways e (c.is_ipc_available pe) c.must_send_message _ _ _ tt tt tt
run-Sendable e c (moves get dest source nelems pe) =
    three_ways e (c.is_ipc_available pe) c.must_send_message _ _ _ tt tt tt
run-Sendable e c (moves put_nbi dest source nelems pe) =
    three_ways e (c.is_ipc_available pe) c.must_send_message _ _ _ tt tt tt
run-Sendable e c (moves get_nbi dest source nelems pe) =
    three_ways e (c.is_ipc_available pe) c.must_send_message _ _ _ tt tt tt
run-Sendable e c (moves put_wg dest source nelems pe) =
    three_ways e (c.is_ipc_available pe) c.is_thread_zero_in_block _ _ _ tt tt tt
run-Sendable e c (moves get_wg dest source nelems pe) =
    three_ways e (c.is_ipc_available pe) c.is_thread_zero_in_block _ _ _ tt tt tt
run-Sendable e c (moves put_nbi_wg dest source nelems pe) =
    three_ways e (c.is_ipc_available pe) c.is_thread_zero_in_block _ _ _ tt tt tt
run-Sendable e c (moves get_nbi_wg dest source nelems pe) =
    three_ways e (c.is_ipc_available pe) c.is_thread_zero_in_block _ _ _ tt tt tt
run-Sendable e c (moves put_wave dest source nelems pe) =
    three_ways e (c.is_ipc_available pe) c.is_thread_zero_in_wave _ _ _ tt tt tt
run-Sendable e c (moves get_wave dest source nelems pe) =
    three_ways e (c.is_ipc_available pe) c.is_thread_zero_in_wave _ _ _ tt tt tt
run-Sendable e c (moves put_nbi_wave dest source nelems pe) =
    three_ways e (c.is_ipc_available pe) c.is_thread_zero_in_wave _ _ _ tt tt tt
run-Sendable e c (moves get_nbi_wave dest source nelems pe) =
    three_ways e (c.is_ipc_available pe) c.is_thread_zero_in_wave _ _ _ tt tt tt
run-Sendable e c fences = tt
run-Sendable e c quiets = tt
run-Sendable e c barriers = if-Sendable e c.is_thread_zero_in_block _ _ tt tt
run-Sendable e c syncs_all = if-Sendable e c.is_thread_zero_in_block _ _ tt tt
run-Sendable e c (syncs mpi_comm) = if-Sendable e c.is_thread_zero_in_block _ _ tt tt
run-Sendable e c (fetch_cas dst value cond pe) = if-Sendable e (c.is_ipc_available pe) _ _ tt tt
run-Sendable e c (fetch_add dst value pe) =
    if-Sendable e (c.is_ipc_available pe) _ _ tt (omega arith)

-- When the transport, in a valid state, performs a command that a blocking call of a thread has
-- sent on an existing queue, the command is performed and the thread is answered: it is told at
-- once, or the last request that is followed is a blocking one of the thread, or it waits for the
-- end of the requests of its queue, and the queue has some.
pub run-perform :
    (c : Context) (call : Call) (q : QueueElement) (e : Environment) (w : ℕ) (s : State)
    → Valid s
    → w < s.num_queues
    → run c call ≡ sends q true
    → Returns (Answerable w c.thread_id) (perform q.type e q (pos w) s)
run-perform c call q e w s v h r =
    let suits : Suits c (sends q true) = subst (Suits c) r (run-Suits c call) in
    let permitted : Permitted e q q.type = subst (Sendable e) r (run-Sendable e c call) in
    subst (λ t. Returns (Answerable w t) (perform q.type e q (pos w) s)) suits.1
      (perform-Answerable w s v h e q q.type (sym suits.0) permitted)
