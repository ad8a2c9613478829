-- ===== src/Transport/Commands.antt =====
-- library/src/reverse_offload/mpi_transport.cpp: the commands that the transport performs keep its
-- state valid.
use roc_shmem.Common.{
  not, assert, ◌>>◌, ℕ, ◌*◌, ◌≤◌, ◌<◌, ◌≡◌, ◌≢◌, refl, sym, ◌∙◌, subst, Bool, true, false,
  if◌then◌else◌, leb, ◌&&◌, ◌||◌, Option, ◌>>=◌, Returns, Returns-bind, Returns-map, arith,
}
use roc_shmem.Common.Int.{◌*ℤ◌, ltb_ℤ, ℤ, pos}
use roc_shmem.Transport.{State}
use roc_shmem.Transport.Request.{
  RoNetCmds, ro_net_put, ro_net_p, ro_net_get, ro_net_put_nbi, ro_net_get_nbi, ro_net_amo_fop,
  ro_net_amo_fcas, ro_net_fence, ro_net_quiet, ro_net_finalize, ro_net_to_all, ro_net_team_to_all,
  ro_net_sync, ro_net_barrier_all, ro_net_broadcast, ro_net_team_broadcast, ro_net_alltoall,
  ro_net_fcollect, QueueElement, Environment, collective, put_mem, get_mem, gcen, clusters_fit,
  alltoall, fcollect, perform, amo_fop, reduction, team_reduction, broadcast, team_broadcast,
  get_mpi_op, convert_type, max_ata_buff_size, wrap,
}
use roc_shmem.Transport.Invariant.{
  Queue, Valid, Keeps, track_request-Valid, quiet-Valid, collective-Valid, amo-Valid,
}

branch :
    {A : Type 0} (P : A → Type 0) (b : Bool) (x y : Option A)
    → Returns P x
    → Returns P y
    → Returns P (if b then x else y)
branch P true x y h k = h
branch P false x y h k = k

-- What a command needs of MPI: an operation and a type that MPI has, a buffer that is large enough
-- for a collective over clusters, and the communicators.
abbrev pub KnownType : QueueElement → Type 0
KnownType q = (q.datatype < 8) × (q.datatype ≢ 1)

abbrev pub Small : Environment → QueueElement → Type 0
Small e q =
    (n : ℕ) × (q.size ≡ pos n)
    × (e.type_size q.datatype * n * e.comm_size q.team_comm ≤ max_ata_buff_size)
    × (e.makes_clusters q.team_comm ≡ true)

abbrev pub Permitted : Environment → QueueElement → RoNetCmds → Type 0
Permitted e q ro_net_amo_fop = q.op < 7
Permitted e q ro_net_to_all =
    (q.op < 7) × KnownType q × (e.makes_comm q.pe q.log_pe_stride q.pe_size ≡ true)
Permitted e q ro_net_team_to_all = (q.op < 7) × KnownType q
Permitted e q ro_net_broadcast = KnownType q × (e.makes_comm q.pe q.log_pe_stride q.pe_size ≡ true)
Permitted e q ro_net_team_broadcast = KnownType q
Permitted e q ro_net_alltoall = KnownType q × Small e q
Permitted e q ro_net_fcollect = KnownType q × Small e q
Permitted e q c = Unit

pub get_mpi_op-lt : (op : ℕ) → op < 7 → get_mpi_op op ≡ true
unfolding get_mpi_op
get_mpi_op-lt op h = ground (arith, h)

pub convert_type-KnownType : (q : QueueElement) → KnownType q → convert_type q.datatype ≡ true
unfolding convert_type
convert_type-KnownType q h = let a = h.0 in let b = h.1 in ground (arith, a, b)

-- The product is in the range of `int`, so it is the one that is tested.
pub gcen_fits :
    (e : Environment) (q : QueueElement)
    → Small e q
    → (not (
          ltb_ℤ
            (pos max_ata_buff_size)
            (wrap (pos (e.type_size q.datatype) *ℤ q.size *ℤ pos (e.comm_size q.team_comm))))
        && e.makes_clusters q.team_comm)
      ≡ true
gcen_fits e q (n, size, h, made) = rw (size, made) (tested _ h)
  where
    tested :
        (m : ℕ)
        → m ≤ max_ata_buff_size
        → (not (ltb_ℤ (pos max_ata_buff_size) (wrap (pos m))) && true) ≡ true
    tested m h = ground (arith, h)

pub checked :
    (P : State → Type 0) (b : Bool) (x : Option State)
    → b ≡ true
    → Returns P x
    → Returns P (assert b >> x)
checked P b x e h = rw e h

module _ (e : Environment) (q : QueueElement) (wg : ℤ) (s : State) (v : Valid s)
    (h : Queue s.num_queues wg) where
  two_requests :
      (blocking : Bool)
      → Returns
          (Keeps s.num_queues)
          (collective wg q.thread_id false s >>= λ s'. collective wg q.thread_id blocking s')
  two_requests blocking =
      Returns-bind (Keeps s.num_queues) (Keeps s.num_queues) (collective wg q.thread_id false s)
        (collective wg q.thread_id blocking) (collective-Valid s v wg q.thread_id false h)
        (λ s' k.
          Returns-map (Keeps s'.num_queues) (Keeps s.num_queues)
            (collective wg q.thread_id blocking s') (λ s'' l. (l.0 ∙ k.0, l.1))
            (collective-Valid s' k.1 wg q.thread_id blocking (subst (λ n. Queue n wg) (sym k.0) h)))

  gcen-Valid : (blocking : Bool) → Small e q → Returns (Keeps s.num_queues) (gcen e q wg blocking s)
  unfolding gcen
  gcen-Valid blocking small =
      checked (Keeps s.num_queues) _ _ (gcen_fits e q small) (two_requests blocking)

module _ (e : Environment) (q : QueueElement) (wg : ℤ) (s : State) (v : Valid s)
    (h : Queue s.num_queues wg) where
  alltoall-Valid :
      (b : Bool) → KnownType q × Small e q → Returns (Keeps s.num_queues) (alltoall e q wg b s)
  unfolding alltoall
  alltoall-Valid b (known, small) =
      checked (Keeps s.num_queues) _ _ (convert_type-KnownType q known) (
        branch (Keeps s.num_queues)
          ((leb 8 (e.comm_size q.team_comm)
              || ltb_ℤ (wrap (pos (e.type_size q.datatype) *ℤ q.size)) (pos 2048))
            && clusters_fit e (e.comm_size q.team_comm))
          _ _ (gcen-Valid e q wg s v h b small)
          (branch (Keeps s.num_queues) (not (ltb_ℤ (pos 512) q.size)) _ _
            (quiet-Valid s v wg q.thread_id h) (collective-Valid s v wg q.thread_id b h)))

  fcollect-Valid :
      (b : Bool) → KnownType q × Small e q → Returns (Keeps s.num_queues) (fcollect e q wg b s)
  unfolding fcollect
  fcollect-Valid b (known, small) =
      checked (Keeps s.num_queues) _ _ (convert_type-KnownType q known) (
        branch (Keeps s.num_queues) (not (ltb_ℤ (pos 512) q.size)) _ _
          (quiet-Valid s v wg q.thread_id h)
          (branch (Keeps s.num_queues) (clusters_fit e (e.comm_size q.team_comm)) _ _
            (gcen-Valid e q wg s v h b small) (collective-Valid s v wg q.thread_id b h)))

  collects :
      (b : Bool)
      → b ≡ true
      → Returns (Keeps s.num_queues) (assert b >> collective wg q.thread_id true s)
  collects b f = checked (Keeps s.num_queues) b _ f (collective-Valid s v wg q.thread_id true h)

  -- From a valid state, every command on an existing queue that is permitted (MPI has its
  -- operation and its type, it makes the communicators, and the buffer is large enough for a
  -- collective over clusters) is performed without an exit, and leaves a valid state with the
  -- same number of queues: each counter is the number of the requests of its queue, and no thread
  -- waits for the end of the requests of a queue that has none.
  pub perform-Valid :
      (c : RoNetCmds) → Permitted e q c → Returns (Keeps s.num_queues) (perform c e q wg s)
  unfolding perform put_mem get_mem amo_fop reduction team_reduction broadcast team_broadcast
  perform-Valid ro_net_put p = track_request-Valid s v _ h
  perform-Valid ro_net_p p = track_request-Valid s v _ h
  perform-Valid ro_net_get p = track_request-Valid s v _ h
  perform-Valid ro_net_put_nbi p = track_request-Valid s v _ h
  perform-Valid ro_net_get_nbi p = track_request-Valid s v _ h
  perform-Valid ro_net_amo_fop p =
      checked (Keeps s.num_queues) _ _ (get_mpi_op-lt q.op p) (amo-Valid s v wg q.thread_id h)
  perform-Valid ro_net_amo_fcas p = amo-Valid s v wg q.thread_id h
  perform-Valid ro_net_fence p = quiet-Valid s v wg q.thread_id h
  perform-Valid ro_net_quiet p = quiet-Valid s v wg q.thread_id h
  perform-Valid ro_net_finalize p = quiet-Valid s v wg q.thread_id h
  perform-Valid ro_net_to_all (o, t, m) =
      collects _ (rw (get_mpi_op-lt q.op o, convert_type-KnownType q t, m) refl)
  perform-Valid ro_net_team_to_all (o, t) =
      collects _ (rw (get_mpi_op-lt q.op o, convert_type-KnownType q t) refl)
  perform-Valid ro_net_sync p = collective-Valid s v wg q.thread_id true h
  perform-Valid ro_net_barrier_all p = collective-Valid s v wg q.thread_id true h
  perform-Valid ro_net_broadcast (t, m) = collects _ (rw (m, convert_type-KnownType q t) refl)
  perform-Valid ro_net_team_broadcast t = collects _ (convert_type-KnownType q t)
  perform-Valid ro_net_alltoall p = alltoall-Valid true p
  perform-Valid ro_net_fcollect p = fcollect-Valid true p
