-- ===== src/Transport/Request.antt =====
-- library/src/reverse_offload/mpi_transport.cpp: `submitRequestsToMPI` and the calls it makes, by
-- what they leave in the state of the transport.
use roc_shmem.Common.{
  not, ℕ, ◌+◌, ◌-◌, ◌*◌, ◌/◌, ◌%◌, ◌^◌, ltb, assert, ◌>>◌, List, [], ◌∷◌, ◌++◌, Bool, true, false,
  if◌then◌else◌, ◌&&◌, ◌||◌, leb, ◌==◌, Option, some, ◌>>=◌,
}
use roc_shmem.Common.Int.{ℤ, pos, negsuc, ◌*ℤ◌, ltb_ℤ}
use roc_shmem.Transport.{RequestProperties, State, raise, queue_index, track_request, quiet}

-- `ro_net_cmds`.
pub data RoNetCmds : Type 0 where
  ro_net_put : RoNetCmds
  ro_net_p : RoNetCmds
  ro_net_get : RoNetCmds
  ro_net_put_nbi : RoNetCmds
  ro_net_get_nbi : RoNetCmds
  ro_net_amo_fop : RoNetCmds
  ro_net_amo_fcas : RoNetCmds
  ro_net_fence : RoNetCmds
  ro_net_quiet : RoNetCmds
  ro_net_finalize : RoNetCmds
  ro_net_to_all : RoNetCmds
  ro_net_team_to_all : RoNetCmds
  ro_net_sync : RoNetCmds
  ro_net_barrier_all : RoNetCmds
  ro_net_broadcast : RoNetCmds
  ro_net_team_broadcast : RoNetCmds
  ro_net_alltoall : RoNetCmds
  ro_net_fcollect : RoNetCmds

-- `queue_element_t`, without its valid byte and padding. Addresses and handles are numbers.
pub record QueueElement : Type 0 where
  pub type : RoNetCmds
  pub pe : ℤ
  pub size : ℤ
  pub src : ℕ
  pub dst : ℕ
  pub thread_id : ℕ
  pub log_pe_stride : ℤ
  pub pe_size : ℤ
  pub p_wrk : ℕ
  pub p_sync : ℕ
  pub op : ℕ
  pub datatype : ℕ
  pub pe_root : ℤ
  pub team_comm : ℕ

-- What the calls read of MPI and of the C library: the size of a communicator, the size of a
-- datatype, the truncated square root, the address that `malloc` gives, whether MPI makes the
-- communicator of a triplet and those of the cluster and ring of a communicator. The other calls
-- of MPI succeed.
pub record Environment : Type 0 where
  pub comm_size : ℕ → ℕ
  pub type_size : ℕ → ℕ
  pub sqrt : ℕ → ℕ
  pub malloc : ℤ → ℕ
  pub makes_comm : (start log_stride size : ℤ) → Bool
  pub makes_clusters : ℕ → Bool

-- The value that an `int` keeps.
abbrev pub wrap : ℤ → ℤ
wrap (pos n) =
    let low = n % 2 ^ 32 in if ltb low (2 ^ 31) then pos low else negsuc (2 ^ 32 - low - 1)
wrap (negsuc n) =
    let low = n % 2 ^ 32 in if ltb low (2 ^ 31) then negsuc low else pos (2 ^ 32 - low - 1)

-- `get_mpi_op` and `convertType` return: `RO_NET_CHAR`, which is 1, has no type of MPI. An exit of
-- the process is `none`.
unfoldable pub get_mpi_op : ℕ → Bool
get_mpi_op op = ltb op 7

unfoldable pub convert_type : ℕ → Bool
convert_type type = ltb type 8 && not (type == 1)

abbrev pub properties : ℕ → ℤ → Bool → RequestProperties
properties thread_id wg_id blocking = record {
  thread_id = thread_id;
  wg_id = wg_id;
  blocking = blocking;
  src = 0;
  inline_data = false;
}

-- `barrier`: one request. It is also the end of the collectives below.
unfoldable pub collective : ℤ → ℕ → Bool → State → Option State
collective wg_id thread_id blocking s = track_request (properties thread_id wg_id blocking) s

unfoldable pub reduction : Environment → QueueElement → ℤ → Bool → State → Option State
unfolding collective get_mpi_op convert_type
reduction e q wg_id blocking s =
    assert
      (get_mpi_op q.op && convert_type q.datatype && e.makes_comm q.pe q.log_pe_stride q.pe_size)
    >> collective wg_id q.thread_id blocking s

unfoldable pub team_reduction : QueueElement → ℤ → Bool → State → Option State
unfolding collective get_mpi_op convert_type
team_reduction q wg_id blocking s =
    assert (get_mpi_op q.op && convert_type q.datatype) >> collective wg_id q.thread_id blocking s

unfoldable pub broadcast : Environment → QueueElement → ℤ → Bool → State → Option State
unfolding collective convert_type
broadcast e q wg_id blocking s =
    assert (e.makes_comm q.pe q.log_pe_stride q.pe_size && convert_type q.datatype)
    >> collective wg_id q.thread_id blocking s

unfoldable pub team_broadcast : QueueElement → ℤ → Bool → State → Option State
unfolding collective convert_type
team_broadcast q wg_id blocking s =
    assert (convert_type q.datatype) >> collective wg_id q.thread_id blocking s

unfoldable pub put_mem : ℕ → ℤ → ℕ → Bool → Bool → State → Option State
put_mem src wg_id thread_id blocking inline_data s =
    track_request
      (record {
        thread_id = thread_id;
        wg_id = wg_id;
        blocking = blocking;
        src = src;
        inline_data = inline_data;
      })
      s

unfoldable pub get_mem : ℤ → ℕ → Bool → State → Option State
get_mem wg_id thread_id blocking s = track_request (properties thread_id wg_id blocking) s

-- `amoFOP`, after its operation, and `amoFCAS` complete before they return.
unfoldable pub amo : ℤ → ℕ → State → Option State
amo wg_id thread_id s = do
  w ← queue_index s wg_id
  some (record s { status = raise w thread_id s.status })

unfoldable pub amo_fop : ℕ → ℤ → ℕ → State → Option State
unfolding amo get_mpi_op
amo_fop op wg_id thread_id s = assert (get_mpi_op op) >> amo wg_id thread_id s

-- `MAX_ATA_BUFF_SIZE`.
abbrev pub max_ata_buff_size : ℕ
max_ata_buff_size = 1024 * 1024 * 128

-- The three ways of `alltoall` and `fcollect`: the GPU-centric one ends in two barriers and only
-- the second blocks, MPI's own call ends in a quiet, and the one by puts ends in a barrier.
unfoldable pub gcen : Environment → QueueElement → ℤ → Bool → State → Option State
unfolding collective
gcen e q wg_id blocking s =
    let total = pos (e.type_size q.datatype) *ℤ q.size *ℤ pos (e.comm_size q.team_comm) in
    assert (not (ltb_ℤ (pos max_ata_buff_size) (wrap total)) && e.makes_clusters q.team_comm)
    >> (do s' ← collective wg_id q.thread_id false s; collective wg_id q.thread_id blocking s')

-- Whether the number of PEs splits into clusters of the same size.
unfoldable pub clusters_fit : Environment → ℕ → Bool
clusters_fit e pe_size =
    let num_clust = e.sqrt pe_size in
    let clust_size = (pe_size + num_clust - 1) / num_clust in num_clust * clust_size == pe_size

unfoldable pub alltoall : Environment → QueueElement → ℤ → Bool → State → Option State
unfolding clusters_fit gcen collective convert_type
alltoall e q wg_id blocking s =
    let pe_size = e.comm_size q.team_comm in
    assert (convert_type q.datatype)
    >> (if (leb 8 pe_size || ltb_ℤ (wrap (pos (e.type_size q.datatype) *ℤ q.size)) (pos 2048))
          && clusters_fit e pe_size
        then gcen e q wg_id blocking s
        else if not (ltb_ℤ (pos 512) q.size)
        then quiet wg_id q.thread_id s
        else collective wg_id q.thread_id blocking s)

unfoldable pub fcollect : Environment → QueueElement → ℤ → Bool → State → Option State
unfolding clusters_fit gcen collective convert_type
fcollect e q wg_id blocking s =
    assert (convert_type q.datatype)
    >> (if not (ltb_ℤ (pos 512) q.size)
        then quiet wg_id q.thread_id s
        else if clusters_fit e (e.comm_size q.team_comm)
        then gcen e q wg_id blocking s
        else collective wg_id q.thread_id blocking s)

-- The switch of `submitRequestsToMPI`.
unfoldable pub perform : RoNetCmds → Environment → QueueElement → ℤ → State → Option State
unfolding put_mem get_mem amo amo_fop alltoall fcollect collective reduction team_reduction
    broadcast team_broadcast
perform ro_net_put e q w s = put_mem q.src w q.thread_id true false s
perform ro_net_p e q w s = put_mem (e.malloc q.size) w q.thread_id true true s
perform ro_net_get e q w s = get_mem w q.thread_id true s
perform ro_net_put_nbi e q w s = put_mem q.src w q.thread_id false false s
perform ro_net_get_nbi e q w s = get_mem w q.thread_id false s
perform ro_net_amo_fop e q w s = amo_fop q.op w q.thread_id s
perform ro_net_amo_fcas e q w s = amo w q.thread_id s
perform ro_net_team_to_all e q w s = team_reduction q w true s
perform ro_net_to_all e q w s = reduction e q w true s
perform ro_net_team_broadcast e q w s = team_broadcast q w true s
perform ro_net_broadcast e q w s = broadcast e q w true s
perform ro_net_alltoall e q w s = alltoall e q w true s
perform ro_net_fcollect e q w s = fcollect e q w true s
perform ro_net_barrier_all e q w s = collective w q.thread_id true s
perform ro_net_sync e q w s = collective w q.thread_id true s
perform ro_net_fence e q w s = quiet w q.thread_id s
perform ro_net_quiet e q w s = quiet w q.thread_id s
perform ro_net_finalize e q w s = quiet w q.thread_id s

-- The requests that wait for the transport's thread, with the number of the queue of each.
abbrev pub Pending : Type 0
Pending = List (QueueElement × ℤ)

-- `insertRequest`.
unfoldable pub insert_request : QueueElement → ℤ → Pending → Pending
insert_request q queue_id pending = pending ++ (q, queue_id) ∷ []

unfoldable pub submit_requests_to_mpi : Environment → Pending × State → Option (Pending × State)
unfolding perform
submit_requests_to_mpi e ([], s) = some ([], s)
submit_requests_to_mpi e ((q, w) ∷ pending, s) = do s' ← perform q.type e q w s; some (pending, s')
