-- ===== src/Collective.antt =====
-- library/src/reverse_offload/mpi_transport.cpp: `alltoall_gcen`, `alltoall_gcen2`, `fcollect_gcen`
-- and `fcollect_gcen2`, which move the data of a collective over clusters of PEs. A PE is its rank
-- in the team, and a buffer is the function from the offsets of its bytes.
pub mod Exchange
pub mod Blocks
pub mod Calls
pub mod Comms
pub mod Invariant
pub mod Result
pub mod Progress
mod Tests
use roc_shmem.Common.{
  ℕ, ◌+◌, ◌-◌, ◌*◌, ◌/◌, ◌%◌, ◌&&◌, if◌then◌else◌, ltb, leb, ◌==◌, Option, some, ◌>>◌, assert,
  update,
}

-- What the team and the arguments say.
pub record Call : Type 0 where
  pub pe_size : ℕ
  pub num_clust : ℕ
  pub clust_size : ℕ
  pub type_size : ℕ
  pub size : ℕ

-- The number of clusters, from the C library's `sqrt`, and their size.
unfoldable pub make_call : (ℕ → ℕ) → ℕ → ℕ → ℕ → Option Call
make_call sqrt pe_size type_size size =
    let num_clust = sqrt pe_size in
    let clust_size = (pe_size + num_clust - 1) / num_clust in
    assert (num_clust * clust_size == pe_size)
    >> some (record {
      pe_size = pe_size;
      num_clust = num_clust;
      clust_size = clust_size;
      type_size = type_size;
      size = size;
    })

-- What differs between the collectives: the number of reads of a PE, the offset in the source of
-- the other PE by the rank and the read, and the offset in its buffer that it sends to a cluster.
pub record Transfer : Type 0 where
  pub reads : ℕ
  pub read_offset : ℕ → ℕ → ℕ
  pub sent_offset : ℕ → ℕ

unfoldable pub alltoall : Call → Transfer
alltoall c = record {
  reads = c.pe_size;
  read_offset = λ new_rank i.
      (new_rank % c.clust_size + (i / c.clust_size) * c.clust_size) * c.type_size * c.size;
  sent_offset = λ i. i * c.type_size * c.size * c.clust_size;
}

unfoldable pub fcollect : Call → Transfer
fcollect c = record { reads = c.clust_size; read_offset = λ new_rank i. 0; sent_offset = λ i. 0 }

-- Where a PE stands: it has not called yet, it has done some of its reads, it has sent to some of the clusters, or its call
-- has returned.
pub data Phase : Type 0 where
  away : Phase
  reading : ℕ → Phase
  sending : ℕ → Phase
  left : Phase

-- The PEs with their sources, their buffers `ata_buffptr` and their destinations.
pub record System : Type 0 where
  pub phases : ℕ → Phase
  pub src : ℕ → ℕ → ℕ
  pub ata_buff : ℕ → ℕ → ℕ
  pub dst : ℕ → ℕ → ℕ

-- `len` bytes of `from` at `offset`, written to `to` at `at`.
unfoldable pub copy : (ℕ → ℕ) → ℕ → ℕ → (ℕ → ℕ) → ℕ → ℕ → ℕ
copy from offset len to at j =
    if leb at j && ltb j (at + len) then from (offset + (j - at)) else to j

-- The `MPI_Rget` of step 1.
unfoldable pub rget : Call → Transfer → ℕ → ℕ → System → System
unfolding copy
rget c x new_rank i s =
    let clust_id = new_rank / c.clust_size in
    let dst_offset = i * c.type_size * c.size in
    let pe = clust_id * c.clust_size + i % c.clust_size in
    record s {
      phases = update s.phases new_rank (reading (i + 1));
      ata_buff = update s.ata_buff new_rank (
          copy (s.src pe) (x.read_offset new_rank i) (c.size * c.type_size) (s.ata_buff new_rank)
            dst_offset);
    }

-- The `MPI_Put` of step 2, with the flush.
unfoldable pub put : Call → Transfer → ℕ → ℕ → System → System
unfolding copy
put c x new_rank i s =
    let clust_id = new_rank / c.clust_size in
    let dst_offset = clust_id * c.type_size * c.size * c.clust_size in
    let pe = new_rank % c.clust_size + i * c.clust_size in
    record s {
      phases = update s.phases new_rank (sending (i + 1));
      dst = update s.dst pe (
          copy (s.ata_buff new_rank) (x.sent_offset i) (c.size * c.clust_size * c.type_size)
            (s.dst pe) dst_offset);
    }
