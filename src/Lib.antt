-- ===== src/Lib.antt =====
-- ROC_SHMEM, an OpenSHMEM library for GPUs: the parts of library/src that keep state and decide what
-- happens to memory, teams and messages.
--
-- A processing element (PE) has a symmetric heap, which an allocator cuts into blocks of powers of
-- two. PEs form teams, which are split off other teams. A thread of the device that reaches another
-- PE copies through shared memory, or, in the reverse-offload backend, puts a command in the queue
-- of its workgroup; threads of the host take the commands out of the queues and have a transport
-- over MPI perform them, and the transport tells the thread when its command is complete.
--
-- Memory: library/src/memory. AddressRecord (address_record.hpp) is a block, Bin (bin.hpp) a stack
--   of blocks, Binner (binner.hpp) the construction of the bins from the heap, and Pow2Bins
--   (pow2_bins.hpp) the allocator: `alloc`, `free` and their helpers under the names of the source.
--   A failed assertion is `none`. The map of bins is a list in the order of the keys, and that of the
--   blocks given out a list in the order in which they were given.
-- Team: library/src/team.cpp and team.hpp; Team/Split is `roc_shmem_team_split_strided` and
--   `roc_shmem_team_destroy` of roc_shmem.cpp with team_tracker.cpp and the creation of teams in
--   reverse_offload/mpi_transport.cpp. An `int` is an integer that does not overflow.
-- Device: library/src/reverse_offload/context_ro_device.cpp, the calls of a thread and the commands
--   that they send. What coalescing in the wavefront answers is part of the context.
-- Queue: the ring of commands, `build_queue_element` of context_ro_device.cpp and
--   `ro_net_process_queue` of backend_ro.cpp. The writers and the host are steps of a relation, in
--   any interleaving; a writer's number names the writer. The load of the host's read index, its
--   store, the test for a full queue and the taking of a number are steps of their own.
-- Transport: library/src/reverse_offload/mpi_transport.cpp: Request is `submitRequestsToMPI`,
--   Progress is `progress`. MPI is seen by the requests that it has completed, whose indices are an
--   argument of `progress`, by the sizes of communicators and datatypes and by the communicators
--   that it makes; its other calls succeed. An exit of the process is `none`.
-- Wavefront: library/src/wf_coal_policy.cpp, which lanes of a wavefront send, and how much. A wave is
--   the function from the lanes to the arguments of their calls.
-- Collective: the collectives over clusters of reverse_offload/mpi_transport.cpp, `alltoall_gcen`,
--   `fcollect_gcen` and their variants with `2`, as steps of the PEs in any interleaving; Comms is
--   `createComm`. A read or a send of MPI is one step; the square root is a parameter. A PE may read
--   the source of one that has not called yet, as the source has no synchronization there. A barrier
--   opens on a communicator whose PEs have all come to a barrier on it. Progress has the measure by
--   which a call ends.
-- Barrier: library/src/gpu_ib/gpu_ib_gpu_coll.cpp, the barriers of the GPU-IB backend, direct and in
--   Barrier/Atomic by a count, with what is on its way as part of the state.
-- Workgroup: library/src/wg_team_ctxs_policy.cpp, the pool of the teams of a work-group's contexts,
--   and wg_state.cpp, the tokens of buffers: Tokens in any interleaving, Reserve the search alone.
-- Reduce: library/src/gpu_ib/gpu_ib_gpu_templates.hpp, the choice of `to_all` among its algorithms,
--   with the sizes that it computes.
-- Mutex: library/src/device_mutex.cpp, the mutex of a context as steps of the wavefronts, of which
--   each is its lowest lane, and in Lanes the numbers of active lanes.
-- TeamPool: library/src/gpu_ib/backend_ib.cpp, the bit masks by which the PEs of a new team agree on
--   an index into the pool of work arrays; all PEs of a team create it in one step.
-- Common: the names that the others share, tests on numbers, lists and integers.
--
-- Each part has a module Tests with runs and concrete uses of its theorems.
--
-- Bounds: addresses and `size_t` have 64 bits and wrap. The loops of the allocator have as much fuel
-- as the map has entries, or as the heap has bytes, and the theorem on the constructor shows that it
-- is enough. The search for a buffer has one probe for each. The queue's loop on the host has the
-- limit of the source for its fuel. The numbers of a queue stay below 2^64, as a premise of the step
-- that takes a number. The offsets of the collectives are those of a call that passes the test on the
-- size of its buffer, so that an `int` holds them, and its source, buffer and destination do not
-- overlap.
--
-- Not modelled: the reductions themselves and the rest of the GPU-IB backend, connection setup, the host interface, the bindings of
-- types to calls and the memory providers, which call other libraries; the data that the collectives
-- of MPI itself move; the memory order of the device below its fences; profiling.
pub mod Common
pub mod Memory
pub mod Team
pub mod Transport
pub mod Queue
pub mod Device
pub mod Wavefront
pub mod Collective
pub mod Barrier
pub mod Workgroup
pub mod Reduce
pub mod Mutex
pub mod TeamPool
