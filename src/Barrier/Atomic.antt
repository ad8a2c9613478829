-- ===== src/Barrier/Atomic.antt =====
-- library/src/gpu_ib/gpu_ib_gpu_coll.cpp: `internal_atomic_barrier`, in which the first PE of a
-- triplet counts the others. A PE is its offset in the triplet, 0 for the first.
pub mod Counts
pub mod Order
pub mod History
mod Tests
use roc_shmem.Common.{ℕ, zero, suc, ◌+◌, ◌-◌, ◌<◌, ◌≤◌, ◌≡◌, update}

-- Where the first PE is: outside, waiting for the count, or at an offset in the loop that announces.
pub data Stage : Type 0 where
  outside : Stage
  waiting : Stage
  announcing : ℕ → Stage

-- `pSync[0]` of the first PE and the additions of 1 on their way to it, `pSync[0]` of each other PE
-- and the puts of 1 on their way there, and how often each PE has entered and left.
pub record System : Type 0 where
  pub stage : Stage
  pub count : ℕ
  pub adds : ℕ
  pub flag : ℕ → ℕ
  pub puts : ℕ → ℕ
  pub entered : ℕ → ℕ
  pub left : ℕ → ℕ

-- What the first PE does once the count is there.
abbrev pub gather : System → System
gather s = record s { stage = announcing 1; count = 0 }

-- `put_nbi(&pSync[0], &flag_val, 1, j)`, in the loop of the first PE.
abbrev pub announce : ℕ → System → System
announce i s = record s { stage = announcing (i + 1); puts = update s.puts i (s.puts i + 1) }

-- `amo_add(&pSync[0], flag_val, 0, PE_start)`.
abbrev pub arrive : ℕ → System → System
arrive i s = record s { adds = s.adds + 1; entered = update s.entered i (s.entered i + 1) }

abbrev pub depart : ℕ → System → System
depart i s = record s { flag = update s.flag i 0; left = update s.left i (s.left i + 1) }

-- One step of one PE, or of the network.
pub data Step (n_pes : ℕ) : System → System → Type 0 where
  root_enters :
      (s : System)
      → s.stage ≡ outside
      → Step n_pes s (record s { stage = waiting; entered = update s.entered 0 (s.entered 0 + 1) })
  root_sees : (s : System) → s.stage ≡ waiting → s.count ≡ n_pes - 1 → Step n_pes s (gather s)
  root_announces :
      (s : System) (i : ℕ) → s.stage ≡ announcing i → i < n_pes → Step n_pes s (announce i s)
  root_leaves :
      (s : System) (i : ℕ)
      → s.stage ≡ announcing i
      → n_pes ≤ i
      → Step n_pes s (record s { stage = outside; left = update s.left 0 (s.left 0 + 1) })
  arrives :
      (s : System) (i : ℕ) → 0 < i → i < n_pes → s.entered i ≡ s.left i → Step n_pes s (arrive i s)
  add_lands :
      (s : System) (k : ℕ)
      → s.adds ≡ k + 1
      → Step n_pes s (record s { adds = k; count = s.count + 1 })
  put_lands :
      (s : System) (i k : ℕ)
      → s.puts i ≡ k + 1
      → Step n_pes s (record s { puts = update s.puts i k; flag = update s.flag i 1 })
  leaves :
      (s : System) (i : ℕ)
      → 0 < i
      → i < n_pes
      → s.entered i ≡ s.left i + 1
      → s.flag i ≡ 1
      → Step n_pes s (depart i s)

pub data Reach (n_pes : ℕ) : System → Type 0 where
  starts :
      (s : System)
      → s.stage ≡ outside
      → s.count ≡ 0
      → s.adds ≡ 0
      → ((i : ℕ) → s.flag i ≡ 0)
      → ((i : ℕ) → s.puts i ≡ 0)
      → ((i : ℕ) → s.entered i ≡ 0)
      → ((i : ℕ) → s.left i ≡ 0)
      → Reach n_pes s
  steps : (s s' : System) → Reach n_pes s → Step n_pes s s' → Reach n_pes s'
