-- ===== src/Barrier.antt =====
-- library/src/gpu_ib/gpu_ib_gpu_coll.cpp: `internal_direct_barrier`, in which the first PE of a
-- triplet gathers the flags of the others and announces to them that all have come. A PE is its
-- number in the world.
pub mod Invariant
pub mod Flags
pub mod Order
pub mod Progress
pub mod Atomic
mod Tests
use roc_shmem.Common.{ℕ, zero, suc, ◌+◌, ◌-◌, ◌*◌, ◌/◌, ◌<◌, ◌≤◌, ◌≡◌, update}

-- The arguments.
pub record Triplet : Type 0 where
  pub pe_start : ℕ
  pub stride : ℕ
  pub n_pes : ℕ

-- The PE at an offset of the triplet.
abbrev pub member : Triplet → ℕ → ℕ
member t i = t.pe_start + i * t.stride

-- Where the first PE is: outside of the barrier, at an offset in the loop that waits for the
-- flags, or at one in the loop that announces.
pub data Stage : Type 0 where
  outside : Stage
  waiting : ℕ → Stage
  announcing : ℕ → Stage

-- The array `pSync` of each PE, the puts of 1 that are on their way to a place of an array, and for
-- each PE how often it has entered a barrier and left one.
pub record System : Type 0 where
  pub stage : Stage
  pub psync : ℕ → ℕ → ℕ
  pub flying : ℕ → ℕ → ℕ
  pub entered : ℕ → ℕ
  pub left : ℕ → ℕ

-- A write to a place of the array of a PE.
abbrev pub write : (ℕ → ℕ → ℕ) → ℕ → ℕ → ℕ → ℕ → ℕ → ℕ
write m pe at v = update m pe (update (m pe) at v)

-- `put_nbi(&pSync[at], &flag_val, 1, pe)`.
abbrev pub put_nbi : ℕ → ℕ → System → System
put_nbi at pe s = record s { flying = write s.flying pe at (s.flying pe at + 1) }

-- What a PE does once its wait for 1 has ended.
abbrev pub reset : ℕ → ℕ → System → System
reset at pe s = record s { psync = write s.psync pe at 0 }

-- One step of one PE, or of the network. A PE enters its next barrier after it has left the one
-- before.
pub data Step (t : Triplet) : System → System → Type 0 where
  root_enters :
      (s : System)
      → s.stage ≡ outside
      → Step t s (record s {
        stage = waiting 1;
        entered = update s.entered t.pe_start (s.entered t.pe_start + 1);
      })
  root_sees :
      (s : System) (i : ℕ)
      → s.stage ≡ waiting i
      → i < t.n_pes
      → s.psync t.pe_start i ≡ 1
      → Step t s (record (reset i t.pe_start s) { stage = waiting (i + 1) })
  root_turns :
      (s : System) (i : ℕ)
      → s.stage ≡ waiting i
      → t.n_pes ≤ i
      → Step t s (record s { stage = announcing 1 })
  root_announces :
      (s : System) (i : ℕ)
      → s.stage ≡ announcing i
      → i < t.n_pes
      → Step t s (record (put_nbi 0 (member t i) s) { stage = announcing (i + 1) })
  root_leaves :
      (s : System) (i : ℕ)
      → s.stage ≡ announcing i
      → t.n_pes ≤ i
      → Step t s
          (record s { stage = outside; left = update s.left t.pe_start (s.left t.pe_start + 1) })
  arrives :
      (s : System) (pe i : ℕ)
      → pe ≡ member t i
      → 0 < i
      → i < t.n_pes
      → s.entered pe ≡ s.left pe
      → Step t s (record (put_nbi ((pe - t.pe_start) / t.stride) t.pe_start s) {
        entered = update s.entered pe (s.entered pe + 1);
      })
  leaves :
      (s : System) (pe i : ℕ)
      → pe ≡ member t i
      → 0 < i
      → i < t.n_pes
      → s.entered pe ≡ s.left pe + 1
      → s.psync pe 0 ≡ 1
      → Step t s (record (reset 0 pe s) { left = update s.left pe (s.left pe + 1) })
  lands :
      (s : System) (pe at k : ℕ)
      → s.flying pe at ≡ k + 1
      → Step t s (record s { psync = write s.psync pe at 1; flying = write s.flying pe at k })

-- At the start nobody is in a barrier and the arrays hold `ROC_SHMEM_SYNC_VALUE`.
pub data Reach (t : Triplet) : System → Type 0 where
  starts :
      (s : System)
      → s.stage ≡ outside
      → ((pe at : ℕ) → s.psync pe at ≡ 0)
      → ((pe at : ℕ) → s.flying pe at ≡ 0)
      → ((pe : ℕ) → s.entered pe ≡ 0)
      → ((pe : ℕ) → s.left pe ≡ 0)
      → Reach t s
  steps : (s s' : System) → Reach t s → Step t s s' → Reach t s'
