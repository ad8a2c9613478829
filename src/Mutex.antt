-- ===== src/Mutex.antt =====
-- library/src/device_mutex.cpp: `OldDeviceMutex`, which lets the wavefronts of one work-group in at a
-- time, and the numbers of active lanes.
pub mod Lanes
pub mod Counting
pub mod Exclusion
mod Tests
use roc_shmem.Common.{
  ℕ, zero, suc, ◌+◌, ◌-◌, ◌<◌, ◌≡◌, ◌≢◌, Bool, true, false, if◌then◌else◌, ◌==◌, Option, none, some,
  update,
}

-- Where the lowest lane of a wavefront is: outside, trying for `ctx_lock_` in `lock`, in the loop
-- over the owner with `ctx_lock_`, inside, trying for `ctx_lock_` in `unlock`, and with it there.
pub data Phase : Type 0 where
  outside : Phase
  trying : Phase
  checking : Phase
  inside : Phase
  returning : Phase
  leaving : Phase

-- The fields of the mutex, where no owner, -1, is `none`, and the wavefronts.
pub record System : Type 0 where
  pub ctx_lock : Bool
  pub wg_owner : Option ℕ
  pub num_threads_in_lock : ℕ
  pub phases : ℕ → Phase

-- The end of `lock`, for a wavefront of the owner.
abbrev pub enter : ℕ → ℕ → System → System
enter w num_threads_in_wv s = record {
  ctx_lock = false;
  wg_owner = s.wg_owner;
  num_threads_in_lock = s.num_threads_in_lock + num_threads_in_wv;
  phases = update s.phases w inside;
}

-- The body of `unlock`.
abbrev pub leave : ℕ → ℕ → System → System
leave w num_threads_in_wv s =
    let num = s.num_threads_in_lock - num_threads_in_wv in
    record {
      ctx_lock = false;
      wg_owner = if num == 0 then none else s.wg_owner;
      num_threads_in_lock = num;
      phases = update s.phases w outside;
    }

-- The wavefronts are numbered below `waves`; `wg` gives the work-group of one and `lanes` its active
-- lanes, which are the same at `lock` and at `unlock`. A shared mutex; what happens between taking
-- and releasing `ctx_lock_` is one step, but for the turns of the loop over the owner.
pub data Step (waves : ℕ) (wg lanes : ℕ → ℕ) : System → System → Type 0 where
  locks :
      (s : System) (w : ℕ)
      → w < waves
      → s.phases w ≡ outside
      → Step waves wg lanes s (record s { phases = update s.phases w trying })
  takes :
      (s : System) (w : ℕ)
      → w < waves
      → s.phases w ≡ trying
      → s.ctx_lock ≡ false
      → Step waves wg lanes s (record s { ctx_lock = true; phases = update s.phases w checking })
  enters :
      (s : System) (w : ℕ)
      → w < waves
      → s.phases w ≡ checking
      → s.wg_owner ≡ some (wg w)
      → Step waves wg lanes s (enter w (lanes w) s)
  owns :
      (s : System) (w : ℕ)
      → w < waves
      → s.phases w ≡ checking
      → s.wg_owner ≡ none
      → Step waves wg lanes s (record s { wg_owner = some (wg w) })
  waits :
      (s : System) (w g : ℕ)
      → w < waves
      → s.phases w ≡ checking
      → s.wg_owner ≡ some g
      → g ≢ wg w
      → Step waves wg lanes s (record s { ctx_lock = false; phases = update s.phases w trying })
  unlocks :
      (s : System) (w : ℕ)
      → w < waves
      → s.phases w ≡ inside
      → Step waves wg lanes s (record s { phases = update s.phases w returning })
  retakes :
      (s : System) (w : ℕ)
      → w < waves
      → s.phases w ≡ returning
      → s.ctx_lock ≡ false
      → Step waves wg lanes s (record s { ctx_lock = true; phases = update s.phases w leaving })
  leaves :
      (s : System) (w : ℕ)
      → w < waves
      → s.phases w ≡ leaving
      → Step waves wg lanes s (leave w (lanes w) s)

pub data Reach (waves : ℕ) (wg lanes : ℕ → ℕ) : System → Type 0 where
  starts :
      (s : System)
      → s.ctx_lock ≡ false
      → s.wg_owner ≡ none
      → s.num_threads_in_lock ≡ 0
      → ((w : ℕ) → s.phases w ≡ outside)
      → Reach waves wg lanes s
  steps :
      (s s' : System) → Reach waves wg lanes s → Step waves wg lanes s s' → Reach waves wg lanes s'
