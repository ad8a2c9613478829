-- ===== src/Mutex/Counting.antt =====
-- library/src/device_mutex.cpp: the sum of the lanes of the wavefronts that are inside.
use roc_shmem.Common.{sum, sum-update, ℕ, ◌+◌, ◌<◌, ◌≤◌, ◌≡◌, arith, update}
use roc_shmem.Mutex.{Phase, outside, trying, checking, inside, returning, leaving}

-- What a wavefront of so many lanes counts.
abbrev pub counted : ℕ → Phase → ℕ
counted n outside = 0
counted n trying = 0
counted n checking = 0
counted n inside = n
counted n returning = n
counted n leaving = n

module _ (lanes : ℕ → ℕ) where
  abbrev pub total : ℕ → (ℕ → Phase) → ℕ
  total = sum (λ w. counted (lanes w))

  pub total-update :
      (n : ℕ) (phases : ℕ → Phase) (w : ℕ) (ph : Phase)
      → w < n
      → total n (update phases w ph) + counted (lanes w) (phases w)
        ≡ total n phases + counted (lanes w) ph
  total-update = sum-update (λ w. counted (lanes w))

  pub counted_below :
      (n : ℕ) (phases : ℕ → Phase) (w : ℕ) → w < n → counted (lanes w) (phases w) ≤ total n phases
  counted_below n phases w h = let u = total-update n phases w outside h in omega (arith, u)
