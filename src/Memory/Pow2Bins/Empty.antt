-- ===== src/Memory/Pow2Bins/Empty.antt =====
-- library/src/memory/binner.hpp: the constructor makes empty bins of the right sizes.
use mathlib.Core.List.{append-nil}
use native.Mathlib.Nat.{pow-suc, pow-succ'}
use roc_shmem.Common.{
  ℕ, zero, suc, ◌*◌, ◌^◌, ◌<◌, ◌≡◌, refl, sym, ap, ◌∙◌, List, [], ◌∷◌, ◌++◌, arith, length, All,
}
use roc_shmem.Memory.AddressRecord.{AddressRecord}
use roc_shmem.Memory.Binner.{Entry, insert_bin, pow2_sizes, insert_empty_bins}
use roc_shmem.Memory.Pow2Bins.Invariant.{BinsOk, total_bins}

-- `n` empty bins of sizes that double.
abbrev pub empty_bins : ℕ → ℕ → List Entry
empty_bins k zero = []
empty_bins k (suc n) = (k, []) ∷ empty_bins (2 * k) n

pub empty_bins-BinsOk : (k n : ℕ) → BinsOk k (empty_bins k n)
empty_bins-BinsOk k zero = tt
empty_bins-BinsOk k (suc n) = (refl, tt, empty_bins-BinsOk (2 * k) n)

pub length-empty_bins : (k n : ℕ) → length (empty_bins k n) ≡ n
length-empty_bins k zero = refl
length-empty_bins k (suc n) = ap suc (length-empty_bins (2 * k) n)

pub total-empty_bins : (w : AddressRecord → ℕ) (k n : ℕ) → total_bins w (empty_bins k n) ≡ 0
total-empty_bins w k zero = refl
total-empty_bins w k (suc n) = omega (arith, total-empty_bins w (2 * k) n)

abbrev Below : ℕ → List Entry → Type 0
Below k = All (λ e. e.0 < k)

insert_bin_last :
    (k : ℕ) (bins : List Entry) → Below k bins → insert_bin k [] bins ≡ bins ++ (k, []) ∷ []
unfolding insert_bin
insert_bin_last k [] h = refl
insert_bin_last k ((j, b) ∷ bins) h = ground (arith, insert_bin_last k bins h.1)

Below-append : (k m : ℕ) (bins : List Entry) → k < m → Below k bins → Below m (bins ++ (k, []) ∷ [])
Below-append k m [] lt h = (lt, tt)
Below-append k m (e ∷ bins) lt h = (omega arith, Below-append k m bins lt h.1)

append_one : (xs : List Entry) (e : Entry) (ys : List Entry) → (xs ++ e ∷ []) ++ ys ≡ xs ++ e ∷ ys
append_one [] e ys = refl
append_one (x ∷ xs) e ys = ap (λ l. x ∷ l) (append_one xs e ys)

pow-pos : (n : ℕ) → 0 < 2 ^ n
pow-pos zero = omega arith
pow-pos (suc n) = omega (arith, pow-suc 2 n, pow-pos n)

grows : (position : ℕ) → 2 ^ position < 2 ^ suc position
grows position = omega (arith, pow-suc 2 position, pow-pos position)

pub insert_empty_bins-append :
    (n position : ℕ) (bins : List Entry)
    → Below (2 ^ position) bins
    → insert_empty_bins (pow2_sizes n position) bins ≡ bins ++ empty_bins (2 ^ position) n
unfolding insert_empty_bins pow2_sizes
insert_empty_bins-append zero position bins h = sym (append-nil bins)
insert_empty_bins-append (suc n) position bins h =
    ap (insert_empty_bins (pow2_sizes n (suc position))) (insert_bin_last (2 ^ position) bins h)
    ∙ insert_empty_bins-append n (suc position) (bins ++ (2 ^ position, []) ∷ [])
        (Below-append (2 ^ position) (2 ^ suc position) bins (grows position) h)
    ∙ append_one bins (2 ^ position, []) (empty_bins (2 ^ suc position) n)
    ∙ ap (λ k. bins ++ (2 ^ position, []) ∷ empty_bins k n) (pow-succ' 2 position)
