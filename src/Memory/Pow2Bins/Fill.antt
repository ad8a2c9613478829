-- ===== src/Memory/Pow2Bins/Fill.antt =====
-- library/src/memory/binner.hpp: the heap is cut into records of the bins' sizes.
use roc_shmem.Common.{
  ℕ, zero, suc, ◌+◌, ◌-◌, ◌*◌, ◌/◌, ◌%◌, ◌≤◌, ◌<◌, ◌≡◌, ◌⊎◌, refl, ap, ◌∙◌, inl, inr, List, [], ◌∷◌,
  arith, length, leb, if◌then◌else◌, Option, none, some, Returns, Returns-map, Bool-cases,
}
use roc_shmem.Memory.AddressRecord.{AddressRecord, word_mod, invalid}
use roc_shmem.Memory.Bin
use roc_shmem.Memory.Binner.{Entry, alignment, put_in_largest, assign_heap_chunk, assign_loop}
use roc_shmem.Memory.Pow2Bins.Invariant.{BinsOk, total_bins, covers}

abbrev pub region : ℕ → ℕ → AddressRecord
region a n = record { address = a; size = n }

-- A quantity that adds up along adjacent pieces of memory.
abbrev pub Divisible : (AddressRecord → ℕ) → Type 0
Divisible w = (a m n : ℕ) → w (region a (m + n)) ≡ w (region a m) + w (region (a + m) n)

pub covers-Divisible : (x : ℕ) → Divisible (covers x)
covers-Divisible x a m n = ground arith

pub size-Divisible : Divisible (λ r. r.size)
size-Divisible a m n = refl

-- A piece of memory that can be cut into records.
pub record ChunkOk (chunk : AddressRecord) : Type 0 where
  pub aligned : chunk.address % alignment ≡ 0
  pub nonnull : 0 < chunk.address
  pub fits : chunk.address + chunk.size < word_mod

-- A record of the largest bin size that fits went into its bin, or none fits.
record Put (k : ℕ) (chunk : AddressRecord) (before : List Entry) (taken : ℕ) (after : List Entry)
    : Type 0 where
  enough : k ≤ taken
  within : taken ≤ chunk.size
  whole : taken % alignment ≡ 0
  bins_ok : BinsOk k after
  same_length : length after ≡ length before
  put :
      (w : AddressRecord → ℕ)
      → total_bins w after ≡ total_bins w before + w (region chunk.address taken)

abbrev PutOutcome : ℕ → AddressRecord → List Entry → Option (ℕ × List Entry) → Type 0
PutOutcome k chunk before none = (before ≡ []) ⊎ (chunk.size < k)
PutOutcome k chunk before (some (taken, after)) = Put k chunk before taken after

put_in_largest-PutOutcome :
    (k : ℕ) (chunk : AddressRecord) (bins : List Entry)
    → k % alignment ≡ 0
    → ChunkOk chunk
    → BinsOk k bins
    → PutOutcome k chunk bins (put_in_largest chunk bins)
unfolding put_in_largest Bin.put
put_in_largest-PutOutcome k chunk [] al ok bo = inl refl
put_in_largest-PutOutcome k chunk ((j, b) ∷ bins) al ok bo =
    step (put_in_largest chunk bins)
      (put_in_largest-PutOutcome (2 * k) chunk bins (omega arith) ok bo.2)
  where
    step :
        (deeper : Option (ℕ × List Entry))
        → PutOutcome (2 * k) chunk bins deeper
        → PutOutcome k chunk ((j, b) ∷ bins) (elim deeper [
          | some (taken, bins') ↦ some (taken, (j, b) ∷ bins')
          | none ↦
              if leb j chunk.size
              then some (j, (j, Bin.put (record { address = chunk.address; size = j }) b) ∷ bins)
              else none
        ])
    step (some (taken, after)) h = record {
      enough = omega (arith, h.enough);
      within = h.within;
      whole = h.whole;
      bins_ok = (bo.0, bo.1, h.bins_ok);
      same_length = ap suc h.same_length;
      put = λ w. omega (arith, h.put w);
    }
    step none h = elim (Bool-cases (leb j chunk.size)) [
      | inl fits ↦ rw fits (record {
        enough = omega (arith, bo.0);
        within = ground arith;
        whole = omega (arith, bo.0, al);
        bins_ok = (
          bo.0,
          (
            record {
              sized = bo.0;
              aligned = ok.aligned;
              nonnull = ok.nonnull;
              fits = ground (arith, ok.fits);
            },
            bo.1,
          ),
          bo.2,
        );
        same_length = refl;
        put = λ w. omega arith;
      })
      | inr over ↦ rw over (inr (ground (arith, bo.0)))
    ]

-- All of the chunk but less than `alignment` bytes at its end went into the bins.
pub record Filled (chunk : AddressRecord) (before after : List Entry) : Type 0 where
  pub left : ℕ
  pub small : left < alignment
  pub within : left ≤ chunk.size
  pub bins_ok : BinsOk alignment after
  pub same_length : length after ≡ length before
  pub put :
      (w : AddressRecord → ℕ)
      → Divisible w
      → total_bins w after ≡ total_bins w before + w (region chunk.address (chunk.size - left))

empty_region : (w : AddressRecord → ℕ) → Divisible w → (a : ℕ) → w (region a 0) ≡ 0
empty_region w div a =
    let same : w (region (a + 0) 0) ≡ w (region a 0) = ap (λ b. w (region b 0)) (omega arith) in
    omega (arith, div a 0 0)

nothing_taken :
    (chunk : AddressRecord) (bins : List Entry)
    → BinsOk alignment bins
    → chunk.size < alignment
    → Filled chunk bins bins
nothing_taken chunk bins bo lt = record {
  left = chunk.size;
  small = lt;
  within = omega arith;
  bins_ok = bo;
  same_length = refl;
  put = λ w div. ground (arith, empty_region w div chunk.address);
}

rest_of : AddressRecord → ℕ → AddressRecord
rest_of chunk taken = record {
  address = (chunk.address + taken) % word_mod;
  size = chunk.size - taken;
}

Filled-after :
    (chunk : AddressRecord) (before between after : List Entry) (taken : ℕ)
    → ChunkOk chunk
    → Put alignment chunk before taken between
    → Filled (rest_of chunk taken) between after
    → Filled chunk before after
unfolding rest_of
Filled-after chunk before between after taken ok h f = record {
  left = f.left;
  small = f.small;
  within = omega (arith, f.within, h.within);
  bins_ok = f.bins_ok;
  same_length = f.same_length ∙ h.same_length;
  put = λ w div. omega (arith, f.put w div, h.put w, joined w div);
}
  where
    joined :
        (w : AddressRecord → ℕ)
        → Divisible w
        → w (region chunk.address (chunk.size - f.left))
          ≡ w (region chunk.address taken)
            + w (region ((chunk.address + taken) % word_mod) (chunk.size - taken - f.left))
    joined w div =
        let whole : chunk.size - f.left ≡ taken + (chunk.size - taken - f.left) =
          omega (arith, f.within, h.within) in
        let next : (chunk.address + taken) % word_mod ≡ chunk.address + taken =
          omega (arith, ok.fits, h.within) in
        rw (whole, next) (div chunk.address taken (chunk.size - taken - f.left))

chunk_none :
    (chunk : AddressRecord) (bins : List Entry)
    → put_in_largest chunk bins ≡ none
    → assign_heap_chunk chunk bins ≡ (invalid, bins)
unfolding assign_heap_chunk
chunk_none chunk bins e = ground arith

chunk_some :
    (chunk : AddressRecord) (bins : List Entry) (taken : ℕ) (between : List Entry)
    → put_in_largest chunk bins ≡ some (taken, between)
    → assign_heap_chunk chunk bins ≡ (rest_of chunk taken, between)
unfolding assign_heap_chunk rest_of
chunk_some chunk bins taken between e = ground arith

loop_step :
    (fuel : ℕ) (chunk : AddressRecord) (bins : List Entry)
    → 0 < chunk.address
    → assign_loop (suc fuel) chunk bins
      ≡ assign_loop fuel (assign_heap_chunk chunk bins).0 (assign_heap_chunk chunk bins).1
unfolding assign_loop
loop_step fuel chunk bins pos = ground arith

loop_end : (fuel : ℕ) (bins : List Entry) → assign_loop (suc fuel) invalid bins ≡ some bins
unfolding assign_loop
loop_end fuel bins = refl

rest_of-ChunkOk :
    (chunk : AddressRecord) (taken : ℕ)
    → ChunkOk chunk
    → taken ≤ chunk.size
    → taken % alignment ≡ 0
    → ChunkOk (rest_of chunk taken)
unfolding rest_of
rest_of-ChunkOk chunk taken ok within whole = record {
  aligned = omega (arith, ok.aligned, ok.fits);
  nonnull = omega (arith, ok.nonnull, ok.fits);
  fits = omega (arith, ok.fits);
}

rest_of-fuel :
    (chunk : AddressRecord) (taken fuel : ℕ)
    → alignment ≤ taken
    → taken ≤ chunk.size
    → chunk.size / alignment + 2 ≤ suc fuel
    → (rest_of chunk taken).size / alignment + 2 ≤ fuel
unfolding rest_of
rest_of-fuel chunk taken fuel enough within h = omega arith

ends :
    {chunk : AddressRecord} {bins : List Entry} (fuel : ℕ)
    → 1 ≤ fuel
    → Filled chunk bins bins
    → Returns (Filled chunk bins) (assign_loop fuel invalid bins)
ends zero h f = elim h [ ]
ends (suc fuel) h f = rw (loop_end fuel _) f

-- The loop ends on the fuel given, and cuts the whole chunk up.
pub assign_loop-Filled :
    (fuel : ℕ) (chunk : AddressRecord) (bins : List Entry)
    → chunk.size / alignment + 2 ≤ fuel
    → ChunkOk chunk
    → BinsOk alignment bins
    → 0 < length bins
    → Returns (Filled chunk bins) (assign_loop fuel chunk bins)
assign_loop-Filled zero chunk bins enough ok bo some_bin = absurd (omega arith)
assign_loop-Filled (suc fuel) chunk bins enough ok bo some_bin =
    rw (loop_step fuel chunk bins ok.nonnull) (
      by_outcome (assign_loop-Filled fuel) (put_in_largest chunk bins) refl
        (put_in_largest-PutOutcome alignment chunk bins refl ok bo))
  where
    by_outcome :
        ((next : AddressRecord) (es : List Entry)
          → next.size / alignment + 2 ≤ fuel
          → ChunkOk next
          → BinsOk alignment es
          → 0 < length es
          → Returns (Filled next es) (assign_loop fuel next es))
        → (o : Option (ℕ × List Entry)) → put_in_largest chunk bins ≡ o
        → PutOutcome alignment chunk bins o
        → Returns
            (Filled chunk bins)
            (assign_loop fuel (assign_heap_chunk chunk bins).0 (assign_heap_chunk chunk bins).1)
    by_outcome ih none e h = rw (chunk_none chunk bins e) (
        ends fuel (omega arith) (
          nothing_taken chunk bins bo
            (elim h [ inl no_bin ↦ absurd (omega (arith, ap length no_bin)) | inr short ↦ short ])))
    by_outcome ih (some (taken, between)) e h = rw (chunk_some chunk bins taken between e) (
        Returns-map _ _ _ (λ after f. Filled-after chunk bins between after taken ok h f)
          (ih (rest_of chunk taken) between (rest_of-fuel chunk taken fuel h.enough h.within enough)
            (rest_of-ChunkOk chunk taken ok h.within h.whole) h.bins_ok
            (omega (arith, h.same_length))))
