-- ===== src/Reduce/Plan.antt =====
-- library/src/gpu_ib/gpu_ib_gpu_templates.hpp: the sizes that `to_all` chooses keep within the arrays
-- that the caller has to provide.
use native.Mathlib.Nat.{div-add-mod', mod-lt}
use roc_shmem.Common.{
  ℕ, ◌+◌, ◌*◌, ◌/◌, ◌%◌, ◌^◌, ◌<◌, ◌≤◌, ◌≡◌, ap, arith, inl, inr, ◌==◌, if◌then◌else◌, ltb, leb,
  ◌&&◌, Bool-cases, leb→le,
}
use roc_shmem.Reduce.{
  max, reduce_min_wrkdata_size, reduce_sync_size, Choice, direct, ring, unsupported, ring_sizes,
  to_all, int_size,
}

-- The elements that `to_all` takes the work array to have.
abbrev provided : ℕ → ℕ
provided nreduce = max (nreduce / 2 + 1) reduce_min_wrkdata_size

-- In a work array of `pwrk` elements the sources of all PEs have room, or their chunks, which have
-- room in a segment too, as the segments have in the arrays; the flags have room in `pSync`.
abbrev pub Within : ℕ → ℕ → ℕ → Choice → Type 0
Within pwrk num_pes nreduce direct = (num_pes * nreduce ≤ pwrk) × (num_pes ≤ reduce_sync_size)
Within pwrk num_pes nreduce (ring n_seg seg_size chunk_size) =
    (0 < n_seg)
    × (n_seg * seg_size ≤ nreduce)
    × (chunk_size * num_pes ≤ seg_size)
    × (chunk_size * num_pes ≤ pwrk)
    × (2 * num_pes ≤ reduce_sync_size)
Within pwrk num_pes nreduce unsupported = reduce_sync_size < 2 * num_pes

int_size-small : (n : ℕ) → n < 2 ^ 31 → int_size n ≡ n
int_size-small n h = ground (arith, h)

quotient_fits : (n m : ℕ) → n / m * m ≤ n
quotient_fits n m = let d = div-add-mod' n m in omega (arith, d)

module _ (array num_pes nreduce : ℕ) (half : nreduce / 2 + 1 ≤ array)
    (least : reduce_min_wrkdata_size ≤ array) where
  room : provided nreduce ≤ array
  unfolding max
  room = ground (arith, half, least)

  -- A work array of `pwrk` elements that is cut into chunks, one for each PE.
  chosen :
      (pwrk chunk : ℕ)
      → 0 < pwrk
      → chunk * num_pes ≤ pwrk
      → pwrk ≤ provided nreduce
      → 2 * num_pes ≤ reduce_sync_size
      → Within array num_pes nreduce (
          if nreduce / pwrk == 0
          then ring 1 nreduce (nreduce / num_pes)
          else ring (nreduce / pwrk) pwrk chunk)
  chosen pwrk chunk z c p y = elim (Bool-cases (nreduce / pwrk == 0)) [
    | inr some_seg ↦
        rw some_seg
          (ground (arith, some_seg), quotient_fits nreduce pwrk, c, omega (arith, c, p, room), y)
    | inl no_seg ↦
        (let q : nreduce / pwrk ≡ 0 = ground (arith, no_seg) in
          let d = div-add-mod' nreduce pwrk in
          let e : nreduce / pwrk * pwrk ≡ 0 * pwrk = ap (λ x. x * pwrk) q in
          let m : nreduce % pwrk < pwrk = mod-lt nreduce z in
          let f = quotient_fits nreduce num_pes in
          rw no_seg (omega arith, omega arith, f, omega (arith, d, e, m, f, p, room), y))
  ]

  small_provided : max (nreduce / 2) reduce_min_wrkdata_size ≤ provided nreduce
  unfolding max
  small_provided = ground arith

  small_positive : 0 < max (nreduce / 2) reduce_min_wrkdata_size
  unfolding max
  small_positive = ground arith

  module _ (some_pe : 0 < num_pes) (few : num_pes < 2 ^ 21)
      (flags : 2 * num_pes ≤ reduce_sync_size) where
    exact : int_size (1024 * num_pes) ≡ 1024 * num_pes
    exact = int_size-small (1024 * num_pes) (omega (arith, few))

    ring_sizes-Within : Within array num_pes nreduce (ring_sizes num_pes nreduce (provided nreduce))
    unfolding ring_sizes
    ring_sizes-Within = elim (Bool-cases (ltb (provided nreduce) (int_size (1024 * num_pes)))) [
      | inl short ↦ rw short (
          chosen (max (nreduce / 2) reduce_min_wrkdata_size)
            (max (nreduce / 2) reduce_min_wrkdata_size / num_pes) small_positive
            (quotient_fits _ num_pes) small_provided flags)
      | inr long ↦ rw long (
          chosen (int_size (1024 * num_pes)) 1024 (omega (arith, some_pe, exact))
            (omega (arith, exact)) (ground (arith, long)) flags)
    ]

  -- On one PE or more and fewer than 2^21, where the product of the PEs and the elements is below
  -- 2^31 and the work array has at least half the elements and one, and at least 1024: `to_all`
  -- reduces directly only where the sources of all PEs fit in the work array; the chunks of its
  -- ring fit in the work array and in a segment, the segments in the elements to reduce, and its
  -- flags in `pSync`; and it gives up only where the flags do not fit.
  pub to_all-Within :
      0 < num_pes
      → num_pes < 2 ^ 21
      → num_pes * nreduce < 2 ^ 31
      → Within array num_pes nreduce (to_all num_pes nreduce)
  unfolding to_all
  to_all-Within some_pe few small =
      let product = int_size-small (num_pes * nreduce) small in
      let twice = int_size-small (2 * num_pes) (omega (arith, few)) in
      elim (Bool-cases
        (leb (int_size (num_pes * nreduce)) (provided nreduce) && leb num_pes reduce_sync_size)) [
          | inl enough ↦
              (let a : int_size (num_pes * nreduce) ≤ provided nreduce = ground (arith, enough) in
                rw enough (omega (arith, a, product, room), ground (arith, enough)))
          | inr short ↦ elim (Bool-cases (leb (int_size (2 * num_pes)) reduce_sync_size)) [
            | inl flags ↦
                (let a = leb→le _ _ flags in
                  rw (short, flags) (ring_sizes-Within some_pe few (omega (arith, a, twice))))
            | inr many ↦
                (let a : reduce_sync_size < int_size (2 * num_pes) = ground (arith, many) in
                  rw (short, many) (omega (arith, a, twice)))
          ]
        ]
