-- ===== src/Wavefront/Messages.antt =====
-- library/src/wf_coal_policy.cpp: the messages that the lanes of a wavefront send.
use roc_shmem.Common.{
  ℕ, zero, suc, ◌+◌, ◌-◌, ◌*◌, ◌%◌, ◌<◌, ◌≡◌, ◌≢◌, refl, sym, ap, ◌∙◌, subst, inl, inr, true, false,
  ◌&&◌, ltb, ltb→lt, lt→ltb, ◌==◌, none, some, Bool-cases, arith,
}
use roc_shmem.Wavefront.{Wave, coalescable, lower_neighbor_coal, shift_right, coalesce}
use roc_shmem.Wavefront.Runs.{Run, run_below, first_clear_lem}
use roc_shmem.Wavefront.Neighbours.{
  Fits, coalescable-Joined, above, start, chain, first_not_coalescable, last_clear, end_clear,
  Continues, Sends, nonzero, total_size,
}

module _ (wave : Wave) (fits : Fits wave) where
  quiet_lane : (i : ℕ) → coalescable wave i ≡ true → coalesce wave i ≡ none
  unfolding coalesce
  quiet_lane i c = rw c refl

  -- The run of set bits that the sender reads, and the lanes that it continues to.
  pub run :
      (s : ℕ)
      → s < 64
      → (wave s).active ≡ true
      → (r : ℕ) × (s + r < 64)
        × Run (shift_right (lower_neighbor_coal wave) (s + 1)) r
        × ((j : ℕ) → j < r + 1 → Continues wave s j)
        × ((j : ℕ) → 0 < j → j < r + 1 → coalesce wave (s + j) ≡ none)
  run s lt a = elim (Bool-cases (s == 63)) [
    | inl last ↦
        (let e : s ≡ 63 = ground (arith, last) in
          (
            0,
            omega (arith, lt),
            record {
              ones = λ i l. absurd (omega (arith, l));
              clear =
                  ap (λ s. shift_right (lower_neighbor_coal wave) (s + 1) 0) e
                  ∙ last_clear wave fits;
            },
            λ j l. subst (Continues wave s) (omega (arith, l)) (start wave fits s a),
            λ j p l. absurd (omega (arith, p, l)),
          ))
    | inr other ↦
        (let lt' : s < 63 = ground (arith, lt, other) in
          let (r, le, bits) =
            run_below (63 - s) (shift_right (lower_neighbor_coal wave) (s + 1))
              (end_clear wave fits s lt') in
          (
            r,
            omega (arith, le, lt'),
            bits,
            λ j l. chain wave fits s lt' a j (λ i k. bits.ones i (omega (arith, k, l))),
            λ j p l.
                let e : suc (j - 1) ≡ j = omega (arith, p) in
                subst (λ j. coalesce wave (s + j) ≡ none) e
                  (quiet_lane (s + suc (j - 1))
                    (above wave fits s (j - 1) lt' (bits.ones (j - 1) (omega (arith, p, l)))).2),
          ))
  ]

  next_clear :
      (s r : ℕ)
      → s + (r + 1) < 64
      → shift_right (lower_neighbor_coal wave) (s + 1) r ≡ false
      → lower_neighbor_coal wave (s + (r + 1)) ≡ false
  unfolding shift_right
  next_clear s r lt h =
      let e : r + (s + 1) % 64 ≡ s + (r + 1) = omega (arith, lt) in
      let h' : (ltb (s + (r + 1)) 64 && lower_neighbor_coal wave (s + (r + 1))) ≡ false =
        ap (λ i. ltb i 64 && lower_neighbor_coal wave i) (sym e) ∙ h in
      ground (arith, h', lt)

  message :
      (s r : ℕ)
      → coalescable wave s ≡ false
      → r < 64
      → Run (shift_right (lower_neighbor_coal wave) (s + 1)) r
      → coalesce wave s ≡ some ((wave s).size * (r + 1))
  unfolding coalesce
  message s r c lt bits =
      let found =
        first_clear_lem 64 0 r (shift_right (lower_neighbor_coal wave) (s + 1))
          (λ i h k. bits.ones i k) bits.clear (omega arith) (omega (arith, lt)) in
      rw (c, found, nonzero r) (ap some (total_size (wave s).size r (fits.sizes s) lt))

  -- A lane that sends, sends for the lanes of its run.
  pub sender-Sends :
      (s : ℕ)
      → s < 64
      → (wave s).active ≡ true
      → coalescable wave s ≡ false
      → (k : ℕ) × Sends wave s k × ((s + k < 64) → lower_neighbor_coal wave (s + k) ≡ false)
  sender-Sends s lt a c =
      let (r, inside, bits, reach, silent) = run s lt a in
      (
        r + 1,
        record {
          some_lanes = omega arith;
          inside = omega (arith, inside);
          message = message s r c (omega (arith, inside)) bits;
          continues = reach;
          silent = silent;
        },
        λ more. next_clear s r more bits.clear,
      )

  -- The lane that sends for the lane `i`.
  pub record Answered (i : ℕ) : Type 0 where
    pub sender : ℕ
    pub lanes : ℕ
    pub above_sender : ℕ
    pub is_active : (wave sender).active ≡ true
    pub is_sender : coalescable wave sender ≡ false
    pub place : i ≡ sender + above_sender
    pub in_run : above_sender < lanes
    pub sends : Sends wave sender lanes
    pub ends : (sender + lanes < 64) → lower_neighbor_coal wave (sender + lanes) ≡ false

  own : (i : ℕ) → i < 64 → (wave i).active ≡ true → coalescable wave i ≡ false → Answered i
  own i lt a c =
      let (k, sends, ends) = sender-Sends i lt a c in
      record {
        sender = i;
        lanes = k;
        above_sender = 0;
        is_active = a;
        is_sender = c;
        place = omega arith;
        in_run = sends.some_lanes;
        sends = sends;
        ends = ends;
      }

  ballot :
      (i : ℕ)
      → i < 64
      → (wave i).active ≡ true
      → coalescable wave i ≡ true
      → lower_neighbor_coal wave i ≡ true
  unfolding lower_neighbor_coal
  ballot i lt a c = rw (lt→ltb i 64 lt, a, c) refl

  passed :
      (i : ℕ)
      → suc i < 64
      → (wave (suc i)).active ≡ true
      → coalescable wave (suc i) ≡ true
      → Answered i
      → Answered (suc i)
  passed i lt a c q = record {
    sender = q.sender;
    lanes = q.lanes;
    above_sender = suc q.above_sender;
    is_active = q.is_active;
    is_sender = q.is_sender;
    place = omega (arith, q.place);
    in_run = elim (Bool-cases (suc q.above_sender == q.lanes)) [
      | inr other ↦ ground (arith, q.in_run, other)
      | inl last ↦ absurd (
          let e : suc i ≡ q.sender + q.lanes = ground (arith, last, q.place) in
          let on : lower_neighbor_coal wave (q.sender + q.lanes) ≡ true =
            ap (lower_neighbor_coal wave) (sym e) ∙ ballot (suc i) lt a c in
          let off = q.ends (omega (arith, e, lt)) in let f : true ≡ false = sym on ∙ off in cc)
    ];
    sends = q.sends;
    ends = q.ends;
  }

  answered : (i : ℕ) → i < 64 → (wave i).active ≡ true → Answered i
  answered zero lt a = own zero lt a (first_not_coalescable wave fits)
  answered (suc i) lt a = elim (Bool-cases (coalescable wave (suc i))) [
    | inr alone ↦ own (suc i) lt a alone
    | inl joined ↦
        passed i lt a joined
          (answered i (omega (arith, lt)) (coalescable-Joined wave fits i joined).active)
  ]

  no_later : (s k t d : ℕ) → Sends wave s k → coalesce wave t ≢ none → t ≡ s + d → d < k → t ≡ s
  no_later s k t d q n e lt = elim (Bool-cases (d == 0)) [
    | inl z ↦ ground (arith, e, z)
    | inr p ↦ absurd (n (ap (coalesce wave) e ∙ q.silent d (ground (arith, p)) lt))
  ]

  speaks : (s k : ℕ) → Sends wave s k → coalesce wave s ≢ none
  speaks s k q e = let f : none ≡ some ((wave s).size * k) = sym e ∙ q.message in cc

  -- Where the addresses are below 2^64 and 64 blocks of each lane's size are below 2^31 bytes,
  -- each active lane of a wavefront has just one lane that sends for it: its message begins with
  -- its own memory, has one block for each of a run of active lanes with adjacent memory on the
  -- same PE, and the run has the lane in it.
  pub coalesce-Answered :
      (i : ℕ)
      → i < 64
      → (wave i).active ≡ true
      → (q : Answered i) × ((s k d : ℕ) → Sends wave s k → i ≡ s + d → d < k → s ≡ q.sender)
  coalesce-Answered i lt a =
      let q = answered i lt a in
      (
        q,
        λ s k d r e l. elim (Bool-cases (ltb s q.sender)) [
          | inl early ↦ sym (
              no_later s k q.sender (q.sender - s) r (speaks q.sender q.lanes q.sends)
                (ground (arith, early)) (omega (arith, e, l, q.place, ltb→lt _ _ early)))
          | inr late ↦
              no_later q.sender q.lanes s (s - q.sender) q.sends (speaks s k r)
                (ground (arith, late)) (ground (arith, e, late, q.place, q.in_run))
        ],
      )
