-- ===== src/Collective/Result.antt =====
-- library/src/reverse_offload/mpi_transport.cpp: what a PE has when its call of a collective over
-- clusters returns.
use native.Mathlib.Nat.{mod-lt, div-lt_iff_lt-mul, mod-eq_of_lt}
use roc_shmem.Common.{ℕ, ◌+◌, ◌*◌, ◌/◌, ◌%◌, ◌<◌, ◌≡◌, refl, sym, ap, ◌∙◌, subst, arith, some}
use roc_shmem.Collective.{
  Call, Transfer, Phase, away, reading, sending, left, System, make_call, alltoall, fcollect,
}
use roc_shmem.Collective.Exchange.{
  Variant, Reach, starts, steps, AllEntered, Present, reads_done, puts_done,
}
use roc_shmem.Collective.Blocks.{pair-div, pair-mod, block_before, cluster_inside, rank_place}
use roc_shmem.Collective.Calls.{make_call-whole, clusters_have_places}
use roc_shmem.Collective.Invariant.{bytes, Inv, Past}
use roc_shmem.Collective.Invariant.Steps.{Step-Inv}

module _ (c : Call) (x : Transfer) (v : Variant) (src : ℕ → ℕ → ℕ)
    (whole : c.num_clust * c.clust_size ≡ c.pe_size) where
  pub Reach-Inv :
      (s : System) (reached : Reach c x v src s) → AllEntered c x v src s reached → Inv c x v src s
  unfolding AllEntered
  Reach-Inv _ (starts s f) en = record {
    read = λ p i t l h.
        absurd (let z = subst (λ ph. i < reads_done c x ph) (f p l) h in omega (arith, z));
    sent = λ p i t l h.
        absurd (let z = subst (λ ph. i < puts_done c x ph) (f p l) h in omega (arith, z));
    kept = λ p k l m h. elim (subst Present (f p l) h) [ ];
    passed = λ g p l h. elim (subst Past (f p l) h) [ ];
    ended = λ p l h. absurd (let z = sym (f p l) ∙ h in ground (arith, z));
  }
  Reach-Inv _ (steps s s' r st) en = Step-Inv c x v src whole s s' st en.1 (Reach-Inv s r en.0)

  -- A PE that has sent to every cluster, of which there is one, has read.
  sender_has_read :
      (ph : Phase) (i : ℕ)
      → i < c.num_clust
      → puts_done c x ph ≡ c.num_clust
      → reads_done c x ph ≡ x.reads
  sender_has_read away i l e = absurd (omega (arith, l, e))
  sender_has_read (reading j) i l e = absurd (omega (arith, l, e))
  sender_has_read (sending j) i l e = refl
  sender_has_read left i l e = refl

  -- The bytes that came from the PE `r`, by the block of the buffer of the PE between.
  module _ (s : System) (reached : Reach c x v src s) (entered : AllEntered c x v src s reached)
      (q : ℕ) (below : q < c.pe_size) (returned : s.phases q ≡ left) (r : ℕ) (other : r < c.pe_size)
      (some_place : 0 < c.clust_size) where
    -- The PE in the ring of `q` and in the cluster of `r`.
    abbrev pub between : ℕ
    between = q % c.clust_size + r / c.clust_size * c.clust_size

    place : between % c.clust_size ≡ q % c.clust_size
    place = pair-mod (r / c.clust_size) (q % c.clust_size) c.clust_size (mod-lt q some_place)

    cluster : between / c.clust_size ≡ r / c.clust_size
    cluster = pair-div (r / c.clust_size) (q % c.clust_size) c.clust_size (mod-lt q some_place)

    pub cluster_number : (p : ℕ) → p < c.pe_size → p / c.clust_size < c.num_clust
    cluster_number p l =
        (div-lt_iff_lt-mul {k = c.clust_size} {x = p} {y = c.num_clust} some_place).1
          (subst (λ n. p < n) (sym whole) l)

    between_inside : between < c.pe_size
    between_inside =
        let h =
          cluster_inside r (q % c.clust_size) c.num_clust c.clust_size c.pe_size whole other
            (mod-lt q some_place) in
        omega (arith, h)

    module _ (first : ℕ) (blocks : x.sent_offset (q / c.clust_size) ≡ first * bytes c)
        (enough : first + r % c.clust_size < x.reads)
        (turn : (first + r % c.clust_size) % c.clust_size ≡ r % c.clust_size) where
      abbrev pub read_number : ℕ
      read_number = first + r % c.clust_size

      pub result :
          (t : ℕ)
          → t < bytes c
          → s.dst q (r * bytes c + t) ≡ src r (x.read_offset between read_number + t)
      result t small =
          let inv = Reach-Inv s reached entered in
          let b = bytes c in
          let u = r % c.clust_size * b + t in
          let all_sent : puts_done c x (s.phases between) ≡ c.num_clust =
            inv.ended q below returned (r / c.clust_size) (cluster_number r other) in
          let went : q / c.clust_size < c.num_clust = cluster_number q below in
          let inside : u < b * c.clust_size =
            (let m = block_before (r % c.clust_size) c.clust_size b (mod-lt r some_place) in
              let e : c.clust_size * b ≡ b * c.clust_size = grind arith in
              omega (arith, m, e, small)) in
          let arrived =
            inv.sent between (q / c.clust_size) u between_inside
              (subst (λ n. q / c.clust_size < n) (sym all_sent) went) inside in
          let had =
            inv.read between read_number t between_inside
              (subst (λ n. read_number < n)
                (sym (sender_has_read (s.phases between) (q / c.clust_size) went all_sent)) enough)
              small in
          let to_q : between % c.clust_size + q / c.clust_size * c.clust_size ≡ q =
            ap (λ z. z + q / c.clust_size * c.clust_size) place ∙ rank_place q c.clust_size in
          let block : r * b + t ≡ between / c.clust_size * (b * c.clust_size) + u =
            (let d = rank_place r c.clust_size in
              ap (λ z. z * b + t) (sym d)
              ∙ grind arith
              ∙ ap (λ z. z * (b * c.clust_size) + u) (sym cluster)) in
          let sent : x.sent_offset (q / c.clust_size) + u ≡ read_number * b + t =
            ap (λ z. z + u) blocks ∙ grind arith in
          let from_r : between / c.clust_size * c.clust_size + read_number % c.clust_size ≡ r =
            (let d = rank_place r c.clust_size in
              ap (λ z. z * c.clust_size + read_number % c.clust_size) cluster
              ∙ (ap (λ z. r / c.clust_size * c.clust_size + z) turn ∙ omega (arith, d))) in
          ap (s.dst q) block
          ∙ ap (λ z. s.dst z (between / c.clust_size * (b * c.clust_size) + u)) (sym to_q)
          ∙ arrived
          ∙ ap (s.ata_buff between) sent
          ∙ had
          ∙ ap (λ z. src z (x.read_offset between read_number + t)) from_r

module _ (sqrt : ℕ → ℕ) (n type_size size : ℕ) (c : Call)
    (made : make_call sqrt n type_size size ≡ some c) (v : Variant) (src : ℕ → ℕ → ℕ)
    (s : System) where
  -- In every interleaving of the PEs of a team that splits into clusters, and in both variants of
  -- the all-to-all, where every read is of the source of a PE that has called, a PE that has left
  -- its call has at place r of its destination, byte by byte, the block at its own place of what
  -- the source of the PE r holds at the call, even where PEs write to their sources before they
  -- call and after they have left; after `gcen` such a PE first has to know that its cluster has
  -- read.
  pub alltoall-return :
      (reached : Reach c (alltoall c) v src s)
      → AllEntered c (alltoall c) v src s reached
      → (q r t : ℕ) → q < c.pe_size
      → r < c.pe_size
      → t < bytes c
      → s.phases q ≡ left
      → s.dst q (r * bytes c + t) ≡ src r (q * bytes c + t)
  unfolding alltoall
  alltoall-return reached entered q r t l m h returned =
      let whole = make_call-whole sqrt n type_size size c made in
      let z =
        clusters_have_places c (make_call-whole sqrt n type_size size c made) (omega (arith, l)) in
      let k = q / c.clust_size in
      let a : r % c.clust_size < c.clust_size = mod-lt r z in
      let b : (r % c.clust_size + k * c.clust_size) / c.clust_size ≡ k =
        pair-div k (r % c.clust_size) c.clust_size a in
      let p = between c (alltoall c) v src whole s reached entered q l returned r m z in
      let i = k * c.clust_size + r % c.clust_size in
      let swap : i ≡ r % c.clust_size + k * c.clust_size = omega arith in
      let e : (alltoall c).read_offset p i ≡ q * bytes c =
        (let place : p % c.clust_size ≡ q % c.clust_size =
            pair-mod (r / c.clust_size) (q % c.clust_size) c.clust_size (mod-lt q z) in
          let d : i / c.clust_size ≡ k = ap (λ j. j / c.clust_size) swap ∙ b in
          let w = rank_place q c.clust_size in
          ap (λ y. (y + i / c.clust_size * c.clust_size) * c.type_size * c.size) place
          ∙ ap (λ y. (q % c.clust_size + y * c.clust_size) * c.type_size * c.size) d
          ∙ ap (λ y. y * c.type_size * c.size) w
          ∙ grind arith) in
      result c (alltoall c) v src whole s reached entered q l returned r m z (k * c.clust_size)
        (grind arith)
        (cluster_inside q (r % c.clust_size) c.num_clust c.clust_size c.pe_size whole l a)
        (ap (λ j. j % c.clust_size) swap ∙ pair-mod k (r % c.clust_size) c.clust_size a) t h
      ∙ ap (λ o. src r (o + t)) e

  -- In every interleaving of the PEs of a team that splits into clusters, and in both variants of
  -- the collect, where every read is of the source of a PE that has called, a PE that has left
  -- its call has at place r of its destination the block that the source of the PE r holds at the
  -- call, even where PEs write to their sources before they call and after they have left; after
  -- `gcen` such a PE first has to know that its cluster has read.
  pub fcollect-return :
      (reached : Reach c (fcollect c) v src s)
      → AllEntered c (fcollect c) v src s reached
      → (q r t : ℕ) → q < c.pe_size
      → r < c.pe_size
      → t < bytes c
      → s.phases q ≡ left
      → s.dst q (r * bytes c + t) ≡ src r t
  unfolding fcollect
  fcollect-return reached entered q r t l m h returned =
      let z =
        clusters_have_places c (make_call-whole sqrt n type_size size c made) (omega (arith, l)) in
      let a : r % c.clust_size < c.clust_size = mod-lt r z in
      result c (fcollect c) v src (make_call-whole sqrt n type_size size c made) s reached entered q
        l returned r m z 0 (omega arith) (omega (arith, a))
        (mod-eq_of_lt (omega (arith, a)) ∙ omega arith) t h
      ∙ ap (λ o. src r o) (omega arith)
