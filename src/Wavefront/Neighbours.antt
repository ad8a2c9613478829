-- ===== src/Wavefront/Neighbours.antt =====
-- library/src/wf_coal_policy.cpp: the runs of lanes with adjacent memory.
use native.Mathlib.Nat.{mul-le-mul_left}
use roc_shmem.Common.{
  ℕ, zero, suc, ◌+◌, ◌-◌, ◌*◌, ◌%◌, ◌^◌, ◌<◌, ◌≤◌, ◌≡◌, refl, sym, ap, ◌∙◌, subst, Bool, true,
  false, ◌&&◌, ltb, ◌==◌, none, some, arith,
}
use roc_shmem.Wavefront.{
  Lane, Wave, wf_size, add64, lower, recombine, coalescable, lower_neighbor_coal, shift_right,
  through_int, coalesce,
}
use roc_shmem.Wavefront.Runs.{recombine_lem, through_int_lem}

-- Addresses have 64 bits, and a wavefront sends less than 2^31 bytes with the size of any lane.
pub record Fits (wave : Wave) : Type 0 where
  pub sources : (i : ℕ) → (wave i).source < 2 ^ 64
  pub dests : (i : ℕ) → (wave i).dest < 2 ^ 64
  pub sizes : (i : ℕ) → (wave i).size * 64 < 2 ^ 31

-- The lane `j` above `s` continues the memory of `s`.
pub record Continues (wave : Wave) (s j : ℕ) : Type 0 where
  pub active : (wave (s + j)).active ≡ true
  pub pe : (wave (s + j)).pe ≡ (wave s).pe
  pub size : (wave (s + j)).size ≡ (wave s).size
  pub source : (wave (s + j)).source ≡ ((wave s).source + j * (wave s).size) % 2 ^ 64
  pub dest : (wave (s + j)).dest ≡ ((wave s).dest + j * (wave s).size) % 2 ^ 64

-- The lane `s` sends the memory of itself and of the `k` - 1 lanes above it.
pub record Sends (wave : Wave) (s k : ℕ) : Type 0 where
  pub some_lanes : 0 < k
  pub inside : s + k ≤ 64
  pub message : coalesce wave s ≡ some ((wave s).size * k)
  pub continues : (j : ℕ) → j < k → Continues wave s j
  pub silent : (j : ℕ) → 0 < j → j < k → coalesce wave (s + j) ≡ none

-- What the test of the code says of a lane and its lower neighbour.
pub record Joined (wave : Wave) (i : ℕ) : Type 0 where
  pub active : (wave i).active ≡ true
  pub pe : (wave (suc i)).pe ≡ (wave i).pe
  pub size : (wave (suc i)).size ≡ (wave i).size
  pub source : (wave (suc i)).source ≡ ((wave i).source + (wave i).size) % 2 ^ 64
  pub dest : (wave (suc i)).dest ≡ ((wave i).dest + (wave i).size) % 2 ^ 64

below : (wave : Wave) (i : ℕ) → lower wave (suc i) ≡ wave i
below wave i = ap wave (omega arith)

-- The test, on two lanes.
abbrev test : Lane → Lane → Bool
test l me =
    l.active
    && (l.size % 2 ^ 32 == me.size)
    && (add64 (recombine l.source) me.size == me.source)
    && (add64 (recombine l.dest) me.size == me.dest)
    && (me.pe == l.pe)

-- What the test finds.
abbrev Found : Lane → Lane → Type 0
Found l me =
    (l.active ≡ true)
    × (me.pe ≡ l.pe)
    × (me.size ≡ l.size)
    × (me.source ≡ (l.source + l.size) % 2 ^ 64)
    × (me.dest ≡ (l.dest + l.size) % 2 ^ 64)

test-Found :
    (l me : Lane)
    → l.source < 2 ^ 64
    → l.dest < 2 ^ 64
    → l.size * 64 < 2 ^ 31
    → test l me ≡ true
    → Found l me
test-Found l me hs hd hz t =
    let size : l.size % 2 ^ 32 ≡ l.size = omega (arith, hz) in
    ground (arith, t, recombine_lem l.source hs, recombine_lem l.dest hd, size)

pub nonzero : (r : ℕ) → (r + 1 == 0) ≡ false
nonzero r = ground arith

-- The size of `r` + 1 lanes passes the `int`.
pub total_size :
    (z r : ℕ)
    → z * 64 < 2 ^ 31
    → r < 64
    → through_int (add64 (through_int z) (z * (r + 1 - 1))) ≡ z * (r + 1)
total_size z r hz lt =
    let e : r + 1 - 1 ≡ r = omega arith in
    let p : z * (r + 1) ≡ z + z * r = grind arith in
    let q : z * (r + 1) ≤ z * 64 = mul-le-mul_left z (omega (arith, lt)) in
    let one : through_int z ≡ z = through_int_lem z (omega (arith, hz)) in
    let sum : add64 z (z * r) ≡ z + z * r = omega (arith, hz, q, p) in
    let small : z + z * r < 2 ^ 31 = omega (arith, hz, q, p) in
    rw (e, one, sum, through_int_lem (z + z * r) small) (sym p)

module _ (wave : Wave) (fits : Fits wave) where
  pub coalescable-Joined : (i : ℕ) → coalescable wave (suc i) ≡ true → Joined wave i
  unfolding coalescable
  coalescable-Joined i h =
      let t : test (lower wave (suc i)) (wave (suc i)) ≡ true = ground (arith, h) in
      let (a, p, z, s, d) =
        test-Found (wave i) (wave (suc i)) (fits.sources i) (fits.dests i) (fits.sizes i)
          (subst (λ l. test l (wave (suc i)) ≡ true) (below wave i) t) in
      record { active = a; pe = p; size = z; source = s; dest = d }

  -- A set bit of the ballot that the sender `s` reads.
  pub above :
      (s j : ℕ)
      → s < 63
      → shift_right (lower_neighbor_coal wave) (s + 1) j ≡ true
      → (s + suc j < 64)
        × ((wave (s + suc j)).active ≡ true)
        × (coalescable wave (s + suc j) ≡ true)
  unfolding shift_right lower_neighbor_coal
  above s j lt h =
      let e : j + (s + 1) % 64 ≡ s + suc j = omega (arith, lt) in
      let h' : (ltb (s + suc j) 64
            && (ltb (s + suc j) wf_size
                && (wave (s + suc j)).active
                && coalescable wave (s + suc j)))
          ≡ true =
        ap (λ i. ltb i 64 && (ltb i wf_size && (wave i).active && coalescable wave i)) (sym e)
        ∙ h in
      ground (arith, h')

  pub start : (s : ℕ) → (wave s).active ≡ true → Continues wave s 0
  start s a =
      let e : s + 0 ≡ s = omega arith in
      record {
        active = ap (λ i. (wave i).active) e ∙ a;
        pe = ap (λ i. (wave i).pe) e;
        size = ap (λ i. (wave i).size) e;
        source = ap (λ i. (wave i).source) e ∙ omega (arith, fits.sources s);
        dest = ap (λ i. (wave i).dest) e ∙ omega (arith, fits.dests s);
      }

  further :
      (s j : ℕ)
      → Continues wave s j
      → (wave (s + suc j)).active ≡ true
      → Joined wave (s + j)
      → Continues wave s (suc j)
  further s j c a q =
      let e : s + suc j ≡ suc (s + j) = omega arith in
      record {
        active = a;
        pe = ap (λ i. (wave i).pe) e ∙ q.pe ∙ c.pe;
        size = ap (λ i. (wave i).size) e ∙ q.size ∙ c.size;
        source =
            ap (λ i. (wave i).source) e
            ∙ q.source
            ∙ step (wave s).source (wave (s + j)).source (wave s).size (wave (s + j)).size j
                c.source c.size;
        dest =
            ap (λ i. (wave i).dest) e
            ∙ q.dest
            ∙ step (wave s).dest (wave (s + j)).dest (wave s).size (wave (s + j)).size j c.dest
                c.size;
      }
    where
      step :
          (a b z z' j : ℕ)
          → b ≡ (a + j * z) % 2 ^ 64
          → z' ≡ z
          → (b + z') % 2 ^ 64 ≡ (a + suc j * z) % 2 ^ 64
      step a b z z' j e f = let p : suc j * z ≡ j * z + z = grind arith in omega (arith, e, f, p)

  pub chain :
      (s : ℕ)
      → s < 63
      → (wave s).active ≡ true
      → (j : ℕ) → ((i : ℕ) → i < j → shift_right (lower_neighbor_coal wave) (s + 1) i ≡ true)
      → Continues wave s j
  chain s lt a zero h = start s a
  chain s lt a (suc j) h =
      let (inside, on, coal) = above s j lt (h j (omega arith)) in
      let e : s + suc j ≡ suc (s + j) = omega arith in
      further s j (chain s lt a j (λ i l. h i (omega (arith, l)))) on
        (coalescable-Joined (s + j) (ap (coalescable wave) (sym e) ∙ coal))

  pub first_not_coalescable : coalescable wave 0 ≡ false
  unfolding coalescable
  first_not_coalescable = refl

  pub last_clear : shift_right (lower_neighbor_coal wave) (63 + 1) 0 ≡ false
  unfolding shift_right lower_neighbor_coal
  last_clear = rw first_not_coalescable (ground arith)

  pub end_clear : (s : ℕ) → s < 63 → shift_right (lower_neighbor_coal wave) (s + 1) (63 - s) ≡ false
  unfolding shift_right
  end_clear s lt =
      let e : 63 - s + (s + 1) % 64 ≡ 64 = omega (arith, lt) in
      ap (λ i. ltb i 64 && lower_neighbor_coal wave i) e
