-- ===== src/FaultSim/Rs/Berlekamp/Ends.antt =====
-- The loop of the Reed-Solomon decoders ends by its own test within its rounds, and the degrees in
-- its tables stay below the round numbers.
use row_armor.Base.{
  ℕ, zero, suc, ◌+◌, ◌-◌, ◌*◌, ◌<◌, ◌≤◌, ◌≡◌, ◌⊎◌, inl, inr, Bool, false, ◌&&◌, not, ltb, leb,
  if◌then◌else◌, List, ◌∷◌, get_or, set, length, length-set, length-replicate, get_or-set,
  Bool-cases, replicate, arith,
}
use row_armor.Base.Int.{ℤ, is_minus_one, ltb_ℤ}
use row_armor.FaultSim.Rs.Berlekamp.{
  Bm, int_at, last_nonzero, greatest, choose_q, new_degree, bm_step, bm_loop, bm_start,
}

last_nonzero-le : (d : List ℤ) (q : ℕ) → last_nonzero d q ≤ q
unfolding last_nonzero
last_nonzero-le d zero = omega arith
last_nonzero-le d (suc q) = ground (arith, last_nonzero-le d q)

greatest-le : (d u_lu : List ℤ) (j q : ℕ) → j ≤ q → greatest d u_lu j q ≤ q
unfolding greatest
greatest-le d u_lu zero q h = omega arith
greatest-le d u_lu (suc j) q h =
    elim (Bool-cases (not (is_minus_one (int_at d j)) && ltb_ℤ (int_at u_lu q) (int_at u_lu j))) [
      | inl e ↦ rw (e, greatest) (omega (arith, greatest-le d u_lu j j (omega arith)))
      | inr e ↦ rw (e, greatest) (greatest-le d u_lu j q (omega arith))
    ]

-- The earlier row that is chosen lies below the current one.
pub choose_q-lt : (d u_lu : List ℤ) (u : ℕ) → 0 < u → choose_q d u_lu u < u
unfolding choose_q
choose_q-lt d u_lu u h =
    let q = last_nonzero d (u - 1) in
    omega (arith, last_nonzero-le d (u - 1), greatest-le d u_lu q q (omega arith))

-- Up to the row after round `u` each degree is below the number of its row.
pub record HasDegrees (tt u : ℕ) (b : Bm) : Type 0 where
  pub size : length b.l ≡ 2 * tt + 2
  pub below : (k : ℕ) → k ≤ u + 1 → get_or b.l k 0 ≤ k - 1

module _ (row : List ℕ) (junk : ℕ) (s : List ℤ) (tt : ℕ) where
  pub bm_start-HasDegrees : HasDegrees tt 0 (bm_start row junk s tt)
  unfolding bm_start
  bm_start-HasDegrees = record {
    size = omega (arith, length-replicate (2 * tt) junk);
    below = start_below;
  }
    where
      start_below : (k : ℕ) → k ≤ 0 + 1 → get_or (0 ∷ 0 ∷ replicate (2 * tt) junk) k 0 ≤ k - 1
      start_below zero h = omega arith
      start_below (suc zero) h = omega arith
      start_below (suc (suc k)) h = absurd (omega arith)

  -- The degree that round `u` stores.
  abbrev next_degree : ℕ → Bm → ℕ
  next_degree u b =
      let q = choose_q b.d b.u_lu u in
      if is_minus_one (int_at b.d u)
      then get_or b.l u 0
      else new_degree (get_or b.l u 0) (get_or b.l q 0) u q

  bm_step-l :
      (columns u : ℕ) (b : Bm)
      → (bm_step row junk s columns u b).l ≡ set b.l (u + 1) (next_degree u b)
  unfolding bm_step
  bm_step-l columns u b = elim (Bool-cases (is_minus_one (int_at b.d u))) [
    | inl e ↦ elim (Bool-cases (ltb u columns)) [ inl f ↦ rw (e, f) | inr f ↦ rw (e, f) ]
    | inr e ↦ elim (Bool-cases (ltb u columns)) [ inl f ↦ rw (e, f) | inr f ↦ rw (e, f) ]
  ]

  next_degree-le : (u : ℕ) (b : Bm) → 0 < u → HasDegrees tt (u - 1) b → next_degree u b ≤ u
  unfolding new_degree
  next_degree-le u b h v =
      let q = choose_q b.d b.u_lu u in
      let lt = choose_q-lt b.d b.u_lu u h in
      ground (arith, v.below u (omega arith), v.below q (omega arith))

  bm_step-HasDegrees :
      (columns u : ℕ) (b : Bm)
      → u < 2 * tt
      → HasDegrees tt u b
      → HasDegrees tt (u + 1) (bm_step row junk s columns (u + 1) b)
  bm_step-HasDegrees columns u b top v =
      let same : u + 1 - 1 ≡ u = omega arith in
      let bound = next_degree-le (u + 1) b (omega arith) (rw same v) in
      record {
        size = rw bm_step-l (rw length-set v.size);
        below = λ k h. rw bm_step-l (
            ground
              (arith, get_or-set b.l (u + 1 + 1) k (next_degree (u + 1) b) 0, bound, v.below k));
      }

  -- Whether the loop goes on after round `u`.
  abbrev goes_on : ℕ → Bm → Bool
  goes_on u b = ltb u (2 * tt) && leb (get_or b.l (u + 1) 0) tt

  bm_loop-HasDegrees :
      (left u : ℕ) (b : Bm)
      → u + left ≡ 2 * tt
      → 0 < left
      → HasDegrees tt u b
      → let r = bm_loop row junk s tt left u b in
        (r.0 ≤ 2 * tt) × (0 < r.0) × (goes_on r.0 r.1 ≡ false) × HasDegrees tt r.0 r.1
  unfolding bm_loop
  bm_loop-HasDegrees zero u b e h v = absurd (omega arith)
  bm_loop-HasDegrees (suc left) u b e h v = elim (Bool-cases (goes_on (u + 1) b')) [
    | inl more ↦
        rw (more, bm_loop) (bm_loop-HasDegrees left (u + 1) b' (omega arith) (ground arith) v')
    | inr done ↦ rw (done, bm_loop) (omega arith, omega arith, done, v')
  ]
    where
      b' : Bm
      b' = bm_step row junk s (2 * tt) (u + 1) b

      v' : HasDegrees tt (u + 1) b'
      v' = bm_step-HasDegrees (2 * tt) u b (omega arith) v

  -- For `tt` above 0 the loop does not run out of rounds: it ends after 1 to 2 * tt of them because its own test
  -- fails, and the degree it leaves is at most the number of the last round.
  pub bm_loop_ends :
      0 < tt
      → let r = bm_loop row junk s tt (2 * tt) 0 (bm_start row junk s tt) in
        (0 < r.0)
        × (r.0 ≤ 2 * tt)
        × ((2 * tt ≤ r.0) ⊎ (tt < get_or r.1.l (r.0 + 1) 0))
        × (get_or r.1.l (r.0 + 1) 0 ≤ r.0)
  bm_loop_ends h =
      let r = bm_loop row junk s tt (2 * tt) 0 (bm_start row junk s tt) in
      let whole =
        bm_loop-HasDegrees (2 * tt) 0 (bm_start row junk s tt) (omega arith) (omega arith)
          bm_start-HasDegrees in
      let last = whole.3.below (r.0 + 1) (omega arith) in
      (whole.1, whole.0, ground (arith, whole.2), omega arith)

  -- The column `i + u - q` of a shifted term is below `2 * tt`, unless it is that of the last round
  -- and of row 0: there it is `2 * tt`.
  pub shift_column :
      (u i : ℕ) (b : Bm)
      → 0 < u
      → u ≤ 2 * tt
      → HasDegrees tt (u - 1) b
      → let q = choose_q b.d b.u_lu u in
        i ≤ get_or b.l q 0 → (i + u - q < 2 * tt) ⊎ ((u ≡ 2 * tt) × (q ≡ 0) × (i + u - q ≡ 2 * tt))
  shift_column u i b h top v le =
      let q = choose_q b.d b.u_lu u in ground (arith, choose_q-lt b.d b.u_lu u h, v.below q)
