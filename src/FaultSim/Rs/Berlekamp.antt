-- ===== src/FaultSim/Rs/Berlekamp.antt =====
-- The `do` loop of the Reed-Solomon decoders: the error location polynomial by Berlekamp's
-- iteration. Rows of `elp` below the current one are in index form, the current one in polynomial
-- form, as in the source. Entries that the source has not written hold the number `junk`.
pub mod Ends
pub mod Columns
use row_armor.Base.{
  ℕ, zero, suc, ◌+◌, ◌-◌, ◌*◌, ◌%◌, ◌≤◌, Bool, true, false, not, ◌&&◌, ltb, leb, ◌==◌,
  if◌then◌else◌, List, [], ◌∷◌, ◌++◌, get_or, set, replicate,
}
use row_armor.Base.Int.{
  ℤ, pos, minus_one, is_minus_one, ◌+ℤ◌, ◌-ℤ◌, ltb_ℤ, rem, xor_ℤ, to_unsigned, sub_ℕ,
}
use row_armor.Base.Loops.{for_range}
use row_armor.FaultSim.Config.{nn}
use row_armor.FaultSim.Field.{index_of, power_at}

-- The tables of the iteration.
pub record Bm : Type 0 where
  pub elp : List (List ℤ)
  pub d : List ℤ
  pub l : List ℕ
  pub u_lu : List ℤ

abbrev pub int_at : List ℤ → ℕ → ℤ
int_at xs i = get_or xs i (pos 0)

abbrev pub elp_at : List (List ℤ) → ℕ → ℕ → ℤ
elp_at elp u i = int_at (get_or elp u []) i

abbrev pub set_elp : List (List ℤ) → ℕ → ℕ → ℤ → List (List ℤ)
set_elp elp u i v = set elp u (set (get_or elp u []) i v)

-- `while ((d[q]==-1) && (q>0)) q--`.
unfoldable pub last_nonzero : List ℤ → ℕ → ℕ
last_nonzero d zero = zero
last_nonzero d (suc q) = elim (is_minus_one (int_at d (suc q))) [
  | true ↦ last_nonzero d q
  | false ↦ suc q
]

-- `do { j--; if (...) q = j; } while (j>0)`, with `j` rounds left.
unfoldable pub greatest : List ℤ → List ℤ → ℕ → ℕ → ℕ
greatest d u_lu zero q = q
greatest d u_lu (suc j) q =
    greatest d u_lu j
      (if not (is_minus_one (int_at d j)) && ltb_ℤ (int_at u_lu q) (int_at u_lu j) then j else q)

unfoldable pub choose_q : List ℤ → List ℤ → ℕ → ℕ
unfolding last_nonzero greatest
choose_q d u_lu u = let q = last_nonzero d (u - 1) in greatest d u_lu q q

-- Degree of the new polynomial.
unfoldable pub new_degree : ℕ → ℕ → ℕ → ℕ → ℕ
new_degree l_u l_q u q = if ltb (l_q + u - q) l_u then l_u else l_q + u - q

module _ (row : List ℕ) (junk : ℕ) where
  -- `elp[u][i] = index_of(elp[u][i])`.
  unfoldable pub index_entry : ℕ → ℕ → List (List ℤ) → List (List ℤ)
  index_entry u i elp = set_elp elp u i (index_of row junk (to_unsigned (elp_at elp u i)))

  -- The row for a discrepancy of 0: a copy.
  unfoldable pub keep_entry : ℕ → ℕ → List (List ℤ) → List (List ℤ)
  unfolding index_entry
  keep_entry u i elp = index_entry u i (set_elp elp (u + 1) i (elp_at elp u i))

  -- The term that row `q` adds to the new row.
  unfoldable pub shift_entry : List ℤ → ℕ → ℕ → ℕ → List (List ℤ) → List (List ℤ)
  shift_entry d u q i elp =
      if is_minus_one (elp_at elp q i)
      then elp
      else set_elp elp (u + 1) (i + u - q)
          (pos (power_at row (rem (int_at d u +ℤ pos nn -ℤ int_at d q +ℤ elp_at elp q i) nn)))

  -- The term that row `u` adds to the new row.
  unfoldable pub add_entry : ℕ → ℕ → List (List ℤ) → List (List ℤ)
  unfolding index_entry
  add_entry u i elp =
      index_entry u i (set_elp elp (u + 1) i (xor_ℤ (elp_at elp (u + 1) i) (elp_at elp u i)))

  unfoldable pub keep_row : ℕ → Bm → Bm
  unfolding keep_entry
  keep_row u b =
      let l_u = get_or b.l u 0 in
      record b { elp = for_range (l_u + 1) 0 (keep_entry u) b.elp; l = set b.l (u + 1) l_u }

  unfoldable pub raise_row : ℕ → ℕ → Bm → Bm
  unfolding shift_entry add_entry new_degree
  raise_row columns u b =
      let q = choose_q b.d b.u_lu u in
      let l_u = get_or b.l u 0 in
      let l_q = get_or b.l q 0 in
      let cleared = for_range columns 0 (λ i elp. set_elp elp (u + 1) i (pos 0)) b.elp in
      let shifted = for_range (l_q + 1) 0 (shift_entry b.d u q) cleared in
      record b {
        elp = for_range (l_u + 1) 0 (add_entry u) shifted;
        l = set b.l (u + 1) (new_degree l_u l_q u q);
      }

  -- One term of the next discrepancy.
  unfoldable pub discrepancy_step : List ℤ → List (List ℤ) → ℕ → ℕ → ℤ → ℤ
  discrepancy_step s elp u i d =
      let e = elp_at elp (u + 1) i in
      let si = int_at s (u + 1 - i) in
      if not (is_minus_one si) && not (to_unsigned e == 0)
      then xor_ℤ d (pos (power_at row (rem (si +ℤ index_of row junk (to_unsigned e)) nn)))
      else d

  unfoldable pub discrepancy : List ℤ → ℕ → Bm → ℤ
  unfolding discrepancy_step
  discrepancy s u b =
      let si = int_at s (u + 1) in
      let first = if is_minus_one si then pos 0 else pos (power_at row si) in
      index_of row junk
        (to_unsigned (for_range (get_or b.l (u + 1) 0) 1 (discrepancy_step s b.elp u) first))

  -- One round, with `u` already raised. No discrepancy is computed in the last one.
  unfoldable pub bm_step : List ℤ → ℕ → ℕ → Bm → Bm
  unfolding keep_row raise_row discrepancy
  bm_step s columns u b =
      let b1 = if is_minus_one (int_at b.d u) then keep_row u b else raise_row columns u b in
      let b2 = record b1 { u_lu = set b1.u_lu (u + 1) (sub_ℕ u (get_or b1.l (u + 1) 0)) } in
      if ltb u columns then record b2 { d = set b2.d (u + 1) (discrepancy s u b2) } else b2

  -- The loop, with the rounds that are left at most; the result is the last `u`, and the tables.
  unfoldable pub bm_loop : List ℤ → ℕ → ℕ → ℕ → Bm → ℕ × Bm
  bm_loop s tt zero u b = (u, b)
  bm_loop s tt (suc left) u b =
      let b' = bm_step s (2 * tt) (u + 1) b in
      elim (ltb (u + 1) (2 * tt) && leb (get_or b'.l (u + 1 + 1) 0) tt) [
        | true ↦ bm_loop s tt left (u + 1) b'
        | false ↦ (u + 1, b')
      ]

  -- The tables before the loop.
  unfoldable pub bm_start : List ℤ → ℕ → Bm
  bm_start s tt = record {
    elp =
        (pos 0 ∷ replicate (2 * tt - 1) minus_one)
        ∷ (pos 1 ∷ replicate (2 * tt - 1) (pos 0))
        ∷ replicate (2 * tt) (replicate (2 * tt) (pos junk));
    d = pos 0 ∷ int_at s 1 ∷ replicate (2 * tt) (pos junk);
    l = 0 ∷ 0 ∷ replicate (2 * tt) junk;
    u_lu = minus_one ∷ pos 0 ∷ replicate (2 * tt) (pos junk);
  }
