-- ===== src/FaultSim/Rs/Forney.antt =====
-- The error values of the Reed-Solomon decoders, from the error evaluator polynomial.
use row_armor.Base.{
  ℕ, zero, suc, ◌+◌, ◌-◌, ◌*◌, ◌%◌, bit_xor, ◌&&◌, not, ◌==◌, if◌then◌else◌, List, [], ◌∷◌, get_or,
  set,
}
use row_armor.Base.Int.{ℤ, pos, is_minus_one, ◌+ℤ◌, ◌-ℤ◌, rem}
use row_armor.Base.Loops.{for_range}
use row_armor.FaultSim.Config.{nn}
use row_armor.FaultSim.Field.{power_at, index_of}
use row_armor.FaultSim.Rs.Berlekamp.{int_at}

module _ (row : List ℕ) (junk : ℕ) where
  -- The value with which the entry `z[i]` starts, from `s[i]` and `elp[u][i]`.
  unfoldable pub z_start : ℤ → ℤ → ℕ
  z_start si ei =
      if not (is_minus_one si) && not (is_minus_one ei)
      then bit_xor (power_at row si) (power_at row ei)
      else (if not (is_minus_one si) && is_minus_one ei
          then power_at row si
          else (if is_minus_one si && not (is_minus_one ei) then power_at row ei else 0))

  unfoldable pub z_step : List ℤ → List ℤ → ℕ → ℕ → ℕ → ℕ
  z_step s e i j z =
      if not (is_minus_one (int_at s j)) && not (is_minus_one (int_at e (i - j)))
      then bit_xor z (power_at row (rem (int_at e (i - j) +ℤ int_at s j) nn))
      else z

  -- `left` entries of the array `z` from number `i` on, in index form.
  unfoldable pub z_entries : List ℤ → List ℤ → ℕ → ℕ → List ℤ
  unfolding z_start z_step
  z_entries s e zero i = []
  z_entries s e (suc left) i =
      index_of row junk (for_range (i - 1) 1 (z_step s e i) (z_start (int_at s i) (int_at e i)))
      ∷ z_entries s e left (i + 1)

  -- The array `z`, of which `z[0]` is not used.
  unfoldable pub z_table : List ℤ → List ℤ → ℕ → List ℤ
  unfolding z_entries
  z_table s e l_u = pos junk ∷ z_entries s e l_u 1

  unfoldable pub numerator : List ℤ → ℕ → ℕ → ℕ
  numerator z l_u root =
      for_range l_u 1
        (λ j v.
          if is_minus_one (int_at z j)
          then v
          else bit_xor v (power_at row (rem (int_at z j +ℤ pos (j * root)) nn)))
        1

  unfoldable pub denominator : List ℕ → ℕ → ℕ → ℕ → ℤ
  denominator loc l_u i root =
      rem
        (for_range l_u 0
          (λ j q.
            if j == i
            then q
            else q +ℤ index_of row junk (bit_xor 1 (get_or row ((get_or loc j 0 + root) % nn) 0)))
          (pos 0))
        nn

  -- One round of the loop over the locations: `recd` with the error at `loc[i]` taken off.
  unfoldable pub repair_step : List ℤ → List ℕ → List ℕ → ℕ → ℕ → List ℕ → List ℕ
  unfolding numerator denominator
  repair_step z root loc l_u i recd =
      let top = numerator z l_u (get_or root i 0) in
      let q = denominator loc l_u i (get_or root i 0) in
      let err = power_at row (rem (index_of row junk top -ℤ q +ℤ pos nn) nn) in
      let at = get_or loc i 0 in
      if top == 0 then recd else set recd at (bit_xor (get_or recd at 0) err)

  unfoldable pub repair : List ℤ → List ℕ → List ℕ → ℕ → List ℕ → List ℕ
  unfolding repair_step
  repair z root loc l_u recd = for_range l_u 0 (repair_step z root loc l_u) recd
