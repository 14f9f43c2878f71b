-- ===== src/FaultSim/Rs/Chien.antt =====
-- The search of the Reed-Solomon decoders for the roots of the error location polynomial, and the
-- tests on the locations found.
pub mod Direct
use row_armor.Base.{
  ℕ, zero, suc, ◌+◌, ◌-◌, ◌%◌, bit_xor, Bool, true, false, ◌&&◌, ◌||◌, not, ltb, leb, ◌==◌,
  if◌then◌else◌, List, [], ◌∷◌, ◌++◌, get_or,
}
use row_armor.Base.Int.{ℤ, pos, is_minus_one, ◌+ℤ◌, rem}
use row_armor.Base.Loops.{for_range}
use row_armor.FaultSim.Config.{nn}
use row_armor.FaultSim.Field.{power_at}
use row_armor.FaultSim.Rs.Code.{Code}

-- The registers, and the roots and locations found so far. The arrays `root` and `loc` grow at
-- their ends, and `count` is their length.
pub record Search : Type 0 where
  pub reg : List ℤ
  pub root : List ℕ
  pub loc : List ℕ

-- One pass of the inner loop over the registers from number `j` on, with the sum `q`.
unfoldable pub turn : List ℕ → List ℤ → ℕ → ℕ → List ℤ × ℕ
turn row [] j q = ([], q)
turn row (r ∷ rest) j q =
    let moved = rem (r +ℤ pos j) nn in
    let (rest', q') =
      turn row rest (j + 1) (if is_minus_one r then q else bit_xor q (power_at row moved)) in
    ((if is_minus_one r then r else moved) ∷ rest', q')

unfoldable pub chien_step : List ℕ → ℕ → Search → Search
unfolding turn
chien_step row i s =
    let (reg', q) = turn row s.reg 1 1 in
    if q == 0
    then (record { reg = reg'; root = s.root ++ (i ∷ []); loc = s.loc ++ (nn - i) ∷ [] })
    else (record { reg = reg'; root = s.root; loc = s.loc })

-- `left` rounds of the loop from `i` on.
unfoldable pub chien_rounds : List ℕ → ℕ → ℕ → Search → Search
unfolding chien_step
chien_rounds row left i s = for_range left i (chien_step row) s

unfoldable pub chien : List ℕ → List ℤ → Search
chien row reg = chien_rounds row nn 1 (record { reg = reg; root = []; loc = [] })

unfoldable pub all_pass : (ℕ → Bool) → List ℕ → Bool
all_pass test [] = true
all_pass test (x ∷ xs) = test x && all_pass test xs

-- `CE_cases`: no location in the padding, and, for more than `free` errors, all in one chip.
unfoldable pub ce_cases : Code → ℕ → List ℕ → Bool
unfolding all_pass
ce_cases code l_u loc =
    all_pass (λ x. ltb x code.nn_short) loc
    && (not (ltb code.free l_u) || all_pass (code.same_chip (get_or loc 0 0)) loc)
