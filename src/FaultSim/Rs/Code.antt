-- ===== src/FaultSim/Rs/Code.antt =====
-- In what the two Reed-Solomon decoders of reliability_eval/Fault_sim.cpp differ.
use row_armor.Base.{ℕ, ◌+◌, ◌/◌, Bool, not, ◌&&◌, ◌==◌}

pub record Code : Type 0 where
  -- Number of symbols that can be corrected.
  pub tt : ℕ
  -- Length of the shortened codeword in symbols.
  pub nn_short : ℕ
  -- From more errors than this on, the error locations have to lie in one chip.
  pub free : ℕ
  -- Whether a location passes beside the first location.
  pub same_chip : ℕ → ℕ → Bool

-- `loc[index] / 4` has to be the chip of `loc[0]`, or the one 10 below it.
unfoldable pub ooc_same_chip : ℕ → ℕ → Bool
ooc_same_chip loc0 loc =
    let reference_value = loc0 / 4 in
    let divided_value = loc / 4 in
    not (not (divided_value == reference_value) && not (divided_value + 10 == reference_value))

unfoldable pub qpc_same_chip : ℕ → ℕ → Bool
qpc_same_chip loc0 loc = loc / 4 == loc0 / 4

abbrev pub ooc_code : Code
ooc_code = record { tt = 8; nn_short = 80; free = 4; same_chip = ooc_same_chip }

abbrev pub qpc_code : Code
qpc_code = record { tt = 4; nn_short = 40; free = 2; same_chip = qpc_same_chip }
