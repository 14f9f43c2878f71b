-- ===== src/FaultSim/Amd.antt =====
-- `error_correction_AMDCHIPKILL` of reliability_eval/Fault_sim.cpp: correction of one symbol, which
-- is what one chip sends in two beats.
pub mod Correct
pub mod Quiet
pub mod Weighted
use row_armor.Base.{
  ℕ, ◌+◌, ◌-◌, ◌*◌, ◌%◌, ◌^◌, bit_xor, ◌&&◌, ltb, ◌==◌, if◌then◌else◌, List, [], ◌∷◌, get_or, set,
}
use row_armor.Base.Loops.{for_range}
use row_armor.FaultSim.Config.{
  amdchipkill_cw_symbol_num, chip_num, symbol_size, ResultType, ne, ce, due,
}
use row_armor.FaultSim.Field.{exponent_of, last_match, get_abit}
use row_armor.FaultSim.Symbols.{symbol_value, syndrome}

-- One round of the loop for `S0`, which takes the exponent as it is.
unfoldable pub s0_step : List ℕ → List ℕ → ℕ → ℕ → ℕ
s0_step row codeword symbol_index s =
    let exponent = exponent_of row (symbol_value codeword symbol_index) in
    if exponent == 255 then s else bit_xor s (get_or row exponent 0)

unfoldable pub s0_of : List ℕ → List ℕ → ℕ
unfolding s0_step
s0_of row codeword = for_range amdchipkill_cw_symbol_num 0 (s0_step row codeword) 0

-- The loop for `S1` raises the exponent by the position: a syndrome with the factor 1.
unfoldable pub s1_of : List ℕ → List ℕ → ℕ
s1_of row codeword = syndrome row 1 amdchipkill_cw_symbol_num codeword

-- `(q+255-p)%255` on `unsigned int`s.
unfoldable pub error_symbol_position : ℕ → ℕ → ℕ
error_symbol_position p q = (q + 255 + 2 ^ 32 - p) % 2 ^ 32 % 255

-- The value `S0` is taken off the symbol at a position.
unfoldable pub correct_step : ℕ → ℕ → ℕ → List ℕ → List ℕ
correct_step position s0 symbol_index codeword =
    let k = position * symbol_size + symbol_index in
    set codeword k (bit_xor (get_or codeword k 0) (get_abit s0 (symbol_size - 1 - symbol_index)))

unfoldable pub correct_symbol : ℕ → ℕ → List ℕ → List ℕ
unfolding correct_step
correct_symbol position s0 codeword = for_range symbol_size 0 (correct_step position s0) codeword

-- `set<int>::insert`, on the elements in order.
unfoldable pub insert_position : ℕ → List ℕ → List ℕ
insert_position p [] = p ∷ []
insert_position p (x ∷ xs) =
    if ltb p x then p ∷ x ∷ xs else (if p == x then x ∷ xs else x ∷ insert_position p xs)

-- The result, with the codeword and the set of chips as they are left.
pub record AmdResult : Type 0 where
  pub result : ResultType
  pub codeword : List ℕ
  pub error_chip_position : List ℕ

-- `junk_p` and `junk_q` are the unspecified contents of the local variables `p` and `q`, which the
-- search leaves alone where a syndrome is 0.
unfoldable pub error_correction_amdchipkill : List ℕ → ℕ → ℕ → List ℕ → List ℕ → AmdResult
unfolding s0_of s1_of error_symbol_position correct_symbol
error_correction_amdchipkill row junk_p junk_q codeword error_chip_position =
    let s0 = s0_of row codeword in
    let s1 = s1_of row codeword in
    let p = last_match 255 row 0 s0 junk_p in
    let q = last_match 255 row 0 s1 junk_q in
    let position = error_symbol_position p q in
    if s0 == 0 && s1 == 0
    then (record { result = ne; codeword = codeword; error_chip_position = error_chip_position })
    else (if ltb position chip_num
        then (record {
          result = ce;
          codeword = correct_symbol position s0 codeword;
          error_chip_position = insert_position position error_chip_position;
        })
        else (record {
          result = due;
          codeword = codeword;
          error_chip_position = error_chip_position;
        }))
