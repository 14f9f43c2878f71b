-- ===== src/FaultSim/Symbols.antt =====
-- Symbols of a codeword and their syndromes, as the three decoders of reliability_eval/Fault_sim.cpp
-- compute them. A codeword is the list of its cells, one `unsigned int` for each bit.
pub mod Value
pub mod Single
use row_armor.Base.{ℕ, ◌+◌, ◌-◌, ◌*◌, ◌%◌, ◌^◌, bit_xor, ◌==◌, if◌then◌else◌, List, get_or}
use row_armor.Base.Loops.{for_range}
use row_armor.FaultSim.Config.{symbol_size}
use row_armor.FaultSim.Field.{exponent_of}

-- `symbol_value` of the symbol at `symbol_index`: its cells, the first one highest.
unfoldable pub symbol_value : List ℕ → ℕ → ℕ
symbol_value codeword symbol_index =
    for_range symbol_size 0
      (λ k value.
        bit_xor value
          (get_or codeword (symbol_index * 8 + k) 0 * 2 ^ (symbol_size - 1 - k) % 2 ^ 32))
      0

-- One round of the syndrome loop: the symbol's exponent, raised by `i` times its position.
unfoldable pub syndrome_step : List ℕ → ℕ → List ℕ → ℕ → ℕ → ℕ
syndrome_step row i codeword symbol_index s =
    let exponent = exponent_of row (symbol_value codeword symbol_index) in
    if exponent == 255 then s else bit_xor s (get_or row ((exponent + i * symbol_index) % 255) 0)

-- `s[i]` over the first `symbols` symbols, before it is put into index form.
unfoldable pub syndrome : List ℕ → ℕ → ℕ → List ℕ → ℕ
syndrome row i symbols codeword = for_range symbols 0 (syndrome_step row i codeword) 0
