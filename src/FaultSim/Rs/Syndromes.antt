-- ===== src/FaultSim/Rs/Syndromes.antt =====
-- The first loop of the Reed-Solomon decoders: the received symbols and the syndromes.
use row_armor.Base.{ℕ, zero, suc, ◌+◌, ◌*◌, Bool, false, not, ◌||◌, ◌==◌, List, [], ◌∷◌}
use row_armor.Base.Int.{ℤ, pos}
use row_armor.FaultSim.Field.{index_of}
use row_armor.FaultSim.Symbols.{symbol_value, syndrome}
use row_armor.FaultSim.Rs.Code.{Code}

-- `recd`: the values of `left` symbols from `symbol_index` on. The source fills it once in each
-- round of the loop over `i`, always with the same values.
unfoldable pub received : ℕ → ℕ → List ℕ → List ℕ
received zero symbol_index codeword = []
received (suc left) symbol_index codeword =
    symbol_value codeword symbol_index ∷ received left (symbol_index + 1) codeword

-- The syndromes of `left` factors from `i` on, as values.
unfoldable pub syndromes_from : List ℕ → ℕ → List ℕ → ℕ → ℕ → List ℕ
syndromes_from row symbols codeword zero i = []
syndromes_from row symbols codeword (suc left) i =
    syndrome row i symbols codeword ∷ syndromes_from row symbols codeword left (i + 1)

-- `syn_error`: some syndrome is not 0.
unfoldable pub any_nonzero : List ℕ → Bool
any_nonzero [] = false
any_nonzero (s ∷ rest) = not (s == 0) || any_nonzero rest

unfoldable pub to_index : List ℕ → ℕ → List ℕ → List ℤ
to_index row junk [] = []
to_index row junk (s ∷ rest) = index_of row junk s ∷ to_index row junk rest

module _ (row : List ℕ) (junk : ℕ) (code : Code) (codeword : List ℕ) where
  unfoldable pub syndrome_values : List ℕ
  unfolding syndromes_from
  syndrome_values = syndromes_from row code.nn_short codeword (2 * code.tt) 1

  -- The array `s` in index form; `s[0]` is never written.
  unfoldable pub syndrome_index : List ℤ
  unfolding syndrome_values to_index
  syndrome_index = pos junk ∷ to_index row junk syndrome_values
