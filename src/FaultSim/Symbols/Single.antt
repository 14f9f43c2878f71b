-- ===== src/FaultSim/Symbols/Single.antt =====
-- The syndromes of a word with one symbol that is not 0.
use row_armor.Base.{
  ℕ, ◌+◌, ◌*◌, ◌%◌, ◌<◌, ◌≡◌, ◌≢◌, ltb, ◌==◌, if◌then◌else◌, List, get_or, arith, inl, inr,
  Bool-cases,
}
use row_armor.Base.Loops.{for_range_inv}
use row_armor.Base.Xor.{zero-xor}
use row_armor.FaultSim.Field.Table.{IsPowerTable}
use row_armor.FaultSim.Symbols.{symbol_value, syndrome, syndrome_step}

-- Of the symbols of a word the one at `c` has the value `e`, which is not 0, and the others 0.
pub record IsSingle (codeword : List ℕ) (c e : ℕ) : Type 0 where
  pub value_pos : 0 < e
  pub value_lt : e < 256
  pub at : symbol_value codeword c ≡ e
  pub others : (k : ℕ) → k ≢ c → symbol_value codeword k ≡ 0

module _ (row : List ℕ) (t : IsPowerTable row) (codeword : List ℕ) (c e : ℕ)
    (single : IsSingle codeword c e) (i : ℕ) where
  abbrev contribution : ℕ
  contribution = get_or row ((t.exp e + i * c) % 255) 0

  syndrome_step-single :
      (k s : ℕ)
      → s ≡ (if ltb c k then contribution else 0)
      → syndrome_step row i codeword k s ≡ (if ltb c (k + 1) then contribution else 0)
  unfolding syndrome_step
  syndrome_step-single k s h = elim (Bool-cases (k == c)) [
    | inl hit ↦
        let same : k ≡ c = ground arith in
        ground (
          arith,
          single.at,
          t.exponent_of-exp e single.value_lt,
          t.exp_lt e single.value_pos single.value_lt,
          zero-xor contribution,
        )
    | inr miss ↦ ground (arith, single.others k (ground arith), t.exponent_of-exp 0 (omega arith))
  ]

  pub syndrome-single : (n : ℕ) → c < n → syndrome row i n codeword ≡ contribution
  unfolding syndrome
  syndrome-single n h =
      let whole =
        for_range_inv (λ k s. s ≡ (if ltb c k then contribution else 0))
          (syndrome_step row i codeword) n 0 n 0 (λ k s _ _ p. syndrome_step-single k s p)
          (omega arith) (ground arith) in
      ground arith
