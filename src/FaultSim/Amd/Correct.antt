-- ===== src/FaultSim/Amd/Correct.antt =====
-- What `error_correction_AMDCHIPKILL` corrects, on the words that `main` sends: all cells 0 but
-- those of the faulty chips.
use row_armor.Base.{
  ℕ, ◌+◌, ◌-◌, ◌*◌, ◌/◌, ◌%◌, ◌<◌, ◌≡◌, ◌≢◌, refl, bit_xor, ltb, leb, ◌==◌, ◌&&◌, if◌then◌else◌,
  List, get_or, get_or-set, get_or_above, arith, inl, inr, Bool-cases,
}
use row_armor.Base.Loops.{for_range_inv}
use row_armor.Base.Xor.{zero-xor, xor_self}
use row_armor.FaultSim.Config.{ce}
use row_armor.FaultSim.Field.{last_match, get_abit}
use row_armor.FaultSim.Field.Table.{IsPowerTable}
use row_armor.FaultSim.Symbols.{symbol_value}
use row_armor.FaultSim.Symbols.Value.{IsBits, get_abit-symbol_value, cell_of-zero}
use row_armor.FaultSim.Symbols.Single.{IsSingle, syndrome-single}
use row_armor.FaultSim.Amd.{
  error_correction_amdchipkill, s0_of, s0_step, s1_of, error_symbol_position, correct_step,
  correct_symbol, insert_position,
}

module _ (codeword : List ℕ) (bits : IsBits codeword) (c : ℕ) where
  -- The first `k` cells of the symbol are cleared, and the other cells are as they were.
  abbrev IsCleared : ℕ → List ℕ → Type 0
  IsCleared k w =
      (j : ℕ)
      → get_or w j 0 ≡ (if leb (c * 8) j && ltb j (c * 8 + k) then 0 else get_or codeword j 0)

  correct_step-IsCleared :
      (k : ℕ) (w : List ℕ)
      → k < 8
      → IsCleared k w
      → IsCleared (k + 1) (correct_step c (symbol_value codeword c) k w)
  unfolding correct_step
  correct_step-IsCleared k w h p j =
      let i = c * 8 + k in
      let bit = get_abit (symbol_value codeword c) (7 - k) in
      ground (
        arith,
        p j,
        p i,
        get_abit-symbol_value codeword bits c k h,
        get_or-set w i j (bit_xor (get_or w i 0) bit) 0,
        get_or_above w i 0,
        xor_self (get_or codeword i 0),
      )

  -- Taking a symbol's own value off it clears its cells, and no other.
  correct_symbol-IsCleared : IsCleared 8 (correct_symbol c (symbol_value codeword c) codeword)
  unfolding correct_symbol
  correct_symbol-IsCleared =
      for_range_inv IsCleared (correct_step c (symbol_value codeword c)) 8 0 8 codeword
        (λ k w _ h p. correct_step-IsCleared k w h p) (omega arith) (λ j. ground arith)

module _ (row : List ℕ) (t : IsPowerTable row) (codeword : List ℕ) (c e : ℕ)
    (single : IsSingle codeword c e) (c_lt : c < 10) where
  s0_step-single :
      (k s : ℕ)
      → s ≡ (if ltb c k then e else 0)
      → s0_step row codeword k s ≡ (if ltb c (k + 1) then e else 0)
  unfolding s0_step
  s0_step-single k s h = elim (Bool-cases (k == c)) [
    | inl hit ↦
        let same : k ≡ c = ground arith in
        ground (
          arith,
          single.at,
          t.exponent_of-exp e single.value_lt,
          t.exp_lt e single.value_pos single.value_lt,
          t.power_exp e single.value_pos single.value_lt,
          zero-xor e,
        )
    | inr miss ↦ ground (arith, single.others k (ground arith), t.exponent_of-exp 0 (omega arith))
  ]

  s0_of-single : s0_of row codeword ≡ e
  unfolding s0_of
  s0_of-single =
      let whole =
        for_range_inv (λ k s. s ≡ (if ltb c k then e else 0)) (s0_step row codeword) 10 0 10 0
          (λ k s _ _ p. s0_step-single k s p) (omega arith) (ground arith) in
      ground arith

  s1_of-single : s1_of row codeword ≡ get_or row ((t.exp e + c) % 255) 0
  unfolding s1_of
  s1_of-single =
      let raw = syndrome-single row t codeword c e single 1 10 c_lt in
      let index : t.exp e + 1 * c ≡ t.exp e + c = omega arith in rw raw (rw index)

  position-single :
      (junk_p junk_q : ℕ)
      → error_symbol_position
          (last_match 255 row 0 (s0_of row codeword) junk_p)
          (last_match 255 row 0 (s1_of row codeword) junk_q)
        ≡ c
  unfolding error_symbol_position
  position-single junk_p junk_q =
      let log_e = t.exp_lt e single.value_pos single.value_lt in
      let k = (t.exp e + c) % 255 in
      let bound : k < 255 = omega arith in
      let p_is = t.last_match-exp junk_p e single.value_pos single.value_lt in
      let q_is =
        t.last_match-exp junk_q (get_or row k 0) (t.power_pos k bound) (t.power_lt k bound) in
      rw (s0_of-single, s1_of-single, p_is, q_is, t.exp_power k bound) (omega arith)

  corrected :
      (junk_p junk_q : ℕ) (positions : List ℕ)
      → error_correction_amdchipkill row junk_p junk_q codeword positions ≡ record {
        result = ce;
        codeword = correct_symbol c (symbol_value codeword c) codeword;
        error_chip_position = insert_position c positions;
      }
  unfolding error_correction_amdchipkill
  corrected junk_p junk_q positions =
      ground (arith, position-single junk_p junk_q, s0_of-single, single.at, single.value_pos)

  cleared :
      IsBits codeword
      → (j : ℕ) → get_or (correct_symbol c (symbol_value codeword c) codeword) j 0 ≡ 0
  cleared bits j = ground (
    arith,
    correct_symbol-IsCleared codeword bits c j,
    λ (away : j / 8 ≢ c).
        cell_of-zero codeword bits (j / 8) (single.others (j / 8) away) (j % 8) (omega arith),
  )

  -- On a table of powers, a word of bits in which the symbol of one of the ten chips alone is not 0
  -- is corrected: the result is `CE`, every cell is 0 afterwards, and the chip is added to the set.
  pub amdchipkill_corrects :
      IsBits codeword
      → (junk_p junk_q : ℕ) (positions : List ℕ)
      → let r = error_correction_amdchipkill row junk_p junk_q codeword positions in
        (r.result ≡ ce)
        × ((j : ℕ) → get_or r.codeword j 0 ≡ 0)
        × (r.error_chip_position ≡ insert_position c positions)
  amdchipkill_corrects bits junk_p junk_q positions =
      rw (corrected junk_p junk_q positions) (refl, cleared bits, refl)
