-- ===== src/FaultSim/Amd/Quiet.antt =====
-- `error_correction_AMDCHIPKILL` on words with two syndromes that are 0.
use row_armor.Base.{ℕ, ◌≡◌, refl, ◌↔◌, ◌==◌, ◌&&◌, List, arith, Bool-cases, inl, inr}
use row_armor.Base.Loops.{for_range_inv}
use row_armor.FaultSim.Config.{ne}
use row_armor.FaultSim.Field.Table.{IsPowerTable}
use row_armor.FaultSim.Symbols.{symbol_value, syndrome, syndrome_step}
use row_armor.FaultSim.Amd.{error_correction_amdchipkill, s0_of, s0_step, s1_of}

module _ (row : List ℕ) (junk_p junk_q : ℕ) (codeword positions : List ℕ) where
  -- `NE` is answered exactly where both syndromes are 0.
  pub amdchipkill-ne_iff :
      let r = error_correction_amdchipkill row junk_p junk_q codeword positions in
      (r.result ≡ ne) ↔ ((s0_of row codeword ≡ 0) × (s1_of row codeword ≡ 0))
  unfolding error_correction_amdchipkill
  amdchipkill-ne_iff = elim (Bool-cases (s0_of row codeword == 0 && s1_of row codeword == 0)) [
    | inl quiet ↦ rw quiet (λ _. (ground arith, ground arith), λ _. refl)
    | inr loud ↦ (λ h. ground arith, λ h. ground arith)
  ]

module _ (row : List ℕ) (t : IsPowerTable row) (codeword : List ℕ)
    (zeros : (k : ℕ) → symbol_value codeword k ≡ 0) where
  s0_of-zero : s0_of row codeword ≡ 0
  unfolding s0_of s0_step
  s0_of-zero =
      for_range_inv (λ k s. s ≡ 0) (s0_step row codeword) 10 0 10 0
        (λ k s _ _ p. ground (arith, zeros k, t.exponent_of-exp 0 (omega arith))) (omega arith) refl

  s1_of-zero : s1_of row codeword ≡ 0
  unfolding s1_of syndrome syndrome_step
  s1_of-zero =
      for_range_inv (λ k s. s ≡ 0) (syndrome_step row 1 codeword) 10 0 10 0
        (λ k s _ _ p. ground (arith, zeros k, t.exponent_of-exp 0 (omega arith))) (omega arith) refl

  pub amdchipkill_quiet :
      (junk_p junk_q : ℕ) (positions : List ℕ)
      → error_correction_amdchipkill row junk_p junk_q codeword positions
        ≡ record { result = ne; codeword = codeword; error_chip_position = positions }
  unfolding error_correction_amdchipkill
  amdchipkill_quiet junk_p junk_q positions = rw (s0_of-zero, s1_of-zero) refl
