-- ===== src/FaultSim/Amd/Weighted.antt =====
-- The syndromes of `error_correction_AMDCHIPKILL` as sums over GF(2^8).
use row_armor.Base.{
  ℕ, zero, suc, ◌+◌, ◌*◌, ◌%◌, ◌<◌, ◌≡◌, refl, ◌↔◌, bit_xor, ◌==◌, if◌then◌else◌, List, get_or,
  arith, Bool-cases, inl, inr, ◌∙◌, ap, sym, false,
}
use row_armor.Base.Loops.{for_range_inv}
use row_armor.Base.Xor.{xor-zero}
use row_armor.FaultSim.Config.{ne}
use row_armor.FaultSim.Field.{exponent_of}
use row_armor.FaultSim.Field.Table.{gf_row, gf_row-IsPowerTable}
use row_armor.FaultSim.Field.Product.{gf_mul, gf_row-mul, x_power, x_power_lem}
use row_armor.FaultSim.Symbols.{symbol_value, syndrome, syndrome_step}
use row_armor.FaultSim.Symbols.Value.{IsBits, symbol_value-lt}
use row_armor.FaultSim.Amd.{error_correction_amdchipkill, s0_of, s0_step, s1_of}
use row_armor.FaultSim.Amd.Quiet.{amdchipkill-ne_iff}

-- The sum over GF(2^8) of the values at the numbers below `n`.
abbrev pub xor_sum : (ℕ → ℕ) → ℕ → ℕ
xor_sum f zero = 0
xor_sum f (suc n) = bit_xor (xor_sum f n) (f n)

-- What a round of a syndrome loop does to the sum: nothing for the value 0, else it adds the product.
add_product :
    (v k s : ℕ)
    → v < 256
    → k < 10
    → (if exponent_of gf_row v == 255
        then s
        else bit_xor s (get_or gf_row ((exponent_of gf_row v + 1 * k) % 255) 0))
      ≡ bit_xor s (gf_mul v (x_power k))
add_product v k s small h =
    let t = gf_row-IsPowerTable in
    let (power, none) = x_power_lem k h in
    elim (Bool-cases (v == 0)) [
      | inl e ↦
          let z : v ≡ 0 = ground arith in
          let at : exponent_of gf_row 0 ≡ 255 = ground (arith, t.exponent_of-exp 0) in
          rw (z, at, none) (sym (xor-zero s))
      | inr e ↦
          let above : 0 < v = ground arith in
          let at : exponent_of gf_row v ≡ t.exp v = ground (arith, t.exponent_of-exp v small) in
          let lt = t.exp_lt v above small in
          let found : (t.exp v == 255) ≡ false = ground arith in
          let one : 1 * k ≡ k = omega arith in
          rw (at, found, one, power)
            (ap (bit_xor s) (
              sym (gf_row-mul (t.exp v) k lt (omega arith))
              ∙ ap (λ x. gf_mul x (get_or gf_row k 0)) (t.power_exp v above small)))
    ]

add_value :
    (v s : ℕ)
    → v < 256
    → (if exponent_of gf_row v == 255
        then s
        else bit_xor s (get_or gf_row (exponent_of gf_row v) 0))
      ≡ bit_xor s v
add_value v s small =
    let t = gf_row-IsPowerTable in
    elim (Bool-cases (v == 0)) [
      | inl e ↦
          let z : v ≡ 0 = ground arith in
          let at : exponent_of gf_row 0 ≡ 255 = ground (arith, t.exponent_of-exp 0) in
          rw (z, at) (sym (xor-zero s))
      | inr e ↦
          let above : 0 < v = ground arith in
          let at : exponent_of gf_row v ≡ t.exp v = ground (arith, t.exponent_of-exp v small) in
          let lt = t.exp_lt v above small in
          let found : (t.exp v == 255) ≡ false = ground arith in
          rw (at, found, t.power_exp v above small) refl
    ]

module _ (codeword : List ℕ) (bits : IsBits codeword) where
  s0_of-xor_sum : s0_of gf_row codeword ≡ xor_sum (symbol_value codeword) 10
  unfolding s0_of s0_step
  s0_of-xor_sum =
      for_range_inv (λ k s. s ≡ xor_sum (symbol_value codeword) k) (s0_step gf_row codeword) 10 0 10
        0
        (λ k s _ _ p.
          let next : k + 1 ≡ suc k = omega arith in
          rw next (
            add_value (symbol_value codeword k) s (symbol_value-lt codeword bits k)
            ∙ ap (λ x. bit_xor x (symbol_value codeword k)) p))
        (omega arith) refl

  s1_of-xor_sum :
      s1_of gf_row codeword ≡ xor_sum (λ k. gf_mul (symbol_value codeword k) (x_power k)) 10
  unfolding s1_of syndrome syndrome_step
  s1_of-xor_sum =
      let term : ℕ → ℕ = λ k. gf_mul (symbol_value codeword k) (x_power k) in
      for_range_inv (λ k s. s ≡ xor_sum term k) (syndrome_step gf_row 1 codeword) 10 0 10 0
        (λ k s _ below p.
          let next : k + 1 ≡ suc k = omega arith in
          rw next (
            add_product (symbol_value codeword k) k s (symbol_value-lt codeword bits k) below
            ∙ ap (λ x. bit_xor x (term k)) p))
        (omega arith) refl

  -- `NE` is answered for exactly the codewords of the code, over ten symbols of bits: the sum of the
  -- symbols over GF(2^8) is 0, and so is their sum with the powers of x as weights, where products
  -- are those of polynomials modulo x^8 + x^4 + x^3 + x^2 + 1.
  pub amdchipkill_ne-sums :
      (junk_p junk_q : ℕ) (positions : List ℕ)
      → ((error_correction_amdchipkill gf_row junk_p junk_q codeword positions).result ≡ ne) ↔ (
          (xor_sum (symbol_value codeword) 10 ≡ 0)
          × (xor_sum (λ k. gf_mul (symbol_value codeword k) (x_power k)) 10 ≡ 0))
  amdchipkill_ne-sums junk_p junk_q positions =
      rw (← s0_of-xor_sum, ← s1_of-xor_sum)
        (amdchipkill-ne_iff gf_row junk_p junk_q codeword positions)
