-- ===== src/FaultSim/Symbols/Value.antt =====
-- The value of a symbol whose cells are bits, as a sum of powers of two.
use row_armor.Base.{
  ℕ, zero, suc, ◌+◌, ◌-◌, ◌*◌, ◌/◌, ◌%◌, ◌^◌, ◌<◌, ◌≡◌, refl, bit_xor, Bool, true, ◌==◌, ==_iff,
  List, get_or, arith, ◌∙◌, sym, ap, set, replicate, get_or-replicate, get_or-set,
}
use native.Mathlib.Nat.{zero-div}
use row_armor.Base.Ranges.{each_below, each_below-lt}
use row_armor.FaultSim.Field.{get_abit}
use row_armor.FaultSim.Symbols.{symbol_value}

-- The accumulation of eight cells.
abbrev pack : ℕ → ℕ → ℕ → ℕ → ℕ → ℕ → ℕ → ℕ → ℕ
pack a b c d e f g h =
    bit_xor
      (bit_xor
        (bit_xor
          (bit_xor
            (bit_xor
              (bit_xor (bit_xor (bit_xor 0 (a * 2 ^ 7 % 2 ^ 32)) (b * 2 ^ 6 % 2 ^ 32))
                (c * 2 ^ 5 % 2 ^ 32))
              (d * 2 ^ 4 % 2 ^ 32))
            (e * 2 ^ 3 % 2 ^ 32))
          (f * 2 ^ 2 % 2 ^ 32))
        (g * 2 ^ 1 % 2 ^ 32))
      (h * 2 ^ 0 % 2 ^ 32)

pack_digits : ℕ → Bool
pack_digits w =
    pack (w / 128 % 2) (w / 64 % 2) (w / 32 % 2) (w / 16 % 2) (w / 8 % 2) (w / 4 % 2) (w / 2 % 2)
      (w % 2)
    == w

pack_table : each_below pack_digits 256 ≡ true
unfolding each_below pack_digits
pack_table = refl

abit_table :
    each_below (λ w. each_below (λ k. get_abit w (7 - k) == w / 2 ^ (7 - k) % 2) 8) 256 ≡ true
unfolding each_below get_abit
abit_table = refl

pub get_abit_lem : (w k : ℕ) → w < 256 → k < 8 → get_abit w (7 - k) ≡ w / 2 ^ (7 - k) % 2
get_abit_lem w k p q = (==_iff _ _).0 (each_below-lt _ 8 k q (each_below-lt _ 256 w p abit_table))

pack_of_digits :
    (w a b c d e f g h : ℕ)
    → w < 256
    → w / 128 % 2 ≡ a
    → w / 64 % 2 ≡ b
    → w / 32 % 2 ≡ c
    → w / 16 % 2 ≡ d
    → w / 8 % 2 ≡ e
    → w / 4 % 2 ≡ f
    → w / 2 % 2 ≡ g
    → w % 2 ≡ h
    → pack a b c d e f g h ≡ w
unfolding pack_digits
pack_of_digits w a b c d e f g h p ea eb ec ed ee ef eg eh =
    rw (← ea, ← eb, ← ec, ← ed, ← ee, ← ef, ← eg, ← eh)
      ((==_iff _ w).0 (each_below-lt pack_digits 256 w p pack_table))

zero_digit : (j : ℕ) → j < 8 → 0 / 2 ^ (7 - j) % 2 ≡ 0
zero_digit j h = omega (arith, zero-div (2 ^ (7 - j)))

-- Every cell is a bit.
abbrev pub IsBits : List ℕ → Type 0
IsBits codeword = (k : ℕ) → get_or codeword k 0 < 2

pub replicate-IsBits : (n : ℕ) → IsBits (replicate n 0)
replicate-IsBits n k = omega (arith, get_or-replicate {A = ℕ} n k 0)

pub set-IsBits : (xs : List ℕ) (i v : ℕ) → v < 2 → IsBits xs → IsBits (set xs i v)
set-IsBits xs i v bit bits k = ground (arith, bits k, get_or-set xs i k v 0)

abbrev cell : List ℕ → ℕ → ℕ
cell codeword k = get_or codeword k 0

abbrev pub bits_sum : List ℕ → ℕ → ℕ
bits_sum codeword k =
    cell codeword (k * 8 + 0) * 128
    + cell codeword (k * 8 + 1) * 64
    + cell codeword (k * 8 + 2) * 32
    + cell codeword (k * 8 + 3) * 16
    + cell codeword (k * 8 + 4) * 8
    + cell codeword (k * 8 + 5) * 4
    + cell codeword (k * 8 + 6) * 2
    + cell codeword (k * 8 + 7)

module _ (codeword : List ℕ) (bits : IsBits codeword) (k : ℕ) where
  bit_bounds :
      (cell codeword (k * 8 + 0) < 2)
      × (cell codeword (k * 8 + 1) < 2)
      × (cell codeword (k * 8 + 2) < 2)
      × (cell codeword (k * 8 + 3) < 2)
      × (cell codeword (k * 8 + 4) < 2)
      × (cell codeword (k * 8 + 5) < 2)
      × (cell codeword (k * 8 + 6) < 2)
      × (cell codeword (k * 8 + 7) < 2)
  bit_bounds = (bits _, bits _, bits _, bits _, bits _, bits _, bits _, bits _)

  pub bits_sum-lt : bits_sum codeword k < 256
  bits_sum-lt = omega (arith, bit_bounds)

  -- Cell `j` of the symbol is digit `7 - j` of the sum.
  pub bits_sum_digit :
      (j : ℕ) → j < 8 → bits_sum codeword k / 2 ^ (7 - j) % 2 ≡ cell codeword (k * 8 + j)
  bits_sum_digit zero h = omega (arith, bit_bounds)
  bits_sum_digit (suc zero) h = omega (arith, bit_bounds)
  bits_sum_digit (suc (suc zero)) h = omega (arith, bit_bounds)
  bits_sum_digit (suc (suc (suc zero))) h = omega (arith, bit_bounds)
  bits_sum_digit (suc (suc (suc (suc zero)))) h = omega (arith, bit_bounds)
  bits_sum_digit (suc (suc (suc (suc (suc zero))))) h = omega (arith, bit_bounds)
  bits_sum_digit (suc (suc (suc (suc (suc (suc zero)))))) h = omega (arith, bit_bounds)
  bits_sum_digit (suc (suc (suc (suc (suc (suc (suc zero))))))) h = omega (arith, bit_bounds)
  bits_sum_digit (suc (suc (suc (suc (suc (suc (suc (suc j)))))))) h = absurd (omega arith)

  pub symbol_value_sum : symbol_value codeword k ≡ bits_sum codeword k
  unfolding symbol_value
  symbol_value_sum =
      pack_of_digits (bits_sum codeword k) _ _ _ _ _ _ _ _ bits_sum-lt
        (bits_sum_digit 0 (omega arith)) (bits_sum_digit 1 (omega arith))
        (bits_sum_digit 2 (omega arith)) (bits_sum_digit 3 (omega arith))
        (bits_sum_digit 4 (omega arith)) (bits_sum_digit 5 (omega arith))
        (bits_sum_digit 6 (omega arith)) (omega (arith, bit_bounds))

  pub symbol_value-lt : symbol_value codeword k < 256
  symbol_value-lt = omega (arith, symbol_value_sum, bits_sum-lt)

  -- `getAbit` reads the cells back from the value.
  pub get_abit-symbol_value :
      (j : ℕ) → j < 8 → get_abit (symbol_value codeword k) (7 - j) ≡ get_or codeword (k * 8 + j) 0
  get_abit-symbol_value j h =
      rw symbol_value_sum (get_abit_lem (bits_sum codeword k) j bits_sum-lt h ∙ bits_sum_digit j h)

  -- A symbol whose cells are 0 has the value 0.
  pub symbol_value-zero :
      ((j : ℕ) → j < 8 → get_or codeword (k * 8 + j) 0 ≡ 0) → symbol_value codeword k ≡ 0
  symbol_value-zero z = omega (
    arith,
    symbol_value_sum,
    z 0 (omega arith),
    z 1 (omega arith),
    z 2 (omega arith),
    z 3 (omega arith),
    z 4 (omega arith),
    z 5 (omega arith),
    z 6 (omega arith),
    z 7 (omega arith),
  )

  -- The other way round, the cells of a symbol with the value 0 are 0.
  pub cell_of-zero :
      symbol_value codeword k ≡ 0 → (j : ℕ) → j < 8 → get_or codeword (k * 8 + j) 0 ≡ 0
  cell_of-zero z j h =
      let sum_zero : bits_sum codeword k ≡ 0 = omega (arith, symbol_value_sum) in
      sym (bits_sum_digit j h) ∙ ap (λ w. w / 2 ^ (7 - j) % 2) sum_zero ∙ zero_digit j h
