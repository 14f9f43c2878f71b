-- ===== src/FaultSim/Field/Product.antt =====
-- The table against multiplication in GF(2^8), written as polynomials over GF(2).
use row_armor.Base.{
  ℕ, zero, suc, ◌+◌, ◌*◌, ◌/◌, ◌%◌, ◌^◌, ◌<◌, ◌≡◌, refl, bit_xor, Bool, true, ◌&&◌, ◌==◌, ==_iff,
  List, arith, get_or, if◌then◌else◌,
}
use row_armor.Base.Ranges.{each_below, each_below-lt}
use row_armor.FaultSim.Field.{fill_powers, next_power}
use row_armor.FaultSim.Field.Table.{gf_row}

-- Multiplication of polynomials over GF(2), then reduction by x^8 + x^4 + x^3 + x^2 + 1.
product : ℕ → ℕ → ℕ → ℕ
product zero a b = 0
product (suc k) a b =
    let rest = product k a b in if b / 2 ^ k % 2 == 1 then bit_xor rest (a * 2 ^ k) else rest

reduce : ℕ → ℕ → ℕ
reduce zero p = p
reduce (suc k) p = reduce k (if p / 2 ^ (k + 8) % 2 == 1 then bit_xor p (0x11d * 2 ^ k) else p)

pub gf_mul : ℕ → ℕ → ℕ
unfolding product reduce
gf_mul a b = reduce 7 (product 8 a b)

mul_check : List ℕ → Bool
mul_check row =
    each_below
      (λ i.
        each_below (λ j. gf_mul (get_or row i 0) (get_or row j 0) == get_or row ((i + j) % 255) 0)
          255)
      255

mul_table : mul_check gf_row ≡ true
unfolding each_below mul_check gf_row fill_powers next_power gf_mul
mul_table = refl

-- The exponents of row 0 add up as the values multiply: entry (i + j) % 255 is the product, as
-- polynomials over GF(2) modulo x^8 + x^4 + x^3 + x^2 + 1, of the entries i and j.
pub gf_row-mul :
    (i j : ℕ)
    → i < 255
    → j < 255
    → gf_mul (get_or gf_row i 0) (get_or gf_row j 0) ≡ get_or gf_row ((i + j) % 255) 0
unfolding mul_check
gf_row-mul i j p q = (==_iff _ _).0 (each_below-lt _ 255 j q (each_below-lt _ 255 i p mul_table))

-- The powers of x modulo x^8 + x^4 + x^3 + x^2 + 1.
pub x_power : ℕ → ℕ
x_power zero = 1
x_power (suc k) = gf_mul 2 (x_power k)

power_check : ℕ → Bool
power_check k = (x_power k == get_or gf_row k 0) && (gf_mul 0 (x_power k) == 0)

power_table : each_below power_check 10 ≡ true
unfolding each_below power_check x_power gf_mul product reduce gf_row fill_powers next_power
power_table = refl

pub x_power_lem : (k : ℕ) → k < 10 → (x_power k ≡ get_or gf_row k 0) × (gf_mul 0 (x_power k) ≡ 0)
unfolding power_check
x_power_lem k h = let e = each_below-lt power_check 10 k h power_table in ground arith
