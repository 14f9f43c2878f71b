-- ===== src/FaultSim/Field.antt =====
-- The field GF(2^8) of reliability_eval/Fault_sim.cpp: the table of powers of the primitive
-- element, the search in it, and the single bits of a value.
pub mod Table
pub mod Product
use Prim.Native.Nat.{bit_and}
use row_armor.Base.{
  ℕ, zero, suc, ◌+◌, ◌-◌, ◌*◌, ◌/◌, ◌%◌, ◌^◌, bit_xor, true, false, ltb, leb, ◌==◌, if◌then◌else◌,
  List, [], ◌∷◌, get_or, set, Option, none, some, length,
}
use row_armor.Base.Int.{ℤ, pos, negsuc, minus_one}

-- `(x & (1 << n)) >> n` on an `unsigned short`.
unfoldable pub get_abit : ℕ → ℕ → ℕ
get_abit x n = bit_and (x % 2 ^ 16) (2 ^ n) / 2 ^ n

-- The body of the loop of `generate_primitive_poly`: the next power, in 32-bit arithmetic.
unfoldable pub next_power : ℕ → ℕ → ℕ → ℕ
next_power prim_value m value =
    if leb 0x80 value
    then bit_xor (value * 2 ^ (32 - m + 1) % 2 ^ 32 / 2 ^ (32 - m)) prim_value
    else value * 2 % 2 ^ 32

-- The loop itself: `left` powers are written from position `count` of a row.
unfoldable pub fill_powers : ℕ → ℕ → ℕ → ℕ → ℕ → List ℕ → List ℕ
fill_powers prim_value m zero count value row = row
fill_powers prim_value m (suc left) count value row =
    fill_powers prim_value m left (count + 1) (next_power prim_value m value) (set row count value)

-- `none` is a row number past the 16 rows of `primitive_poly`, where the source writes out of
-- bounds.
unfoldable pub generate_primitive_poly : ℕ → ℕ → ℕ → List (List ℕ) → Option (List (List ℕ))
unfolding fill_powers
generate_primitive_poly prim_value m prim_num primitive_poly =
    if ltb prim_num (length primitive_poly)
    then some (
        set primitive_poly prim_num
          (fill_powers prim_value m (2 ^ m - 1) 0 1 (get_or primitive_poly prim_num [])))
    else none

-- The search loop of `index_of`, over the first `left` entries of a row: the last match counts,
-- and `p` is what stands in the local variable so far.
unfoldable pub last_match : ℕ → List ℕ → ℕ → ℕ → ℕ → ℕ
last_match zero row i value p = p
last_match (suc left) [] i value p = p
last_match (suc left) (x ∷ row) i value p =
    last_match left row (i + 1) value (if value == x then i else p)

-- The exponent of a value, and -1 for the value 0, as the `int` that the callers store. `junk` is
-- the unspecified content of `p` where no entry matches.
unfoldable pub index_of : List ℕ → ℕ → ℕ → ℤ
unfolding last_match
index_of row junk value = if value == 0 then minus_one else pos (last_match 255 row 0 value junk)

-- The search loop of the decoders: the first match, or 255.
unfoldable pub first_match : ℕ → List ℕ → ℕ → ℕ → ℕ
first_match zero row i value = 255
first_match (suc left) [] i value = 255
first_match (suc left) (x ∷ row) i value = elim (value == x) [
  | true ↦ i
  | false ↦ first_match left row (i + 1) value
]

unfoldable pub exponent_of : List ℕ → ℕ → ℕ
unfolding first_match
exponent_of row value = first_match 255 row 0 value

-- `primitive_poly[0][i]` for an `int` index; a negative index is out of bounds, and reads 0 here.
abbrev pub power_at : List ℕ → ℤ → ℕ
power_at row (pos i) = get_or row i 0
power_at row (negsuc i) = 0
