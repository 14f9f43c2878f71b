-- ===== src/FaultSim/Tests/Loading.antt =====
-- The reading of the polynomials, on the first lines of
-- reliability_eval/inputs/GF_2^8__primitive_polynomial.txt.
use row_armor.Base.{ℕ, ◌<◌, ◌≡◌, refl, ◌↔◌, true, List, [], ◌∷◌, replicate, length, none}
use row_armor.FaultSim.Polynomials.{
  starts_with, strstr, term_value, conversion_to_int_format, read_polynomials,
}
use row_armor.FaultSim.Polynomials.Overrun.{rounds, read_polynomials-none}

-- D^8+D^4+D^3+D^2+1 and a newline.
abbrev first_line : List ℕ
first_line =
    68 ∷ 94 ∷ 56 ∷ 43 ∷ 68 ∷ 94 ∷ 52 ∷ 43 ∷ 68 ∷ 94 ∷ 51 ∷ 43 ∷ 68 ∷ 94 ∷ 50 ∷ 43 ∷ 49 ∷ 10 ∷ []

-- D^8+D^5+D^3+D^1+1 and a newline.
abbrev second_line : List ℕ
second_line =
    68 ∷ 94 ∷ 56 ∷ 43 ∷ 68 ∷ 94 ∷ 53 ∷ 43 ∷ 68 ∷ 94 ∷ 51 ∷ 43 ∷ 68 ∷ 94 ∷ 49 ∷ 43 ∷ 49 ∷ 10 ∷ []

-- The table at first.
abbrev table : List (List ℕ)
table = replicate 16 (replicate 256 0)

first_line_value : conversion_to_int_format first_line ≡ 0x1d
unfolding conversion_to_int_format term_value strstr starts_with
first_line_value = refl

second_line_value : conversion_to_int_format second_line ≡ 0x2b
unfolding conversion_to_int_format term_value strstr starts_with
second_line_value = refl

read_polynomials-none_example :
    (read_polynomials true first_line (replicate 16 second_line) 0 table ≡ none)
    ↔ (length table < rounds true (replicate 16 second_line))
read_polynomials-none_example =
    read_polynomials-none true first_line (replicate 16 second_line) table
