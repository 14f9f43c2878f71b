-- ===== src/FaultSim/Polynomials.antt =====
-- How `main` of reliability_eval/Fault_sim.cpp reads the primitive polynomials from a file. A line is
-- a list of character codes, a file the list of its lines; each fits the buffer of 100 characters.
pub mod Overrun
use row_armor.Base.{
  ℕ, zero, suc, ◌+◌, ◌^◌, Bool, true, false, ◌&&◌, ◌||◌, ◌==◌, if◌then◌else◌, List, [], ◌∷◌, Option,
  none, some,
}
use row_armor.FaultSim.Field.{generate_primitive_poly}

-- Whether a text starts with another one.
unfoldable pub starts_with : List ℕ → List ℕ → Bool
starts_with [] text = true
starts_with (c ∷ needle) [] = false
starts_with (c ∷ needle) (d ∷ text) = c == d && starts_with needle text

-- `strstr(text, needle) != NULL`.
unfoldable pub strstr : List ℕ → List ℕ → Bool
unfolding starts_with
strstr [] needle = starts_with needle []
strstr (d ∷ text) needle = starts_with needle (d ∷ text) || strstr text needle

-- "^", then the digit, of an exponent from 2 on.
abbrev exponent_text : ℕ → List ℕ
exponent_text k = 94 ∷ (48 + k) ∷ []

unfoldable pub term_value : List ℕ → List ℕ → ℕ → ℕ
unfolding strstr
term_value str_read needle exponent = if strstr str_read needle then 2 ^ exponent else 0

-- "^1+" is the linear term, and "+1" the constant one.
unfoldable pub conversion_to_int_format : List ℕ → ℕ
unfolding term_value
conversion_to_int_format str_read =
    term_value str_read (exponent_text 7) 7
    + term_value str_read (exponent_text 6) 6
    + term_value str_read (exponent_text 5) 5
    + term_value str_read (exponent_text 4) 4
    + term_value str_read (exponent_text 3) 3
    + term_value str_read (exponent_text 2) 2
    + term_value str_read (94 ∷ 49 ∷ 43 ∷ []) 1
    + term_value str_read (43 ∷ 49 ∷ []) 0

-- What a round does with the line it has read.
unfoldable pub use_line : List ℕ → ℕ → List (List ℕ) → Option (List (List ℕ))
unfolding conversion_to_int_format
use_line str_read primitive_count primitive_poly =
    generate_primitive_poly (conversion_to_int_format str_read) 8 primitive_count primitive_poly

-- The loop over the lines that are left; `ended` says that the last line of the file ends in a
-- newline. Then the end of the file is met only by a further call of `fgets`, which reads nothing:
-- the round uses `junk`, what the buffer holds by chance.
unfoldable pub read_polynomials :
    Bool → List ℕ → List (List ℕ) → ℕ → List (List ℕ) → Option (List (List ℕ))
unfolding use_line
read_polynomials ended junk [] primitive_count primitive_poly =
    use_line junk primitive_count primitive_poly
read_polynomials false junk (line ∷ []) primitive_count primitive_poly =
    use_line line primitive_count primitive_poly
read_polynomials true junk (line ∷ []) primitive_count primitive_poly =
    elim (use_line line primitive_count primitive_poly) [
      | none ↦ none
      | some p ↦ use_line junk (primitive_count + 1) p
    ]
read_polynomials ended junk (line ∷ next ∷ rest) primitive_count primitive_poly =
    elim (use_line line primitive_count primitive_poly) [
      | none ↦ none
      | some p ↦ read_polynomials ended junk (next ∷ rest) (primitive_count + 1) p
    ]
