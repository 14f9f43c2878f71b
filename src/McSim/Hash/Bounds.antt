-- ===== src/McSim/Hash/Bounds.antt =====
-- The hash functions of class H3 have 30 bits.
use row_armor.Base.{
  subst, ℕ, zero, suc, ◌+◌, ◌/◌, ◌%◌, ◌^◌, ◌<◌, ◌≡◌, refl, sym, ◌∙◌, ltb, ◌==◌, ◌&&◌, List, [], ◌∷◌,
  get_or, arith, Bool, true, Bool-cases, inl, inr,
}
use row_armor.Base.Xor.{xor-lt, zero-xor}
use row_armor.McSim.Hash.{h3_entry, lookup_hash}
use row_armor.McSim.Hash.Matrix.{h3_matrix}
use row_armor.McSim.Hash.Matrix.First.{first_rows}
use row_armor.McSim.Hash.Matrix.Second.{second_rows}
use row_armor.McSim.Hash.Matrix.Third.{third_rows}
use row_armor.McSim.Hash.Matrix.Fourth.{fourth_rows}
use row_armor.McSim.Hash.Linear.{product, lookup_loop-product}

unfoldable all_below : ℕ → List ℕ → Bool
all_below bound [] = true
all_below bound (n ∷ row) = ltb n bound && all_below bound row

unfoldable all_rows_below : ℕ → List (List ℕ) → Bool
unfolding all_below
all_rows_below bound [] = true
all_rows_below bound (row ∷ rows) = all_below bound row && all_rows_below bound rows

get_or-all_below :
    (bound k : ℕ) (row : List ℕ) → 0 < bound → all_below bound row ≡ true → get_or row k 0 < bound
unfolding all_below
get_or-all_below bound k [] pos h = pos
get_or-all_below bound zero (n ∷ row) pos h = ground arith
get_or-all_below bound (suc k) (n ∷ row) pos h = get_or-all_below bound k row pos (ground arith)

get_or-all_rows_below :
    (bound i : ℕ) (rows : List (List ℕ))
    → all_rows_below bound rows ≡ true
    → all_below bound (get_or rows i []) ≡ true
unfolding all_rows_below all_below
get_or-all_rows_below bound i [] h = refl
get_or-all_rows_below bound zero (row ∷ rows) h = ground arith
get_or-all_rows_below bound (suc i) (row ∷ rows) h =
    get_or-all_rows_below bound i rows (ground arith)

matrix_small : all_rows_below (2 ^ 30) h3_matrix ≡ true
unfolding all_rows_below all_below h3_matrix first_rows second_rows third_rows fourth_rows
matrix_small = refl

h3_entry-lt : (i hash_number : ℕ) → h3_entry i hash_number < 2 ^ 30
unfolding h3_entry
h3_entry-lt i hash_number =
    get_or-all_below (2 ^ 30) hash_number (get_or h3_matrix i []) (omega arith)
      (get_or-all_rows_below (2 ^ 30) i h3_matrix matrix_small)

product-lt : (rounds hash_number i val : ℕ) → product rounds hash_number i val < 2 ^ 30
unfolding product
product-lt zero hash_number i val = omega arith
product-lt (suc rounds) hash_number i val = elim (Bool-cases (val % 2 == 1)) [
  | inl odd ↦ rw odd (
      xor-lt 30 (h3_entry i hash_number) (product rounds hash_number (i + 1) (val / 2))
        (h3_entry-lt i hash_number) (product-lt rounds hash_number (i + 1) (val / 2)))
  | inr even ↦ rw even (product-lt rounds hash_number (i + 1) (val / 2))
]

-- A hash of H3 has 30 bits, whatever the address and the function are: `result` does not wrap around.
pub lookup_hash-lt : (address hash_number : ℕ) → lookup_hash address hash_number < 2 ^ 30
unfolding lookup_hash
lookup_hash-lt address hash_number =
    let val = address % 2 ^ 64 in
    subst (λ h. h < 2 ^ 30)
      (sym (lookup_loop-product 64 hash_number 0 val 0 ∙ zero-xor (product 64 hash_number 0 val)))
      (product-lt 64 hash_number 0 val)
