-- ===== src/FaultSim/Polynomials/Overrun.antt =====
-- For which files the loop of `main` that reads the polynomials stays in the table.
use row_armor.Base.{
  ℕ, ◌+◌, ◌-◌, ◌^◌, ◌<◌, ◌≤◌, ◌≡◌, refl, Bool, true, false, ltb, List, [], ◌∷◌, none, some, length,
  set, get_or, length-set, arith, inl, inr, Bool-cases, ◌∙◌, sym, ◌↔◌, ◌≢◌,
}
use native.Mathlib.Decide.{dec_lt}
use row_armor.FaultSim.Field.{generate_primitive_poly, fill_powers}
use row_armor.FaultSim.Polynomials.{conversion_to_int_format, use_line, read_polynomials}

use_line-in :
    (line : List ℕ) (n : ℕ) (p : List (List ℕ))
    → n < length p
    → (p' : List (List ℕ)) × (use_line line n p ≡ some p') × (length p' ≡ length p)
unfolding use_line generate_primitive_poly
use_line-in line n p h =
    let test : ltb n (length p) ≡ true = ground arith in
    let row = fill_powers (conversion_to_int_format line) 8 (2 ^ 8 - 1) 0 1 (get_or p n []) in
    (set p n row, rw (use_line, generate_primitive_poly, test) refl, length-set p n row)

use_line-out : (line : List ℕ) (n : ℕ) (p : List (List ℕ)) → length p ≤ n → use_line line n p ≡ none
unfolding use_line generate_primitive_poly
use_line-out line n p h =
    let test : ltb n (length p) ≡ false = ground arith in
    rw (use_line, generate_primitive_poly, test) refl

some-ne-none : {q : List (List ℕ)} → some q ≢ none
some-ne-none h = cc

-- The number of rounds: one more than the lines where the last one ends in a newline.
abbrev pub rounds : Bool → List (List ℕ) → ℕ
rounds true lines = length lines + 1
rounds false [] = 1
rounds false (line ∷ rest) = length rest + 1

read-in :
    (ended : Bool) (junk : List ℕ) (lines : List (List ℕ)) (n : ℕ) (p : List (List ℕ))
    → n + rounds ended lines ≤ length p
    → (p' : List (List ℕ)) × (read_polynomials ended junk lines n p ≡ some p')
      × (length p' ≡ length p)
unfolding read_polynomials
read-in false junk [] n p h = use_line-in junk n p (omega arith)
read-in true junk [] n p h = use_line-in junk n p (omega arith)
read-in false junk (line ∷ []) n p h = use_line-in line n p (omega arith)
read-in true junk (line ∷ []) n p h =
    let (p1, e, same) = use_line-in line n p (omega arith) in
    let (p2, e2, same2) = use_line-in junk (n + 1) p1 (omega arith) in
    (p2, rw (read_polynomials, e) e2, same2 ∙ same)
read-in true junk (line ∷ next ∷ rest) n p h =
    let (p1, e, same) = use_line-in line n p (omega arith) in
    let (p2, e2, same2) = read-in true junk (next ∷ rest) (n + 1) p1 (omega arith) in
    (p2, rw (read_polynomials, e) e2, same2 ∙ same)
read-in false junk (line ∷ next ∷ rest) n p h =
    let (p1, e, same) = use_line-in line n p (omega arith) in
    let (p2, e2, same2) = read-in false junk (next ∷ rest) (n + 1) p1 (omega arith) in
    (p2, rw (read_polynomials, e) e2, same2 ∙ same)

overrun-one :
    (line junk : List ℕ) (n : ℕ) (p : List (List ℕ))
    → n ≤ length p
    → length p < n + 2
    → read_polynomials true junk (line ∷ []) n p ≡ none
unfolding read_polynomials
overrun-one line junk n p low h = elim (Bool-cases (ltb n (length p))) [
  | inl inside ↦
      let (p1, e, same) = use_line-in line n p (ground arith) in
      rw (read_polynomials, e) (use_line-out junk (n + 1) p1 (omega arith))
  | inr outside ↦ rw (read_polynomials, use_line-out line n p (ground arith)) refl
]

overrun-next :
    (ended : Bool) (line next junk : List ℕ) (rest : List (List ℕ)) (n : ℕ) (p : List (List ℕ))
    → n ≤ length p
    → ((q : List (List ℕ))
        → length q ≡ length p
        → n + 1 ≤ length q
        → read_polynomials ended junk (next ∷ rest) (n + 1) q ≡ none)
    → read_polynomials ended junk (line ∷ next ∷ rest) n p ≡ none
unfolding read_polynomials
overrun-next ended line next junk rest n p low later = elim (Bool-cases (ltb n (length p))) [
  | inl inside ↦
      let (p1, e, same) = use_line-in line n p (ground arith) in
      rw (read_polynomials, e) (later p1 same (ground arith))
  | inr outside ↦ rw (read_polynomials, use_line-out line n p (ground arith)) refl
]

read-out :
    (ended : Bool) (junk : List ℕ) (lines : List (List ℕ)) (n : ℕ) (p : List (List ℕ))
    → n ≤ length p
    → length p < n + rounds ended lines
    → read_polynomials ended junk lines n p ≡ none
unfolding read_polynomials
read-out false junk [] n p low h = use_line-out junk n p (omega arith)
read-out true junk [] n p low h = use_line-out junk n p (omega arith)
read-out false junk (line ∷ []) n p low h = use_line-out line n p (omega arith)
read-out true junk (line ∷ []) n p low h = overrun-one line junk n p low (omega arith)
read-out true junk (line ∷ next ∷ rest) n p low h =
    overrun-next true line next junk rest n p low
      (λ q same low'. read-out true junk (next ∷ rest) (n + 1) q low' (omega arith))
read-out false junk (line ∷ next ∷ rest) n p low h =
    overrun-next false line next junk rest n p low
      (λ q same low'. read-out false junk (next ∷ rest) (n + 1) q low' (omega arith))

-- The loop that reads the polynomials writes past the table exactly where its number of rounds is
-- above the number of rows, and a file whose last line ends in a newline takes one round more than
-- it has lines.
pub read_polynomials-none :
    (ended : Bool) (junk : List ℕ) (lines p : List (List ℕ))
    → (read_polynomials ended junk lines 0 p ≡ none) ↔ (length p < rounds ended lines)
read_polynomials-none ended junk lines p = (
  λ h. elim (dec_lt (length p) (rounds ended lines)) [
    | yes more ↦ more
    | no fits ↦
        let (p', e, same) = read-in ended junk lines 0 p (omega arith) in
        absurd (some-ne-none (sym e ∙ h))
  ],
  λ h. read-out ended junk lines 0 p (omega arith) (omega arith),
)
