-- ===== src/FaultSim/Rs/Decode/Repaired.antt =====
-- The symbols of the Reed-Solomon decoders after the repair at the error locations.
use row_armor.Base.{
  ℕ, zero, suc, ◌+◌, ◌<◌, ◌≡◌, ◌⊎◌, refl, Bool, true, false, ◌==◌, if◌then◌else◌, List, [], ◌∷◌,
  get_or, set, length, get_or-set, arith, Bool-cases, inl, inr, ◌∙◌,
}
use row_armor.Base.Int.{ℤ}
use row_armor.Base.Loops.{for_range_inv}
use row_armor.FaultSim.Symbols.{symbol_value}
use row_armor.FaultSim.Rs.Syndromes.{received}
use row_armor.FaultSim.Rs.Forney.{repair, repair_step}
use row_armor.FaultSim.Rs.Decode.Guards.{All}

-- The number is in the list.
abbrev pub Has : ℕ → List ℕ → Type 0
Has k [] = ⊥
Has k (x ∷ xs) = (x ≡ k) ⊎ Has k xs

Has-get_or : (xs : List ℕ) (i : ℕ) → i < length xs → Has (get_or xs i 0) xs
Has-get_or [] i h = absurd (omega arith)
Has-get_or (x ∷ xs) zero h = inl refl
Has-get_or (x ∷ xs) (suc i) h = inr (Has-get_or xs i (omega arith))

pub All-Has : (P : ℕ → Type 0) (xs : List ℕ) (k : ℕ) → All P xs → Has k xs → P k
All-Has P [] k all h = elim h [ ]
All-Has P (x ∷ xs) k (first, rest) (inl same) = rw (← same) first
All-Has P (x ∷ xs) k (first, rest) (inr later) = All-Has P xs k rest later

pub received-at :
    (codeword : List ℕ) (left i j : ℕ)
    → j < left
    → get_or (received left i codeword) j 0 ≡ symbol_value codeword (i + j)
unfolding received
received-at codeword zero i j h = absurd (omega arith)
received-at codeword (suc left) i zero h = let same : i + 0 ≡ i = omega arith in rw same refl
received-at codeword (suc left) i (suc j) h =
    let same : i + suc j ≡ i + 1 + j = omega arith in
    rw same (received-at codeword left (i + 1) j (omega arith))

if_set-away :
    (b : Bool) (xs : List ℕ) (i j v : ℕ)
    → (i == j) ≡ false
    → get_or (if b then xs else set xs i v) j 0 ≡ get_or xs j 0
if_set-away true xs i j v away = refl
if_set-away false xs i j v away = ground (arith, get_or-set xs i j v 0)

-- Outside the locations the repaired symbols are the received ones.
pub repair-at :
    (row : List ℕ) (junk : ℕ) (z : List ℤ) (root loc recd : List ℕ) (l_u j : ℕ)
    → l_u ≡ length loc
    → (get_or (repair row junk z root loc l_u recd) j 0 ≡ get_or recd j 0) ⊎ Has j loc
unfolding repair repair_step
repair-at row junk z root loc recd l_u j count =
    for_range_inv (λ i recd'. (get_or recd' j 0 ≡ get_or recd j 0) ⊎ Has j loc)
      (repair_step row junk z root loc l_u) l_u 0 l_u recd
      (λ i recd' _ below h. elim (Bool-cases (get_or loc i 0 == j)) [
        | inl here ↦
            let same : get_or loc i 0 ≡ j = ground arith in
            inr (rw same at (Has-get_or loc i (omega arith)))
        | inr away ↦ elim h [
          | inl old ↦ inl (if_set-away _ recd' (get_or loc i 0) j _ away ∙ old)
          | inr has ↦ inr has
        ]
      ])
      (omega arith) (inl refl)
