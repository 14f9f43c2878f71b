-- ===== src/McSim/Abacus/Find.antt =====
-- The searches of class ABACuS in its entries.
use row_armor.Base.{
  ℕ, zero, suc, ◌<◌, ◌≤◌, ◌≡◌, ◌≢◌, ◌⊎◌, inl, inr, refl, length, arith, ◌==◌, ltb, List, [], ◌∷◌,
  Bool-cases,
}
use row_armor.McSim.Abacus.{AbacusEntry, entry_at, find_row, min_rac_entry}

-- What holds of the first entry and of all others holds of each.
each_entry :
    (Holds : AbacusEntry → Type 0) (e : AbacusEntry) (es : List AbacusEntry)
    → Holds e
    → ((k : ℕ) → k < length es → Holds (entry_at es k))
    → (k : ℕ) → k < length (e ∷ es)
    → Holds (entry_at (e ∷ es) k)
each_entry Holds e es first others zero h = first
each_entry Holds e es first others (suc k) h = others k (omega arith)

-- The entry that is found is the row's, and if none is found, none is the row's.
pub find_row_lem :
    (es : List AbacusEntry) (row : ℕ)
    → ((find_row es row < length es) × ((entry_at es (find_row es row)).row_id ≡ row))
      ⊎ ((find_row es row ≡ length es) × ((k : ℕ) → k < length es → (entry_at es k).row_id ≢ row))
unfolding find_row
find_row_lem [] row = inr (refl, λ k h. absurd (omega arith))
find_row_lem (e ∷ es) row = elim (Bool-cases (e.row_id == row)) [
  | inl same ↦ rw same (inl (ground arith, ground arith))
  | inr apart ↦ elim (find_row_lem es row) [
    | inl (inside, own) ↦ rw apart (inl (ground arith, own))
    | inr (missing, none) ↦
        rw apart (inr (ground arith, each_entry (λ x. x.row_id ≢ row) e es (ground arith) none))
  ]
]

-- The lowest entry is one of the entries, and no counter is lower than its.
pub min_rac_entry_lem :
    (es : List AbacusEntry)
    → 0 < length es
    → (min_rac_entry es < length es)
      × ((k : ℕ) → k < length es → (entry_at es (min_rac_entry es)).rac ≤ (entry_at es k).rac)
unfolding min_rac_entry
min_rac_entry_lem [] h = absurd (omega arith)
min_rac_entry_lem (e ∷ []) h = (
  ground arith,
  each_entry (λ x. e.rac ≤ x.rac) e [] (omega arith) (λ k k_lt. absurd (omega arith)),
)
min_rac_entry_lem (e ∷ f ∷ es) h =
    let (inside, least) = min_rac_entry_lem (f ∷ es) (ground arith) in
    elim (Bool-cases (ltb (entry_at (f ∷ es) (min_rac_entry (f ∷ es))).rac e.rac)) [
      | inl lower ↦ rw lower (
        omega arith,
        each_entry (λ x. (entry_at (f ∷ es) (min_rac_entry (f ∷ es))).rac ≤ x.rac) e (f ∷ es)
            (ground arith) least,
      )
      | inr first ↦ rw first (
        omega arith,
        each_entry (λ x. e.rac ≤ x.rac) e (f ∷ es) (omega arith)
            (λ k k_lt. ground (arith, least k k_lt)),
      )
    ]
