-- ===== src/McSim/Graphene/Count/Find.antt =====
-- The search of class Graphene.
use row_armor.Base.{
  ℕ, zero, suc, ◌<◌, ◌≡◌, ◌≢◌, ◌⊎◌, inl, inr, refl, length, arith, ◌==◌, Bool-cases, [], ◌∷◌,
}
use row_armor.McSim.Graphene.{Table, entry_at, find_entry}

-- Either an entry with the address is found, or there is none.
pub find_entry_lem :
    (es : Table) (addr : ℕ)
    → ((find_entry es addr < length es) × ((entry_at es (find_entry es addr)).address ≡ addr))
      ⊎ ((find_entry es addr ≡ length es)
          × ((k : ℕ) → k < length es → (entry_at es k).address ≢ addr))
unfolding find_entry
find_entry_lem [] addr = inr (refl, λ k h. absurd (omega arith))
find_entry_lem (e ∷ es) addr = elim (Bool-cases (e.address == addr)) [
  | inl hit ↦ rw hit (inl (omega arith, ground arith))
  | inr miss ↦ rw miss (elim (find_entry_lem es addr) [
    | inl found ↦ inl (omega arith, found.1)
    | inr none ↦ inr (omega arith, later (ground arith) none.1)
  ])
]
  where
    later :
        e.address ≢ addr
        → ((k : ℕ) → k < length es → (entry_at es k).address ≢ addr)
        → (k : ℕ) → k < suc (length es)
        → (entry_at (e ∷ es) k).address ≢ addr
    later first rest zero h = first
    later first rest (suc k) h = rest k (omega arith)
