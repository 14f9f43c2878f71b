-- ===== src/McSim/Hydra/Update.antt =====
-- What an access to the table of rows of class Hydra does to one row.
use row_armor.Base.{
  ℕ, ◌+◌, ◌^◌, ◌<◌, ◌≤◌, ◌≡◌, ◌≢◌, ◌⊎◌, refl, leb, none, some, arith, Bool-cases, Option-cases, inl,
  inr, ap, ◌∙◌,
}
use row_armor.Base.Word.{inc64}
use row_armor.McSim.Hydra.{
  HydraConfig, is_cached, Hydra, row_of, query_rcc, update_rct, hydra_activate_row,
}

module _ (p : HydraConfig) (row : ℕ) (small : p.hydra_rct_threshold < 2 ^ 64) where
  -- What is kept of the row with number `r` by an access to the table of rows.
  abbrev pub IsUpdated : ℕ → Hydra → Hydra → ℕ → Type 0
  IsUpdated r s s' answer =
      (s'.gct ≡ s.gct)
      × (r ≢ row → s'.rct row ≡ s.rct row)
      × (r ≡ row → s.rct row ≡ none → s'.rct row ≡ some p.hydra_gct_threshold)
      × (r ≡ row
          → (x : ℕ) → s.rct row ≡ some x
          → x < p.hydra_rct_threshold
          → ((2 ≤ answer) × (s'.rct row ≡ some 0))
            ⊎ ((x + 1 < p.hydra_rct_threshold) × (s'.rct row ≡ some (x + 1))))

  update_rct-IsUpdated :
      (address : ℕ) (s : Hydra)
      → let r = update_rct p address s in IsUpdated (row_of p address) s r.0 r.1
  unfolding update_rct inc64
  update_rct-IsUpdated address s = elim (Option-cases (s.rct (row_of p address))) [
    | inl e ↦
        rw (update_rct, e)
          (
            refl,
            λ apart. ground arith,
            λ same none. ground arith,
            λ same x e'. absurd (ground (arith, same)),
          )
    | inr (x, e) ↦ elim (Bool-cases (leb p.hydra_rct_threshold (inc64 x))) [
      | inl full ↦
          rw (update_rct, e, full)
            (
              refl,
              λ apart. ground arith,
              λ same none. absurd (ground (arith, same)),
              λ same y e' y_lt. inl (omega arith, ground arith),
            )
      | inr more ↦
          rw (update_rct, e, more)
            (
              refl,
              λ apart. ground arith,
              λ same none. absurd (ground (arith, same)),
              λ same y e' y_lt.
                  let xy : x ≡ y = ground (arith, same) in
                  inr (ground (arith, xy), ground (arith, xy)),
            )
    ]
  ]

  query_rcc-kept :
      (address : ℕ) (s : Hydra)
      → let s' = (query_rcc p address s).0 in (s'.gct ≡ s.gct) × (s'.rct ≡ s.rct)
  unfolding query_rcc
  query_rcc-kept address s = elim (Bool-cases (is_cached (row_of p address) s.rcc)) [
    | inl e ↦ rw (query_rcc, e) (refl, refl)
    | inr e ↦ rw (query_rcc, e) (refl, refl)
  ]

  pub hydra_activate_row-IsUpdated :
      (address : ℕ) (s : Hydra)
      → let r = hydra_activate_row p address s in IsUpdated (row_of p address) s r.0 r.1
  unfolding hydra_activate_row
  hydra_activate_row-IsUpdated address s =
      let (s1, miss) = query_rcc p address s in
      let (tables, other, first, more) = update_rct-IsUpdated address s1 in
      let (kept, rows) = query_rcc-kept address s in
      let same_row : s1.rct row ≡ s.rct row = ap (λ f. f row) rows in
      (
        tables ∙ kept,
        λ apart. other apart ∙ same_row,
        λ own e. first own (same_row ∙ e),
        λ own x e x_lt. elim (more own x (same_row ∙ e) x_lt) [
          | inl (two, cleared) ↦ inl (omega arith, cleared)
          | inr more_left ↦ inr more_left
        ],
      )
