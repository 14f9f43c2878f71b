-- ===== src/McSim/Abacus/Step.antt =====
-- One activation in class ABACuS keeps what its entries say of a row in a bank.
use row_armor.Base.{
  ℕ, ◌%◌, ◌^◌, ◌<◌, ◌≤◌, ◌≡◌, ◌≢◌, ◌⊎◌, inl, inr, sym, ◌∙◌, length, arith, ◌==◌, ◌&&◌, not,
  if◌then◌else◌, false, Bool-cases,
}
use native.Mathlib.Nat.{mod_self}
use row_armor.Base.Word.{inc64}
use row_armor.McSim.Abacus.{Abacus, entry_at, counted_entry, find_row, activate_found}
use row_armor.McSim.Abacus.Bits.{test_bit-zero}
use row_armor.McSim.Abacus.Keep.{Keeps, set-Keeps, counted_entry_lem, count_if}

-- The activations of the row `a` in the bank `b` since the last refresh of its neighbours, after
-- one more activation with its answer.
abbrev pub count_after : ℕ → ℕ → ℕ → ℕ → ℕ → ℕ → ℕ
count_after a b row bank answer c =
    if answer == 2 then 0 else (if (row == a) && (answer == 1) then 0 else count_if a b row bank c)

module _ (a b prt rct size : ℕ) (real : a ≢ 0) (some_entry : 0 < size) (ordered : rct < prt)
    (small : prt < 2 ^ 64) where
  -- The thresholds are those of the constructor, and the entries keep the count.
  abbrev pub IsKept : ℕ → Abacus → Type 0
  IsKept c s =
      (s.prt ≡ prt) × (s.rct ≡ rct) × Keeps a b prt rct size real c s.spillover_counter s.entries

  below_prt : (n : ℕ) → n ≤ prt → (n % prt == 0) && not (n == 0) ≡ false → n < prt
  below_prt n le h = ground (arith, mod_self prt)

  module _ (bank row c : ℕ) (s : Abacus) (bank_lt : bank < 64) (kept : IsKept c s) where
    module _ (inside : find_row s.entries row < length s.entries)
        (own : (entry_at s.entries (find_row s.entries row)).row_id ≡ row) where
      abbrev i : ℕ
      i = find_row s.entries row

      others : row ≡ a → (k : ℕ) → k < size → k ≢ i → (entry_at s.entries k).row_id ≢ a
      others same k k_lt ne x =
          let (_, _, t) = kept in ne (t.alone k i k_lt (omega (arith, t.len)) x (own ∙ same))

      pub found-IsKept :
          let r = activate_found bank i s in IsKept (count_after a b row bank r.1 c) r.0
      unfolding activate_found inc64
      found-IsKept =
          let (same_prt, same_rct, t) = kept in
          let i_lt : i < size = omega (arith, t.len) in
          let e = counted_entry bank (entry_at s.entries i) in
          let (rac_lt, sav_lt) = t.each i i_lt in
          let (row_same, more, one_more, sav_lt', track) =
            counted_entry_lem b bank c (entry_at s.entries i) bank_lt sav_lt (omega arith) in
          let id : e.row_id ≡ row = row_same ∙ own in
          elim (Bool-cases ((e.rac % s.prt == 0) && not (e.rac == 0))) [
            | inl refresh ↦
                rw (activate_found, refresh)
                  (
                    same_prt,
                    same_rct,
                    set-Keeps a b prt rct size real c s.spillover_counter s.entries t i i_lt
                        (record e { rac = inc64 s.spillover_counter; sav = 0 })
                        (omega (arith, t.spill)) (omega arith) (count_after a b row bank 1 c)
                        (λ x. (others (sym id ∙ x), ground (arith, test_bit-zero b, t.spill)))
                        (λ x. (ground arith, λ y. absurd (x (row_same ∙ y))))
                        (low 1 (omega arith) id (λ all. omega (arith, t.spill))),
                  )
            | inr go ↦
                rw (activate_found, go)
                  (
                    same_prt,
                    same_rct,
                    set-Keeps a b prt rct size real c s.spillover_counter s.entries t i i_lt e
                        (below_prt e.rac (omega arith) (rw⁻¹ same_prt go)) sav_lt'
                        (count_after a b row bank 0 c)
                        (λ x. (others (sym id ∙ x), ground (arith, track, t.seen i i_lt)))
                        (λ x. (ground arith, λ y. absurd (x (row_same ∙ y))))
                        (low 0 (omega arith) id (λ all. omega (arith, all i i_lt))),
                  )
          ]
        where
          -- Every counter is at least the spillover counter, or all entries are empty.
          low :
              {new_row new_rac : ℕ} (answer : ℕ)
              → answer < 2
              → new_row ≡ row
              → (((k : ℕ) → k < size → s.spillover_counter ≤ (entry_at s.entries k).rac)
                  → s.spillover_counter ≤ new_rac)
              → (((k : ℕ) → k < size → s.spillover_counter ≤ (entry_at s.entries k).rac)
                  × (s.spillover_counter ≤ new_rac))
                ⊎ ((count_after a b row bank answer c ≡ 0)
                    × (new_row ≡ 0)
                    × ((k : ℕ) → k < size → (entry_at s.entries k).row_id ≡ 0))
          low answer ans_lt id high =
              let (_, _, t) = kept in
              elim t.low [
                | inl all ↦ inl (all, high all)
                | inr (c_zero, rows) ↦
                    let zero_row : row ≡ 0 = sym own ∙ rows i (omega (arith, t.len)) in
                    inr (ground (arith, real), id ∙ zero_row, rows)
              ]
