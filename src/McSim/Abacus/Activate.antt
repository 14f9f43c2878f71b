-- ===== src/McSim/Abacus/Activate.antt =====
-- Any call of class ABACuS keeps what its entries say of a row in a bank.
use row_armor.Base.{
  ℕ, ◌+◌, ◌%◌, ◌^◌, ◌<◌, ◌≤◌, ◌≡◌, ◌≢◌, ◌⊎◌, inl, inr, sym, ◌∙◌, length, arith, ◌==◌, ltb,
  if◌then◌else◌, List, true, false, Bool-cases,
}
use row_armor.Base.Word.{inc64}
use row_armor.McSim.Abacus.{
  Abacus, AbacusEntry, entry_at, find_row, min_rac_entry, refresh_cycle, activate_found,
  replace_or_spill, activate_missing, abacus_activate,
}
use row_armor.McSim.Abacus.Bits.{test_bit-pow, pow-lt}
use row_armor.McSim.Abacus.Find.{find_row_lem, min_rac_entry_lem}
use row_armor.McSim.Abacus.Keep.{Keeps, set-Keeps, reset-Keeps}
use row_armor.McSim.Abacus.Step.{count_after, IsKept, found-IsKept}

module _ (a b prt rct size : ℕ) (real : a ≢ 0) (some_entry : 0 < size) (ordered : rct < prt)
    (small : prt < 2 ^ 64) where
  spill-Keeps :
      (c c' sp : ℕ) (es : List AbacusEntry)
      → Keeps a b prt rct size real c sp es
      → sp + 1 < rct
      → ((k : ℕ) → k < size → sp + 1 ≤ (entry_at es k).rac)
      → c' ≤ c + 1
      → ((k : ℕ) → k < size → (entry_at es k).row_id ≡ a → c' ≤ c)
      → Keeps a b prt rct size real c' (sp + 1) es
  spill-Keeps c c' sp es t room high grown tracked = record {
    len = t.len;
    spill = room;
    each = t.each;
    alone = t.alone;
    seen = λ k p x. omega (arith, t.seen k p x, tracked k p x);
    unseen = λ none. omega (arith, t.unseen none);
    low = inl high;
  }

  -- The spillover counter has reached its threshold.
  record IsFull (s : Abacus) : Type 0 where
    prt_is : s.prt ≡ prt
    rct_is : s.rct ≡ rct
    len : length s.entries ≡ size
    full : s.spillover_counter ≡ rct

  pub refresh_cycle-IsKept :
      (s : Abacus)
      → s.prt ≡ prt
      → s.rct ≡ rct
      → length s.entries ≡ size
      → 0 < rct
      → IsKept a b prt rct size real some_entry ordered small 0 (refresh_cycle s)
  unfolding refresh_cycle
  refresh_cycle-IsKept s same_prt same_rct len pos =
      rw len (same_prt, same_rct, reset-Keeps a b prt rct size real 0 pos (omega arith))

  module _ (bank row c : ℕ) (s : Abacus) (bank_lt : bank < 64)
      (kept : IsKept a b prt rct size real some_entry ordered small c s) where
    abbrev Next : Abacus × ℕ → Type 0
    Next r =
        IsFull r.0
        ⊎ IsKept a b prt rct size real some_entry ordered small (count_after a b row bank r.1 c) r.0

    module _ (missing : (k : ℕ) → k < size → (entry_at s.entries k).row_id ≢ row) where
      abbrev m : ℕ
      m = min_rac_entry s.entries

      replaced-Next : Next (replace_or_spill bank row m s)
      unfolding replace_or_spill inc64
      replaced-Next =
          let (same_prt, same_rct, t) = kept in
          let sp = s.spillover_counter in
          let (inside, least) = min_rac_entry_lem s.entries (omega (arith, t.len)) in
          let m_lt : m < size = omega (arith, t.len) in
          let one : 2 ^ bank % 2 ^ 64 ≡ 2 ^ bank = omega (arith, pow-lt bank 64 bank_lt) in
          let one_more : inc64 sp ≡ sp + 1 = omega (arith, t.spill) in
          let none_a : row ≡ a → (k : ℕ) → k < size → (entry_at s.entries k).row_id ≢ a =
            λ same k p x. missing k p (x ∙ sym same) in
          elim (Bool-cases ((entry_at s.entries m).rac == sp)) [
            | inl level ↦
                rw (replace_or_spill, level, one, one_more)
                  (inr (
                    same_prt,
                    same_rct,
                    set-Keeps a b prt rct size real c sp s.entries t m m_lt
                        (record { row_id = row; rac = sp + 1; sav = 2 ^ bank })
                        (omega (arith, t.spill)) (pow-lt bank 64 bank_lt)
                        (count_after a b row bank 0 c)
                        (λ x. (
                          λ k p ne. none_a x k p,
                          ground (arith, test_bit-pow b bank, t.unseen (none_a x)),
                        ))
                        (λ x. (ground arith, λ y. ground (arith, t.seen m m_lt y)))
                        (inl (λ k p. ground (arith, least k (omega (arith, t.len))), omega arith)),
                  ))
            | inr apart ↦ elim (Bool-cases (ltb sp (entry_at s.entries m).rac)) [
              | inl above ↦ elim (Bool-cases (sp + 1 == rct)) [
                | inl full ↦
                    rw (replace_or_spill, apart, above, one_more)
                      (inl (record {
                        prt_is = same_prt;
                        rct_is = same_rct;
                        len = t.len;
                        full = ground arith;
                      }))
                | inr room ↦
                    rw (replace_or_spill, apart, above, one_more)
                      (inr (
                        same_prt,
                        same_rct,
                        spill-Keeps c (count_after a b row bank 0 c) sp s.entries t
                            (ground (arith, t.spill))
                            (λ k p. ground (arith, least k (omega (arith, t.len)))) (ground arith)
                            (λ k p x. ground (arith, missing k p)),
                      ))
              ]
              | inr below ↦
                  rw (replace_or_spill, apart, below)
                    (inr (refresh_cycle-IsKept s same_prt same_rct t.len (omega (arith, t.spill))))
            ]
          ]

      missing-Next : Next (activate_missing bank row s)
      unfolding activate_missing
      missing-Next =
          let (same_prt, same_rct, t) = kept in
          let (inside, least) = min_rac_entry_lem s.entries (omega (arith, t.len)) in
          let below : ((entry_at s.entries m).rac == s.prt) ≡ false =
            ground (arith, same_prt, t.each m (omega (arith, t.len))) in
          rw (activate_missing, below) replaced-Next

    answered-Next :
        let i = find_row s.entries row in
        Next
          (if i == length s.entries then activate_missing bank row s else activate_found bank i s)
    answered-Next = elim (find_row_lem s.entries row) [
      | inl (inside, own) ↦
          let found : (find_row s.entries row == length s.entries) ≡ false = ground arith in
          rw found (
            inr (
              found-IsKept a b prt rct size real some_entry ordered small bank row c s bank_lt kept
                inside own))
      | inr (last, none) ↦
          let (_, _, t) = kept in
          let absent : (find_row s.entries row == length s.entries) ≡ true = ground arith in
          rw absent (missing-Next (λ k p. none k (omega (arith, t.len))))
    ]

    Next-IsKept :
        (r : Abacus × ℕ)
        → Next r
        → let r' = if r.0.spillover_counter == r.0.rct then (refresh_cycle r.0, 2) else r in
          IsKept a b prt rct size real some_entry ordered small
            (count_after a b row bank r'.1 c)
            r'.0
    Next-IsKept r (inl h) =
        let at_end : (r.0.spillover_counter == r.0.rct) ≡ true = ground (arith, h.rct_is, h.full) in
        let (_, _, t) = kept in
        rw at_end (refresh_cycle-IsKept r.0 h.prt_is h.rct_is h.len (omega (arith, t.spill)))
    Next-IsKept r (inr (same_prt, same_rct, t)) =
        let before : (r.0.spillover_counter == r.0.rct) ≡ false =
          ground (arith, same_rct, t.spill) in
        rw before (same_prt, same_rct, t)

    pub abacus_activate-IsKept :
        let r = abacus_activate bank row s in
        IsKept a b prt rct size real some_entry ordered small (count_after a b row bank r.1 c) r.0
    unfolding abacus_activate
    abacus_activate-IsKept =
        let i = find_row s.entries row in
        Next-IsKept
          (if i == length s.entries then activate_missing bank row s else activate_found bank i s)
          answered-Next
