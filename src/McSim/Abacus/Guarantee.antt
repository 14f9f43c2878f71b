-- ===== src/McSim/Abacus/Guarantee.antt =====
-- How often class ABACuS lets a row be activated without a refresh.
use Prim.{Unit}
use row_armor.Base.{ℕ, ◌^◌, ◌<◌, ◌≢◌, inl, inr, refl, arith, List, [], ◌∷◌}
use row_armor.McSim.Abacus.{
  Abacus, find_row, abacus_start, abacus_activate, abacus_periodic_refresh, refresh_cycle,
}
use row_armor.McSim.Abacus.Find.{find_row_lem}
use row_armor.McSim.Abacus.Keep.{reset-Keeps}
use row_armor.McSim.Abacus.Step.{count_after, IsKept}
use row_armor.McSim.Abacus.Activate.{refresh_cycle-IsKept, abacus_activate-IsKept}

-- What the memory controller calls: an activation in one of the 64 banks that the bits hold, the
-- refresh cycle that an answer 2 asked for, or the refresh at the end of a refresh window.
pub data AbacusCall : Type 0 where
  activation : (bank row : ℕ) → AbacusCall
  refresh_all : AbacusCall
  refresh_window : AbacusCall

abbrev pub IsBank : AbacusCall → Type 0
IsBank (activation bank row) = bank < 64
IsBank refresh_all = Unit
IsBank refresh_window = Unit

abbrev pub AreBanks : List AbacusCall → Type 0
AreBanks [] = Unit
AreBanks (call ∷ calls) = IsBank call × AreBanks calls

abbrev pub abacus_call : AbacusCall → Abacus → Abacus × ℕ
abacus_call (activation bank row) s = abacus_activate bank row s
abacus_call refresh_all s = (refresh_cycle s, 2)
abacus_call refresh_window s = (abacus_periodic_refresh s, 2)

abbrev pub count_after_call : ℕ → ℕ → AbacusCall → ℕ → ℕ → ℕ
count_after_call a b (activation bank row) answer c = count_after a b row bank answer c
count_after_call a b refresh_all answer c = 0
count_after_call a b refresh_window answer c = 0

-- The activations of the row `a` in the bank `b` since the last refresh of its neighbours, after
-- some calls.
abbrev pub unrefreshed_in : ℕ → ℕ → List AbacusCall → ℕ → Abacus → ℕ
unrefreshed_in a b [] c s = c
unrefreshed_in a b (call ∷ calls) c s =
    let (s', answer) = abacus_call call s in
    unrefreshed_in a b calls (count_after_call a b call answer c) s'

module _ (a b prt rct size : ℕ) (real : a ≢ 0) (some_entry : 0 < size) (ordered : rct < prt)
    (small : prt < 2 ^ 64) where
  abbrev Kept : ℕ → Abacus → Type 0
  Kept = IsKept a b prt rct size real some_entry ordered small

  call-Kept :
      (call : AbacusCall) (c : ℕ) (s : Abacus)
      → IsBank call
      → Kept c s
      → let r = abacus_call call s in Kept (count_after_call a b call r.1 c) r.0
  unfolding abacus_periodic_refresh
  call-Kept (activation bank row) c s bank_lt kept =
      abacus_activate-IsKept a b prt rct size real some_entry ordered small bank row c s bank_lt
        kept
  call-Kept refresh_all c s bank_lt (same_prt, same_rct, t) =
      refresh_cycle-IsKept a b prt rct size real some_entry ordered small s same_prt same_rct t.len
        (omega (arith, t.spill))
  call-Kept refresh_window c s bank_lt (same_prt, same_rct, t) = rw t.len (
    same_prt,
    same_rct,
    reset-Keeps a b prt rct size real s.spillover_counter t.spill (omega arith),
  )

  Kept-lt : (c : ℕ) (s : Abacus) → Kept c s → c < prt
  Kept-lt c s (same_prt, same_rct, t) = elim (find_row_lem s.entries a) [
    | inl (inside, own) ↦
        let k_lt : find_row s.entries a < size = omega (arith, t.len) in
        omega (arith, t.seen (find_row s.entries a) k_lt own, t.each (find_row s.entries a) k_lt)
    | inr (missing, none) ↦ omega (arith, t.unseen (λ k p. none k (omega (arith, t.len))), t.spill)
  ]

  unrefreshed_in-lt :
      (calls : List AbacusCall) (c : ℕ) (s : Abacus)
      → AreBanks calls
      → Kept c s
      → unrefreshed_in a b calls c s < prt
  unrefreshed_in-lt [] c s banks kept = Kept-lt c s kept
  unrefreshed_in-lt (call ∷ calls) c s (bank_lt, banks) kept =
      unrefreshed_in-lt calls (count_after_call a b call (abacus_call call s).1 c)
        (abacus_call call s).0 banks (call-Kept call c s bank_lt kept)

-- ABACuS' guarantee: from the constructor on, with at least one entry and 0 < rct < prt < 2 ^ 64,
-- whatever rows of the first 64 banks are activated and however often all rows are refreshed in
-- between, no row but row 0 is activated `prt` times in a bank without a refresh of its neighbours.
pub abacus_guarantee :
    (a b prt rct size : ℕ) (calls : List AbacusCall)
    → a ≢ 0
    → 0 < size
    → 0 < rct
    → rct < prt
    → prt < 2 ^ 64
    → AreBanks calls
    → unrefreshed_in a b calls 0 (abacus_start size prt rct) < prt
unfolding abacus_start
abacus_guarantee a b prt rct size calls real some_entry pos ordered small banks =
    unrefreshed_in-lt a b prt rct size real some_entry ordered small calls 0
      (abacus_start size prt rct) banks
      (refl, refl, reset-Keeps a b prt rct size real 0 pos (omega arith))
