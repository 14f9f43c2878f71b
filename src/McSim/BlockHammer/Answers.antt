-- ===== src/McSim/BlockHammer/Answers.antt =====
-- The answer of `ACT` of class BlockHammer.
use row_armor.Base.{
  ℕ, ◌≡◌, ◌≢◌, ◌==◌, ◌||◌, if◌then◌else◌, some, Bool, true, false, arith, refl, Bool-cases, inl,
  inr,
}
use row_armor.McSim.BlockHammer.{BankBlocker, act, count_filters, count_attack}
use row_armor.McSim.BlockHammer.Cbf.{not_listed}
use row_armor.McSim.BlockHammer.History.{hb_update}

-- Where a filter is valid and the row is not -1, `ACT` returns and its answer is never the row, even
-- if the row is on the blacklist and was activated a moment ago: `RowBlockerHB::update` always
-- answers false.
pub act-not_listed :
    (lookup_hash : ℕ → ℕ → ℕ) (lower_bound : ℕ → ℕ) (attackthrottler : Bool)
    (row bank th_id time : ℕ) (s : BankBlocker)
    → row ≢ not_listed
    → (s.first_cbf.valid || s.second_cbf.valid) ≡ true
    → (s' : BankBlocker) × (act lookup_hash lower_bound attackthrottler row bank th_id time s
        ≡ some (s', not_listed))
unfolding act count_filters hb_update
act-not_listed lookup_hash lower_bound attackthrottler row bank th_id time s real alive =
    let is_row : (row == not_listed) ≡ false = ground arith in
    let (s1, first_answer, second_answer, recent) =
      count_filters lookup_hash lower_bound row bank time s in
    let listed = (if s.first_cbf.valid then first_answer else second_answer) == row in
    elim (Bool-cases listed) [
      | inl on ↦ (count_attack attackthrottler th_id listed s1, rw (act, is_row, alive, on) refl)
      | inr off ↦ (count_attack attackthrottler th_id listed s1, rw (act, is_row, alive, off) refl)
    ]
