-- ===== src/McSim/BlockHammer.antt =====
-- Class BlockHammer of perf_simulation/McSim/PTSMemoryController.cc, which slows down the rows that
-- are activated too often. The source has arrays of filters and throttlers by rank and bank, and of
-- histories by rank and in them by bank: here one record stands for each bank.
pub mod Cbf
pub mod History
pub mod Throttler
pub mod Window
pub mod Watch
pub mod Step
pub mod Guarantee
pub mod Answers
use row_armor.Base.{
  ℕ, ◌==◌, ◌&&◌, ◌||◌, if◌then◌else◌, List, [], Option, none, some, Bool, true, false,
}
use row_armor.McSim.BlockHammer.Cbf.{
  RowBlockerCbf, cbf_start, validate, cbf_update, cbf_query, cbf_reset, not_listed,
}
use row_armor.McSim.BlockHammer.History.{HistoryEntry, hb_update, hb_query}
use row_armor.McSim.BlockHammer.Throttler.{
  AttackThrottler, throttler_start, update_bl_acts, throttler_reset, throttler_validate,
}

pub record BankBlocker : Type 0 where
  pub first_cbf : RowBlockerCbf
  pub second_cbf : RowBlockerCbf
  pub history : List HistoryEntry
  pub first_throttler : AttackThrottler
  pub second_throttler : AttackThrottler

-- The constructor, for one bank.
unfoldable pub blocker_start : ℕ → ℕ → ℕ → BankBlocker
unfolding cbf_start validate
blocker_start blist_th cnt_size tot_num_hashes = record {
  first_cbf = validate true (cbf_start blist_th cnt_size tot_num_hashes);
  second_cbf = validate false (cbf_start blist_th cnt_size tot_num_hashes);
  history = [];
  first_throttler = throttler_validate true throttler_start;
  second_throttler = throttler_validate false throttler_start;
}

-- Step 3 of `ACT`: a thread that activates a listed row is counted in the valid throttler.
unfoldable pub count_attack : Bool → ℕ → Bool → BankBlocker → BankBlocker
count_attack attackthrottler th_id listed s =
    if attackthrottler && listed
    then (if s.first_throttler.valid
        then record s { first_throttler = update_bl_acts th_id s.first_throttler }
        else record s { second_throttler = update_bl_acts th_id s.second_throttler })
    else s

module _ (lookup_hash : ℕ → ℕ → ℕ) (lower_bound : ℕ → ℕ) where
  -- Steps 1 and 2 of `ACT`, both filters count; the answers of the filters and of the history.
  unfoldable pub count_filters : ℕ → ℕ → ℕ → BankBlocker → BankBlocker × ℕ × ℕ × Bool
  unfolding cbf_update hb_update
  count_filters row bank curr_time s =
      let (first, first_answer) = cbf_update lookup_hash row s.first_cbf in
      let (second, second_answer) = cbf_update lookup_hash row s.second_cbf in
      let (history, recent) = hb_update lower_bound row bank curr_time s.history in
      (
        record s { first_cbf = first; second_cbf = second; history = history },
        first_answer,
        second_answer,
        recent,
      )

  -- `none` where an assertion fails: for the row -1, and where no filter is valid.
  unfoldable pub act : Bool → ℕ → ℕ → ℕ → ℕ → BankBlocker → Option (BankBlocker × ℕ)
  unfolding count_filters count_attack
  act attackthrottler row bank th_id curr_time s =
      let (s', first_answer, second_answer, recent) = count_filters row bank curr_time s in
      let bl_address = if s.first_cbf.valid then first_answer else second_answer in
      if (row == not_listed)
      then none
      else if s.first_cbf.valid || s.second_cbf.valid
      then some (
        count_attack attackthrottler th_id (bl_address == row) s',
        if (bl_address == row) && recent then row else not_listed,
      )
      else none

  unfoldable pub query_rowblocker : ℕ → ℕ → ℕ → BankBlocker → Option (BankBlocker × ℕ)
  unfolding cbf_query hb_query
  query_rowblocker row bank curr_time s =
      let bl_address =
        if s.first_cbf.valid
        then cbf_query lookup_hash row s.first_cbf
        else cbf_query lookup_hash row s.second_cbf in
      let (history, recent) = hb_query lower_bound row bank curr_time s.history in
      if s.first_cbf.valid || s.second_cbf.valid
      then some (
        record s { history = history },
        if (bl_address == row) && recent then row else not_listed,
      )
      else none

-- What the memory controller does to the bank at the start of a refresh window, page 0, and at
-- page 4096: the other filter and throttler are reset.
unfoldable pub half_window : Bool → Bool → BankBlocker → BankBlocker
unfolding validate cbf_reset throttler_validate throttler_reset
half_window attackthrottler first s =
    if first
    then record s {
      first_cbf = validate true s.first_cbf;
      second_cbf = cbf_reset (validate false s.second_cbf);
      first_throttler =
          if attackthrottler then throttler_validate true s.first_throttler else s.first_throttler;
      second_throttler =
          if attackthrottler
          then throttler_reset (throttler_validate false s.second_throttler)
          else s.second_throttler;
    }
    else record s {
      second_cbf = validate true s.second_cbf;
      first_cbf = cbf_reset (validate false s.first_cbf);
      second_throttler =
          if attackthrottler
          then throttler_validate true s.second_throttler
          else s.second_throttler;
      first_throttler =
          if attackthrottler
          then throttler_reset (throttler_validate false s.first_throttler)
          else s.first_throttler;
    }
