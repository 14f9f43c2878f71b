-- ===== src/McSim/BlockHammer/History.antt =====
-- Class RowBlockerHB: the rows that were activated a short time ago, as a multimap by time.
pub mod Log
pub mod Recent
pub mod Entries
use row_armor.Base.{ℕ, ltb, leb, ◌==◌, ◌&&◌, ◌||◌, if◌then◌else◌, List, [], ◌∷◌, Bool, true, false}

pub record HistoryEntry : Type 0 where
  pub time : ℕ
  pub bank_num : ℕ
  pub page_num : ℕ

-- `erase(begin(), lower_bound(bound))`.
unfoldable pub expire : ℕ → List HistoryEntry → List HistoryEntry
expire bound [] = []
expire bound (e ∷ es) = if ltb e.time bound then expire bound es else e ∷ es

-- `insert` of a multimap: behind the entries of the same time.
unfoldable pub insert_entry : HistoryEntry → List HistoryEntry → List HistoryEntry
insert_entry e [] = e ∷ []
insert_entry e (f ∷ es) = if leb f.time e.time then f ∷ insert_entry e es else e ∷ f ∷ es

unfoldable pub is_recent : ℕ → ℕ → List HistoryEntry → Bool
is_recent row bank [] = false
is_recent row bank (e ∷ es) = ((e.bank_num == bank) && (e.page_num == row)) || is_recent row bank es

-- `lower_bound`, which the source computes with a floating-point delay and keeps in 32 bits, is a
-- parameter.
module _ (lower_bound : ℕ → ℕ) where
  -- The answer is always false.
  unfoldable pub hb_update : ℕ → ℕ → ℕ → List HistoryEntry → List HistoryEntry × Bool
  unfolding expire insert_entry
  hb_update row bank curr_time es = (
    insert_entry (record { time = curr_time; bank_num = bank; page_num = row })
        (expire (lower_bound curr_time) es),
    false,
  )

  unfoldable pub hb_query : ℕ → ℕ → ℕ → List HistoryEntry → List HistoryEntry × Bool
  unfolding expire is_recent
  hb_query row bank curr_time es =
      let kept = expire (lower_bound curr_time) es in (kept, is_recent row bank kept)
