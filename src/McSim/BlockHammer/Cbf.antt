-- ===== src/McSim/BlockHammer/Cbf.antt =====
-- Class RowBlockerCBF: a counting Bloom filter. Its hash functions, class H3, are a parameter.
pub mod Listed
use row_armor.Base.{
  ℕ, zero, suc, ◌+◌, ◌-◌, ◌%◌, ◌^◌, ltb, leb, if◌then◌else◌, List, [], ◌∷◌, length, get_or, set,
  replicate, Bool, true, false,
}
use row_armor.Base.Loops.{for_range}
use row_armor.Base.Word.{inc64}

pub record RowBlockerCbf : Type 0 where
  pub cnt_table : List ℕ
  pub valid : Bool
  pub blist_th : ℕ
  pub cnt_size : ℕ
  pub tot_num_hashes : ℕ
  pub num_reset : ℕ

unfoldable pub cbf_start : ℕ → ℕ → ℕ → RowBlockerCbf
cbf_start blist_th cnt_size tot_num_hashes = record {
  cnt_table = replicate cnt_size 0;
  valid = false;
  blist_th = blist_th;
  cnt_size = cnt_size;
  tot_num_hashes = tot_num_hashes;
  num_reset = 0;
}

-- `uint64_t(-1)`, which says that the row is not on the blacklist.
abbrev pub not_listed : ℕ
not_listed = 2 ^ 64 - 1

abbrev pub lower : ℕ → ℕ → ℕ
lower n report_minimum = if ltb n report_minimum then n else report_minimum

abbrev pub listed_row : ℕ → ℕ → ℕ → ℕ
listed_row blist_th row report_minimum = if leb blist_th report_minimum then row else not_listed

-- One round of the loop in `update`.
unfoldable pub count_slot : ℕ → List ℕ × ℕ → List ℕ × ℕ
unfolding inc64
count_slot idx (table, report_minimum) =
    let n = inc64 (get_or table idx 0) in (set table idx n, lower n report_minimum)

module _ (lookup_hash : ℕ → ℕ → ℕ) where
  unfoldable pub slot : RowBlockerCbf → ℕ → ℕ → ℕ
  slot s row i = lookup_hash row i % s.cnt_size

  unfoldable pub cbf_update : ℕ → RowBlockerCbf → RowBlockerCbf × ℕ
  unfolding count_slot slot
  cbf_update row s =
      let (table, report_minimum) =
        for_range s.tot_num_hashes 0 (λ i. count_slot (slot s row i)) (s.cnt_table, not_listed) in
      (record s { cnt_table = table }, listed_row s.blist_th row report_minimum)

  unfoldable pub cbf_query : ℕ → RowBlockerCbf → ℕ
  unfolding slot
  cbf_query row s =
      let report_minimum =
        for_range s.tot_num_hashes 0 (λ i. lower (get_or s.cnt_table (slot s row i) 0))
          not_listed in
      listed_row s.blist_th row report_minimum

unfoldable pub cbf_reset : RowBlockerCbf → RowBlockerCbf
unfolding inc64
cbf_reset s = record s {
  cnt_table = replicate (length s.cnt_table) 0;
  num_reset = inc64 s.num_reset;
}

unfoldable pub validate : Bool → RowBlockerCbf → RowBlockerCbf
validate valid s = record s { valid = valid }

unfoldable pub sum_of : List ℕ → ℕ
sum_of [] = 0
sum_of (n ∷ table) = n + sum_of table

-- The sum wraps around in 64 bits.
unfoldable pub sum_cbf : RowBlockerCbf → ℕ
unfolding sum_of
sum_cbf s = sum_of s.cnt_table % 2 ^ 64
