-- ===== src/McSim/Hydra.antt =====
-- Class Hydra of perf_simulation/McSim/PTSMemoryController.cc: counters of groups of rows (GCT), of
-- single rows (RCT), and a small cache of these (RCC).
pub mod Update
pub mod Guarantee
pub mod Cache
use row_armor.Base.{
  ℕ, zero, suc, ◌+◌, ◌/◌, ◌%◌, ◌^◌, ltb, leb, ◌==◌, if◌then◌else◌, List, [], ◌∷◌, Option, none,
  some, length, Bool, true, false, ◌||◌,
}
use row_armor.Base.Word.{inc64}
use row_armor.Base.Tables.{insert_at}

-- What the constructor sets once and for all.
pub record HydraConfig : Type 0 where
  pub hydra_gct_threshold : ℕ
  pub hydra_gct_num_entries : ℕ
  pub hydra_rcc_num_entries : ℕ
  pub hydra_rct_threshold : ℕ
  pub page_sz_base_bit : ℕ
  pub group_base_bit : ℕ

pub record Hydra : Type 0 where
  pub gct : ℕ → Option ℕ
  pub rcc : List ℕ
  pub rct : ℕ → Option ℕ
  pub num_rct_access : ℕ
  pub num_gct_access : ℕ
  pub num_rcc_access : ℕ

-- `while (num_groups > 1)` of the constructor, on fuel: 32 rounds are enough for 32 bits.
unfoldable pub log2_from : ℕ → ℕ → ℕ → ℕ
log2_from zero num_groups log2 = log2
log2_from (suc fuel) num_groups log2 =
    let rest = log2_from fuel (num_groups / 2) (log2 + 1) in if ltb 1 num_groups then rest else log2

unfoldable pub hydra_config : ℕ → ℕ → ℕ → ℕ → ℕ → ℕ → HydraConfig
unfolding log2_from
hydra_config gct_threshold gct_num_entries rcc_num_entries rct_threshold num_max_rows page_bit =
    record {
      hydra_gct_threshold = gct_threshold;
      hydra_gct_num_entries = gct_num_entries;
      hydra_rcc_num_entries = rcc_num_entries;
      hydra_rct_threshold = rct_threshold;
      page_sz_base_bit = page_bit;
      group_base_bit = log2_from 32 (num_max_rows / gct_num_entries % 2 ^ 32) 0;
    }

unfoldable pub empty_gct : HydraConfig → ℕ → Option ℕ
empty_gct p i = if ltb i p.hydra_gct_num_entries then some 0 else none

unfoldable pub hydra_start : HydraConfig → Hydra
unfolding empty_gct
hydra_start p = record {
  gct = empty_gct p;
  rcc = [];
  rct = λ _. none;
  num_rct_access = 0;
  num_gct_access = 0;
  num_rcc_access = 0;
}

unfoldable pub hydra_reset : HydraConfig → Hydra → Hydra
unfolding empty_gct
hydra_reset p s = record s { gct = empty_gct p; rcc = []; rct = λ _. none }

unfoldable pub row_of : HydraConfig → ℕ → ℕ
row_of p address = address / 2 ^ p.page_sz_base_bit

unfoldable pub get_gct_idx : HydraConfig → ℕ → ℕ
unfolding row_of
get_gct_idx p address = row_of p address / 2 ^ p.group_base_bit

unfoldable pub is_cached : ℕ → List ℕ → Bool
is_cached row [] = false
is_cached row (x ∷ rcc) = (row == x) || is_cached row rcc

-- `rcc.erase(it)` at the first entry of the row.
unfoldable pub erase_row : ℕ → List ℕ → List ℕ
erase_row row [] = []
erase_row row (x ∷ rcc) = if row == x then rcc else x ∷ erase_row row rcc

-- `pop_back`; of an empty queue it is undefined.
unfoldable pub pop_back : List ℕ → List ℕ
pop_back [] = []
pop_back (x ∷ []) = []
pop_back (x ∷ y ∷ rcc) = x ∷ pop_back (y ∷ rcc)

unfoldable pub cache_row : ℕ → ℕ → List ℕ → List ℕ
unfolding is_cached erase_row pop_back
cache_row entries row rcc =
    if is_cached row rcc
    then row ∷ erase_row row rcc
    else row ∷ (if length rcc == entries then pop_back rcc else rcc)

-- 1 if the table in memory has to be read.
unfoldable pub query_rcc : HydraConfig → ℕ → Hydra → Hydra × ℕ
unfolding cache_row row_of
query_rcc p address s =
    let row = row_of p address in
    let s' = record s { rcc = cache_row p.hydra_rcc_num_entries row s.rcc } in
    if is_cached row s.rcc
    then (record s' { num_rcc_access = inc64 s.num_rcc_access }, 0)
    else (record s' { num_rct_access = inc64 s.num_rct_access }, 1)

-- 2 if the row's neighbours have to be refreshed.
unfoldable pub update_rct : HydraConfig → ℕ → Hydra → Hydra × ℕ
unfolding row_of inc64
update_rct p address s =
    let row = row_of p address in
    elim (s.rct row) [
      | none ↦ (record s { rct = insert_at row (some p.hydra_gct_threshold) s.rct }, 0)
      | some count ↦
          if leb p.hydra_rct_threshold (inc64 count)
          then (record s { rct = insert_at row (some 0) s.rct }, 2)
          else (record s { rct = insert_at row (some (inc64 count)) s.rct }, 0)
    ]

-- The answers of the two tables are added.
unfoldable pub hydra_activate_row : HydraConfig → ℕ → Hydra → Hydra × ℕ
unfolding query_rcc update_rct
hydra_activate_row p address s =
    let (s1, miss) = query_rcc p address s in
    let (s2, refresh) = update_rct p address s1 in (s2, miss + refresh)

unfoldable pub count_group : ℕ → ℕ → Hydra → Hydra
unfolding inc64
count_group gidx count s = record s {
  gct = insert_at gidx (some count) s.gct;
  num_gct_access = inc64 s.num_gct_access;
}

unfoldable pub hydra_activate : HydraConfig → ℕ → Hydra → Hydra × ℕ
unfolding get_gct_idx hydra_activate_row count_group
hydra_activate p address s =
    let gidx = get_gct_idx p address % p.hydra_gct_num_entries in
    elim (s.gct gidx) [
      | none ↦ (count_group gidx 1 s, 0)
      | some count ↦
          if ltb count p.hydra_gct_threshold
          then (count_group gidx (inc64 count) s, 0)
          else hydra_activate_row p address s
    ]
