-- ===== src/McSim/Abacus.antt =====
-- Class ABACuS of perf_simulation/McSim/PTSMemoryController.cc: one counter and one vector of bank
-- bits for each of a few rows.
pub mod Bits
pub mod Find
pub mod Keep
pub mod Step
pub mod Activate
pub mod Guarantee
use row_armor.Base.{
  ℕ, zero, suc, ◌+◌, ◌/◌, ◌%◌, ◌^◌, ltb, ◌==◌, if◌then◌else◌, ◌&&◌, not, List, [], ◌∷◌, length,
  get_or, set, replicate, Bool, true, false,
}
use row_armor.Base.Word.{inc64}
use row_armor.McSim.Abacus.Bits.{test_bit}

pub record AbacusEntry : Type 0 where
  pub row_id : ℕ
  pub rac : ℕ
  pub sav : ℕ

unfoldable pub reset_entry : AbacusEntry
reset_entry = record { row_id = 0; rac = 0; sav = 0 }

pub record Abacus : Type 0 where
  pub entries : List AbacusEntry
  pub spillover_counter : ℕ
  pub prt : ℕ
  pub rct : ℕ
  pub num_refresh_cycle : ℕ
  pub num_preventive_refreshes : ℕ
  pub num_periodic_refresh : ℕ

abbrev pub entry_at : List AbacusEntry → ℕ → AbacusEntry
entry_at es i = get_or es i reset_entry

-- The constructor: `resize` makes empty entries.
unfoldable pub abacus_start : ℕ → ℕ → ℕ → Abacus
abacus_start num_entries prt rct = record {
  entries = replicate num_entries reset_entry;
  spillover_counter = 0;
  prt = prt;
  rct = rct;
  num_refresh_cycle = 0;
  num_preventive_refreshes = 0;
  num_periodic_refresh = 0;
}

-- `std::find_if`: the first entry of the row, the length if there is none.
unfoldable pub find_row : List AbacusEntry → ℕ → ℕ
find_row [] row = 0
find_row (e ∷ es) row = if e.row_id == row then 0 else suc (find_row es row)

-- `std::min_element`: the first entry with the lowest counter; of no entries, the end.
unfoldable pub min_rac_entry : List AbacusEntry → ℕ
min_rac_entry [] = 0
min_rac_entry (e ∷ []) = 0
min_rac_entry (e ∷ f ∷ es) =
    let rest = min_rac_entry (f ∷ es) in
    if ltb (entry_at (f ∷ es) rest).rac e.rac then suc rest else 0

unfoldable pub refresh_cycle : Abacus → Abacus
refresh_cycle s = record s {
  entries = replicate (length s.entries) reset_entry;
  spillover_counter = 0;
  num_refresh_cycle = inc64 s.num_refresh_cycle;
}

unfoldable pub abacus_periodic_refresh : Abacus → Abacus
abacus_periodic_refresh s = record s {
  entries = replicate (length s.entries) reset_entry;
  num_periodic_refresh = inc64 s.num_periodic_refresh;
}

unfoldable pub preventive_refresh : Abacus → Abacus
preventive_refresh s = record s { num_preventive_refreshes = inc64 s.num_preventive_refreshes }

-- The counter and the bank bits of an entry that is activated.
unfoldable pub counted_entry : ℕ → AbacusEntry → AbacusEntry
unfolding inc64 test_bit
counted_entry bank e =
    if test_bit bank e.sav
    then record e { rac = inc64 e.rac; sav = 2 ^ bank % 2 ^ 64 }
    else record e { sav = (e.sav + 2 ^ bank % 2 ^ 64) % 2 ^ 64 }

-- An activation of a row that has the entry `i`; the answer 1 asks for a refresh of the row.
unfoldable pub activate_found : ℕ → ℕ → Abacus → Abacus × ℕ
unfolding counted_entry
activate_found bank i s =
    let e = counted_entry bank (entry_at s.entries i) in
    if ((e.rac % s.prt) == 0) && not (e.rac == 0)
    then (
      record s {
        entries = set s.entries i (record e { rac = inc64 s.spillover_counter; sav = 0 });
      },
      1,
    )
    else (record s { entries = set s.entries i e }, 0)

-- What a row without an entry does to the lowest entry `m`, by its counter.
unfoldable pub replace_or_spill : ℕ → ℕ → ℕ → Abacus → Abacus × ℕ
unfolding refresh_cycle
replace_or_spill bank row m s =
    let min_rac = (entry_at s.entries m).rac in
    if min_rac == s.spillover_counter
    then (
      record s {
        entries =
            set s.entries m
              (record { row_id = row; rac = inc64 s.spillover_counter; sav = 2 ^ bank % 2 ^ 64 });
      },
      0,
    )
    else if ltb s.spillover_counter min_rac
    then (record s { spillover_counter = inc64 s.spillover_counter }, 0)
    else (refresh_cycle s, 2)

unfoldable pub activate_missing : ℕ → ℕ → Abacus → Abacus × ℕ
unfolding replace_or_spill
activate_missing bank row s =
    let m = min_rac_entry s.entries in
    let (s', answer) = replace_or_spill bank row m s in
    if (entry_at s.entries m).rac == s.prt
    then (
      record s' {
        entries =
            set s'.entries m
              (record (entry_at s'.entries m) { rac = s'.spillover_counter; sav = 0 });
      },
      1,
    )
    else (s', answer)

-- 1 asks for a refresh of the row's neighbours, 2 for a refresh of all rows.
unfoldable pub abacus_activate : ℕ → ℕ → Abacus → Abacus × ℕ
unfolding activate_found activate_missing find_row
abacus_activate bank row s =
    let i = find_row s.entries row in
    let (s', answer) =
      if i == length s.entries then activate_missing bank row s else activate_found bank i s in
    if s'.spillover_counter == s'.rct then (refresh_cycle s', 2) else (s', answer)
