-- ===== src/FaultSim/Transfer.antt =====
-- The copies between `Chip_array` and a codeword in `main` of reliability_eval/Fault_sim.cpp, and
-- the test for bits that are still wrong, `SDC_check`. The copies are written out in the source, by
-- pins of eight cells; here a block is `width` cells of each chip from column `base` on.
pub mod Cells
pub mod Check
use row_armor.Base.{
  ℕ, zero, suc, ◌+◌, ◌*◌, Bool, true, false, ◌==◌, if◌then◌else◌, List, get_or, set, replicate,
}
use row_armor.Base.Loops.{for_range}
use row_armor.FaultSim.Config.{
  chip_num, ooc_chip_num, ooc_oecc_cw_len, oecc_data_len, ReccType, recc_off, amdchipkill, qpc, ooc,
}
use row_armor.FaultSim.Grid.{Grid, cell, set_cell}

unfoldable pub load_chip : ℕ → ℕ → Grid → ℕ → List ℕ → List ℕ
load_chip width base g chip codeword =
    for_range width 0 (λ t w. set w (chip * width + t) (cell g chip (base + t))) codeword

-- The codeword array holds `junk` before it is filled.
unfoldable pub load : ℕ → ℕ → ℕ → ℕ → Grid → List ℕ
unfolding load_chip
load junk width chips base g =
    for_range chips 0 (load_chip width base g) (replicate (chips * width) junk)

unfoldable pub store_chip : ℕ → ℕ → List ℕ → ℕ → Grid → Grid
store_chip width base codeword chip g =
    for_range width 0 (λ t g. set_cell g chip (base + t) (get_or codeword (chip * width + t) 0)) g

unfoldable pub store : ℕ → ℕ → ℕ → List ℕ → Grid → Grid
unfolding store_chip
store width chips base codeword g = for_range chips 0 (store_chip width base codeword) g

-- The inner loop of `SDC_check`, over `left` columns from `pos` on: 1 where a cell is 1, else 0.
unfoldable pub scan_columns : Grid → ℕ → ℕ → ℕ → ℕ
scan_columns g chip zero pos = 0
scan_columns g chip (suc left) pos = elim (cell g chip pos == 1) [
  | true ↦ 1
  | false ↦ scan_columns g chip left (pos + 1)
]

-- The outer loop, over `left` chips from `chip` on, with the columns `lo` to `lo + columns - 1`.
unfoldable pub scan_chips : Grid → ℕ → ℕ → ℕ → ℕ → ℕ
unfolding scan_columns
scan_chips g columns lo zero chip = 0
scan_chips g columns lo (suc left) chip = elim (scan_columns g chip columns lo == 1) [
  | true ↦ 1
  | false ↦ scan_chips g columns lo left (chip + 1)
]

unfoldable pub sdc_check : ℕ → Grid → ReccType → ℕ
unfolding scan_chips
sdc_check bl g ooc = scan_chips g ooc_oecc_cw_len 0 ooc_chip_num 0
sdc_check bl g qpc = scan_chips g 32 (32 * bl) chip_num 0
sdc_check bl g amdchipkill = scan_chips g 8 (bl * 4) chip_num 0
sdc_check bl g recc_off = scan_chips g oecc_data_len 0 chip_num 0
