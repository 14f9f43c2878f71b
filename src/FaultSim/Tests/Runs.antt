-- ===== src/FaultSim/Tests/Runs.antt =====
-- The theorems on the injections and the runs, on concrete arrays and random values.
use row_armor.Base.{
  ℕ, ◌+◌, ◌-◌, ◌*◌, ◌<◌, ◌≡◌, ◌&&◌, ltb, leb, ◌==◌, if◌then◌else◌, List, ◌∷◌, replicate, get_or,
  some, none, ◌⊎◌, arith,
}
use row_armor.FaultSim.Config.{amdchipkill, qpc, ooc, ce, oecc_off, sce, ResultType}
use row_armor.FaultSim.Field.Table.{gf_row, gf_row-IsPowerTable}
use row_armor.FaultSim.Grid.{
  Grid, cell, set_cell, blank, IsGrid, blank-IsGrid, cell-blank, set_cell-IsGrid, cell-set_cell,
}
use row_armor.FaultSim.Inject.{error_injection_chipkill}
use row_armor.FaultSim.Inject.Chipkill.{IsFlipped, error_injection_chipkill-IsFlipped, drop}
use row_armor.FaultSim.Run.{run_amdchipkill, run_qpc, run_ooc, run_all, Counts}
use row_armor.FaultSim.Run.Amd.{IsOneChip, run_amdchipkill_one_chip}
use row_armor.FaultSim.Run.Blocks.{IsHonest, run_qpc-IsHonest, run_ooc-IsHonest}
use row_armor.FaultSim.Run.ChipFault.{chip_fault_ce}
use row_armor.FaultSim.Run.Tally.{outcomes, AreCounted, run_all-AreCounted, total}
use row_armor.FaultSim.Transfer.{load, store, sdc_check}
use row_armor.FaultSim.Transfer.Check.{Answer, sdc_check-Answer}
use row_armor.FaultSim.Transfer.Cells.{load-cell, cell-store}

-- Two wrong bits in chip 3.
abbrev pub faulty : Grid
faulty = set_cell (set_cell blank 3 5 1) 3 40 1

once-IsGrid : IsGrid (set_cell blank 3 5 1)
once-IsGrid = set_cell-IsGrid blank 3 5 1 blank-IsGrid

faulty-IsGrid : IsGrid faulty
faulty-IsGrid = set_cell-IsGrid (set_cell blank 3 5 1) 3 40 1 once-IsGrid

faulty-cell :
    (i b : ℕ)
    → cell faulty i b ≡ (if (3 == i) && (40 == b) then 1 else if (3 == i) && (5 == b) then 1 else 0)
faulty-cell i b = ground (
  arith,
  cell-set_cell (set_cell blank 3 5 1) 3 40 1 i b once-IsGrid (omega arith) (omega arith),
  cell-set_cell blank 3 5 1 i b blank-IsGrid (omega arith) (omega arith),
  cell-blank i b,
)

pub faulty-IsOneChip : IsOneChip 3 faulty
faulty-IsOneChip = record {
  grid = faulty-IsGrid;
  bits = λ i b h. ground (arith, faulty-cell i b);
  others = λ i b h away. ground (arith, faulty-cell i b);
}

run_amdchipkill_one_chip_example :
    let r = run_amdchipkill gf_row 7 (λ _. 1) (λ _. 2) faulty in
    (r.1 ≡ ce) × ((i b : ℕ) → i < 10 → b < 64 → cell r.0 i b ≡ 0)
run_amdchipkill_one_chip_example =
    run_amdchipkill_one_chip gf_row gf_row-IsPowerTable 7 3 (omega arith) (λ _. 1) (λ _. 2) faulty
      faulty-IsOneChip

abbrev draws : List ℕ
draws = 5 ∷ 8 ∷ 11 ∷ replicate 61 3

chip_fault_ce_example :
    (g : Grid) × (error_injection_chipkill 4 blank amdchipkill draws ≡ some (g, drop 64 draws))
    × ((run_amdchipkill gf_row 7 (λ _. 1) (λ _. 2) g).1 ≡ ce)
    × ((i b : ℕ) → i < 10 → b < 64 → cell (run_amdchipkill gf_row 7 (λ _. 1) (λ _. 2) g).0 i b ≡ 0)
chip_fault_ce_example =
    chip_fault_ce gf_row gf_row-IsPowerTable 7 (λ _. 1) (λ _. 2) 4 draws (omega arith) (omega arith)

run_qpc-IsHonest_example : let r = run_qpc gf_row 7 faulty in IsHonest r.0 10 0 64 r.1
run_qpc-IsHonest_example = run_qpc-IsHonest gf_row 7 faulty faulty-IsGrid

run_ooc-IsHonest_example : let r = run_ooc gf_row 7 faulty in IsHonest r.0 20 0 32 r.1
run_ooc-IsHonest_example = run_ooc-IsHonest gf_row 7 faulty

error_injection_chipkill-IsFlipped_example :
    (g' : Grid) × (error_injection_chipkill 12 faulty ooc draws ≡ some (g', drop 64 draws))
    × IsFlipped 12 0 64 draws faulty g'
error_injection_chipkill-IsFlipped_example =
    error_injection_chipkill-IsFlipped 12 faulty ooc draws (omega arith) (omega arith) faulty-IsGrid

abbrev no_counts : Counts
no_counts = record { ce_cnt = 4; due_cnt = 1; sdc_cnt = 0 }

-- The draws of the four chips and pins, then those of a chip fault.
abbrev run_draws : List ℕ
run_draws = 4 ∷ 5 ∷ 6 ∷ 7 ∷ 0 ∷ 1 ∷ 2 ∷ 3 ∷ draws

run_all-AreCounted_example :
    ((run_all gf_row 7 (λ _. 1) (λ _. 2) oecc_off sce qpc 1 no_counts run_draws ≡ none)
      × (outcomes gf_row 7 (λ _. 1) (λ _. 2) oecc_off sce qpc 1 run_draws ≡ none))
    ⊎ ((m : Counts) × (results : List ResultType) × (rest : List ℕ) × (run_all gf_row 7
            (λ _. 1)
            (λ _. 2)
            oecc_off
            sce
            qpc
            1
            no_counts
            run_draws
          ≡ some (m, rest))
        × (outcomes gf_row 7 (λ _. 1) (λ _. 2) oecc_off sce qpc 1 run_draws ≡ some (results, rest))
        × AreCounted no_counts m results
        × (total m ≡ total no_counts + 1))
run_all-AreCounted_example =
    run_all-AreCounted gf_row 7 (λ _. 1) (λ _. 2) oecc_off sce qpc 1 no_counts run_draws

sdc_check-Answer_example : Answer faulty 0 10 32 32 (sdc_check 1 faulty qpc)
sdc_check-Answer_example = sdc_check-Answer 1 faulty qpc

load-cell_example : get_or (load 7 32 10 32 faulty) (3 * 32 + 8) 0 ≡ cell faulty 3 (32 + 8)
load-cell_example = load-cell 7 32 10 32 faulty 3 8 (omega arith) (omega arith)

cell-store_example : cell (store 32 10 32 (replicate 320 1) faulty) 3 40 ≡ (
    if leb 32 40 && (ltb 40 (32 + 32) && ltb 3 10)
    then get_or (replicate 320 1) (3 * 32 + (40 - 32)) 0
    else cell faulty 3 40)
cell-store_example =
    cell-store 32 10 32 (replicate 320 1) faulty (omega arith) (omega arith) faulty-IsGrid 3 40
