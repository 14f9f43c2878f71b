-- ===== src/FaultSim/Run.antt =====
-- One iteration of `main` of reliability_eval/Fault_sim.cpp, and the counters over all of them.
pub mod Amd
pub mod Blocks
pub mod ChipFault
pub mod Tally
use row_armor.Base.{
  ℕ, zero, suc, ◌+◌, ◌*◌, ◌%◌, Bool, true, false, not, ◌&&◌, ◌||◌, ltb, ◌==◌, if◌then◌else◌, List,
  [], ◌∷◌, ◌++◌, Option, none, some, length, get_or,
}
use row_armor.Base.Loops.{for_range}
use row_armor.FaultSim.Config.{
  chip_num, ooc_chip_num, OeccType, oecc_off, oecc_on, FaultType, sbe, pin_1, sce, dbe, tbe,
  sce_sbe, sce_dbe, sce_sce, rank, ReccType, recc_off, amdchipkill, qpc, ooc, ResultType, ne, ce,
  due, sdc, result_value, result_max,
}
use row_armor.FaultSim.Grid.{Grid, blank}
use row_armor.FaultSim.Inject.{Rand, ◌>>=◌, pure, inject}
use row_armor.FaultSim.Transfer.{load, store, sdc_check}
use row_armor.FaultSim.Amd.{AmdResult, error_correction_amdchipkill}
use row_armor.FaultSim.Rs.Decode.{Decoded, error_correction_ooc, error_correction_qpc}

-- `oecc_recc_fault_type_assignment`, by its three switches; `none` leaves the variable of `main`
-- without a value.
unfoldable pub oecc_assignment : ℕ → Option OeccType
oecc_assignment oecc =
    if oecc == 0 then some oecc_off else (if oecc == 1 then some oecc_on else none)

unfoldable pub fault_assignment : ℕ → Option FaultType
fault_assignment zero = some sbe
fault_assignment (suc zero) = some pin_1
fault_assignment (suc (suc zero)) = some sce
fault_assignment (suc (suc (suc zero))) = some dbe
fault_assignment (suc (suc (suc (suc zero)))) = some tbe
fault_assignment (suc (suc (suc (suc (suc zero))))) = some sce_sbe
fault_assignment (suc (suc (suc (suc (suc (suc zero)))))) = some sce_dbe
fault_assignment (suc (suc (suc (suc (suc (suc (suc zero))))))) = some sce_sce
fault_assignment (suc (suc (suc (suc (suc (suc (suc (suc zero)))))))) = some rank
fault_assignment (suc (suc (suc (suc (suc (suc (suc (suc (suc n))))))))) = none

unfoldable pub recc_assignment : ℕ → Option ReccType
recc_assignment zero = some recc_off
recc_assignment (suc zero) = some amdchipkill
recc_assignment (suc (suc zero)) = some qpc
recc_assignment (suc (suc (suc zero))) = some ooc
recc_assignment (suc (suc (suc (suc n)))) = none

unfoldable pub mem : ℕ → List ℕ → Bool
mem p [] = false
mem p (x ∷ xs) = p == x || mem p xs

-- The loops that draw different positions below `bound`, `left` of which are still to come.
unfoldable pub draw_positions : ℕ → ℕ → List ℕ → Rand (List ℕ)
unfolding mem
draw_positions bound zero found rs = some (found, rs)
draw_positions bound (suc left) found [] = none
draw_positions bound (suc left) found (r ∷ rs) =
    let old = mem (r % bound) found in
    draw_positions bound (if old then suc left else left)
      (if old then found else found ++ (r % bound ∷ [])) rs

abbrev pub is_due : ResultType → Bool
is_due due = true
is_due ne = false
is_due ce = false
is_due sdc = false

-- The `SDC check` after a decoder: only a result that is `CE` or `NE` is checked.
unfoldable pub checked : ResultType → ℕ → ResultType
checked ce error_check = if error_check == 0 then ce else sdc
checked ne error_check = if error_check == 0 then ne else sdc
checked due error_check = due
checked sdc error_check = sdc

-- `final_result_1` or `final_result_2` of a block under a Reed-Solomon code; it starts as `CE`.
unfoldable pub block_result : ResultType → ℕ → ResultType
block_result ce error_check = if error_check == 0 then ce else sdc
block_result ne error_check = if error_check == 0 then ce else sdc
block_result due error_check = due
block_result sdc error_check = ce

module _ (row : List ℕ) (junk : ℕ) where
  -- The case OOC: one block of 32 columns of 20 chips.
  unfoldable pub run_ooc : Grid → Grid × ResultType
  unfolding block_result
  run_ooc g =
      let r = error_correction_ooc row junk (load junk 32 ooc_chip_num 0 g) in
      let g' = store 32 ooc_chip_num 0 r.codeword g in
      (g', block_result r.result (sdc_check 0 g' ooc))

  -- One of the two blocks of the case QPC.
  unfoldable pub qpc_block : ℕ → Grid → Grid × ResultType
  unfolding block_result
  qpc_block bl g =
      let r = error_correction_qpc row junk (load junk 32 chip_num (32 * bl) g) in
      let g' = store 32 chip_num (32 * bl) r.codeword g in
      (g', block_result r.result (sdc_check bl g' qpc))

  unfoldable pub run_qpc : Grid → Grid × ResultType
  unfolding qpc_block
  run_qpc g =
      let (g1, final_result_1) = qpc_block 0 g in
      let (g2, final_result_2) = qpc_block 1 g1 in (g2, result_max final_result_1 final_result_2)

-- What the loop of the case AMDCHIPKILL keeps.
pub record AmdState : Type 0 where
  pub grid : Grid
  pub error_chip_position : List ℕ
  pub final_result_1 : ResultType
  pub is_conservative : Bool

-- `DUE` is kept once it is met; otherwise the greater value.
unfoldable pub amd_final : ResultType → ResultType → ResultType
amd_final final_result_1 result =
    if is_due result || is_due final_result_1 then due else result_max final_result_1 result

abbrev pub amd_start : Grid → AmdState
amd_start g = record {
  grid = g;
  error_chip_position = [];
  final_result_1 = ce;
  is_conservative = false;
}

-- With `CONSERVATIVE_MODE`, corrections at two chips make the result a `DUE`.
unfoldable pub amd_conclude : AmdState → ResultType
amd_conclude st =
    if ltb (result_value st.final_result_1) 2
    then (if st.is_conservative then due else ce)
    else st.final_result_1

-- `junk_p` and `junk_q` hold the unspecified values of the decoder's local variables by beat.
module _ (row : List ℕ) (junk : ℕ) (junk_p junk_q : ℕ → ℕ) where
  -- The round for beats 2 k and 2 k + 1 of the burst.
  unfoldable pub amd_round : ℕ → AmdState → AmdState
  unfolding checked amd_final
  amd_round k st =
      let bl = 2 * k in
      let r =
        error_correction_amdchipkill row (junk_p k) (junk_q k)
          (load junk 8 chip_num (bl * 4) st.grid) st.error_chip_position in
      let g' = store 8 chip_num (bl * 4) r.codeword st.grid in
      let result = checked r.result (sdc_check bl g' amdchipkill) in
      record {
        grid = g';
        error_chip_position = r.error_chip_position;
        final_result_1 = amd_final st.final_result_1 result;
        is_conservative = ltb 1 (length r.error_chip_position) || st.is_conservative;
      }

  -- `left` rounds from round `k` on.
  unfoldable pub amd_rounds : ℕ → ℕ → AmdState → AmdState
  unfolding amd_round
  amd_rounds left k st = for_range left k amd_round st

  unfoldable pub run_amdchipkill : Grid → Grid × ResultType
  unfolding amd_conclude
  run_amdchipkill g = let st = amd_rounds 8 0 (amd_start g) in (st.grid, amd_conclude st)

  unfoldable pub run_off : Grid → Grid × ResultType
  run_off g = (g, if sdc_check 0 g recc_off == 0 then ce else sdc)

  -- The switch over the rank-level code.
  unfoldable pub run_recc : ReccType → Grid → Grid × ResultType
  unfolding run_ooc run_qpc run_amdchipkill run_off
  run_recc ooc g = run_ooc row junk g
  run_recc qpc g = run_qpc row junk g
  run_recc amdchipkill g = run_amdchipkill g
  run_recc recc_off g = run_off g

  -- One iteration. The switch over the on-die code is empty in both cases.
  unfoldable pub run_once : OeccType → FaultType → ReccType → Rand ResultType
  unfolding draw_positions inject run_recc
  run_once oecc fault recc = do
    chips ← draw_positions chip_num 4 []
    pins ← draw_positions 40 4 []
    g ←
        inject fault recc (get_or chips 0 0) (get_or chips 1 0) (get_or chips 2 0) (get_or pins 0 0)
          blank
    pure (run_recc recc g).1

-- The counters of `main`.
pub record Counts : Type 0 where
  pub ce_cnt : ℕ
  pub due_cnt : ℕ
  pub sdc_cnt : ℕ

unfoldable pub count_result : ResultType → Counts → Counts
count_result ce n = record n { ce_cnt = n.ce_cnt + 1 }
count_result due n = record n { due_cnt = n.due_cnt + 1 }
count_result sdc n = record n { sdc_cnt = n.sdc_cnt + 1 }
count_result ne n = n

-- The loop of `main` over `runs` iterations, on the values that `rand()` returns.
module _ (row : List ℕ) (junk : ℕ) (junk_p junk_q : ℕ → ℕ) (oecc : OeccType) (fault : FaultType)
    (recc : ReccType) where
  unfoldable pub run_all : ℕ → Counts → List ℕ → Option (Counts × List ℕ)
  unfolding run_once count_result
  run_all zero n rs = some (n, rs)
  run_all (suc runs) n rs = elim (run_once row junk junk_p junk_q oecc fault recc rs) [
    | none ↦ none
    | some (r, rest) ↦ run_all runs (count_result r n) rest
  ]
