-- ===== src/FaultSim/Tests/Decoders.antt =====
-- The theorems on the field and the decoders, on concrete codewords.
use row_armor.Base.{
  ℕ, length, ◌/◌, ◌+◌, ◌-◌, ◌*◌, ◌%◌, ◌<◌, ◌≤◌, ◌≡◌, ◌≢◌, ◌↔◌, ◌⊎◌, refl, List, [], ◌∷◌, set,
  replicate, get_or, arith, map,
}
use row_armor.Base.Int.{ℤ, pos, negsuc}
use row_armor.FaultSim.Grid.{blank}
use row_armor.FaultSim.Transfer.{load, load_chip}
use row_armor.FaultSim.Run.Amd.{word-IsBits, word_others}
use row_armor.FaultSim.Tests.Runs.{faulty, faulty-IsOneChip}
use row_armor.FaultSim.Config.{ce, ne, due, sdc}
use row_armor.FaultSim.Field.{
  get_abit, next_power, fill_powers, last_match, index_of, first_match, exponent_of,
}
use row_armor.FaultSim.Field.Product.{gf_mul, gf_row-mul, x_power}
use row_armor.FaultSim.Field.Table.{gf_row, gf_row-IsPowerTable}
use row_armor.FaultSim.Symbols.{symbol_value, syndrome, syndrome_step}
use row_armor.FaultSim.Symbols.Single.{IsSingle}
use row_armor.FaultSim.Amd.{error_correction_amdchipkill, insert_position}
use row_armor.FaultSim.Amd.Correct.{amdchipkill_corrects}
use row_armor.FaultSim.Amd.Weighted.{xor_sum, amdchipkill_ne-sums}
use row_armor.FaultSim.Symbols.Value.{IsBits, set-IsBits, replicate-IsBits}
use row_armor.FaultSim.Rs.Berlekamp.Columns.{SameColumn, bm_step-SameColumn}
use row_armor.FaultSim.Rs.Decode.Confined.{error_correction_qpc-ce}
use row_armor.FaultSim.Rs.Decode.Repaired.{Has}
use row_armor.FaultSim.Rs.Code.{qpc_same_chip, qpc_code}
use row_armor.FaultSim.Rs.Syndromes.{
  syndrome_index, syndrome_values, to_index, any_nonzero, syndromes_from, received,
}
use row_armor.FaultSim.Rs.Berlekamp.{
  Bm, bm_loop, bm_start, bm_step, discrepancy, discrepancy_step, raise_row, keep_row, add_entry,
  shift_entry, keep_entry, index_entry, new_degree, choose_q, greatest, last_nonzero,
}
use row_armor.FaultSim.Rs.Berlekamp.Ends.{bm_loop_ends, bm_start-HasDegrees}
use row_armor.FaultSim.Rs.Chien.{chien, chien_rounds, chien_step, turn, ce_cases, all_pass}
use row_armor.FaultSim.Rs.Chien.Direct.{roots, chien_direct}
use row_armor.FaultSim.Rs.Forney.{
  repair, repair_step, denominator, numerator, z_table, z_entries, z_step, z_start,
}
use row_armor.FaultSim.Rs.Decode.{
  finish, locate, solve, elp_index, wipe, wipe_step, wipe_symbol, error_correction_rs,
  error_correction_qpc,
}
use row_armor.FaultSim.Rs.Decode.Safety.{
  error_correction_rs-ne_iff, error_correction_rs_cells, error_correction_rs-kept,
}

-- Three wrong bits in the first symbol of chip 1, of 32 bits.
abbrev one_symbol : List ℕ
one_symbol = set (set (set (replicate 320 0) 41 1) 44 1) 47 1

-- Four wrong symbols in chip 0.
abbrev one_chip : List ℕ
one_chip = set (set (set (set (replicate 320 0) 0 1) 9 1) 18 1) 27 1

gf_row-mul_example :
    gf_mul (get_or gf_row 200 0) (get_or gf_row 99 0) ≡ get_or gf_row ((200 + 99) % 255) 0
gf_row-mul_example = gf_row-mul 200 99 (omega arith) (omega arith)

error_correction_rs-ne_iff_example :
    ((error_correction_rs gf_row 7 qpc_code one_symbol).result ≡ ne)
    ↔ ((k : ℕ) → 1 ≤ k → k < 1 + 2 * 4 → syndrome gf_row k 40 one_symbol ≡ 0)
error_correction_rs-ne_iff_example = error_correction_rs-ne_iff gf_row 7 qpc_code one_symbol

error_correction_rs_cells_example :
    let r = error_correction_rs gf_row 7 qpc_code one_chip in
    (get_or r.codeword 18 0 ≡ get_or one_chip 18 0) ⊎ (get_or r.codeword 18 0 ≡ 0)
error_correction_rs_cells_example = error_correction_rs_cells gf_row 7 qpc_code one_chip 18

error_correction_rs-kept_example :
    let r = error_correction_rs gf_row 7 qpc_code one_chip in
    (r.result ≢ ce → r.codeword ≡ one_chip) × (r.result ≢ sdc)
error_correction_rs-kept_example = error_correction_rs-kept gf_row 7 qpc_code one_chip

chien_direct_example :
    ((chien gf_row (pos 3 ∷ pos 200 ∷ negsuc 0 ∷ [])).root
      ≡ roots gf_row (pos 3 ∷ pos 200 ∷ negsuc 0 ∷ []) 255 1)
    × ((chien gf_row (pos 3 ∷ pos 200 ∷ negsuc 0 ∷ [])).loc
        ≡ map (λ i. 255 - i) (roots gf_row (pos 3 ∷ pos 200 ∷ negsuc 0 ∷ []) 255 1))
chien_direct_example =
    chien_direct gf_row (pos 3 ∷ pos 200 ∷ negsuc 0 ∷ []) (omega arith, (omega arith, (refl, tt)))

abbrev one_cell : List ℕ
one_cell = set (replicate 80 0) 30 1

one_cell-IsBits : IsBits one_cell
one_cell-IsBits = set-IsBits (replicate 80 0) 30 1 (omega arith) (replicate-IsBits 80)

amdchipkill_ne-sums_example :
    ((error_correction_amdchipkill gf_row 1 2 one_cell []).result ≡ ne) ↔ (
      (xor_sum (symbol_value one_cell) 10 ≡ 0)
      × (xor_sum (λ k. gf_mul (symbol_value one_cell k) (x_power k)) 10 ≡ 0))
amdchipkill_ne-sums_example = amdchipkill_ne-sums one_cell one_cell-IsBits 1 2 []

abbrev syndromes : List ℤ
syndromes = negsuc 0 ∷ pos 5 ∷ pos 17 ∷ negsuc 0 ∷ pos 254 ∷ pos 1 ∷ pos 2 ∷ pos 3 ∷ pos 100 ∷ []

bm_loop_ends_example :
    let r = bm_loop gf_row 7 syndromes 4 (2 * 4) 0 (bm_start gf_row 7 syndromes 4) in
    (0 < r.0)
    × (r.0 ≤ 2 * 4)
    × ((2 * 4 ≤ r.0) ⊎ (4 < get_or r.1.l (r.0 + 1) 0))
    × (get_or r.1.l (r.0 + 1) 0 ≤ r.0)
bm_loop_ends_example = bm_loop_ends gf_row 7 syndromes 4 (omega arith)

-- Tables with rows that are longer than those of the source.
abbrev long_rows : Bm
long_rows = record (bm_start gf_row 7 syndromes 4) { elp = replicate 10 (replicate 12 (pos 3)) }

bm_step-SameColumn_example :
    SameColumn 9 long_rows.elp (bm_step gf_row 7 syndromes (2 * 4) 1 long_rows).elp
bm_step-SameColumn_example =
    let start = bm_start-HasDegrees gf_row 7 syndromes 4 in
    bm_step-SameColumn gf_row 7 4 1 9 long_rows (omega arith) (omega arith)
      (record { size = start.size; below = start.below }) (omega arith)
      (λ e last. absurd (omega arith)) syndromes

-- Cell 5 of chip 3 is wrong.
abbrev chip_word : List ℕ
chip_word = load 7 8 10 0 faulty

chip_word_value : symbol_value chip_word 3 ≡ 4
unfolding symbol_value load load_chip blank get_abit
chip_word_value = refl

chip_word-IsSingle : IsSingle chip_word 3 4
chip_word-IsSingle = record {
  value_pos = omega arith;
  value_lt = omega arith;
  at = chip_word_value;
  others = word_others gf_row gf_row-IsPowerTable 7 3 (omega arith) 0 faulty faulty-IsOneChip;
}

amdchipkill_corrects_example :
    let r = error_correction_amdchipkill gf_row 1 2 chip_word [] in
    (r.result ≡ ce)
    × ((j : ℕ) → get_or r.codeword j 0 ≡ 0)
    × (r.error_chip_position ≡ insert_position 3 [])
amdchipkill_corrects_example =
    amdchipkill_corrects gf_row gf_row-IsPowerTable chip_word 3 4 chip_word-IsSingle (omega arith)
      (word-IsBits gf_row gf_row-IsPowerTable 7 3 (omega arith) 0 faulty faulty-IsOneChip) 1 2 []

one_chip_ce : (error_correction_rs gf_row 7 qpc_code one_chip).result ≡ ce
unfolding error_correction_rs finish locate solve syndrome_index syndrome_values to_index
    any_nonzero syndromes_from received syndrome syndrome_step symbol_value get_abit exponent_of
    first_match last_match index_of gf_row fill_powers next_power bm_loop bm_start bm_step
    discrepancy discrepancy_step raise_row keep_row add_entry shift_entry keep_entry index_entry
    new_degree choose_q greatest last_nonzero ce_cases all_pass chien chien_rounds chien_step turn
    elp_index wipe wipe_step wipe_symbol repair repair_step denominator numerator z_table z_entries
    z_step z_start qpc_same_chip
one_chip_ce = refl

one_chip-IsBits : IsBits one_chip
one_chip-IsBits = set-IsBits (set (set (set (replicate 320 0) 0 1) 9 1) 18 1) 27 1 (omega arith) (
    set-IsBits (set (set (replicate 320 0) 0 1) 9 1) 18 1 (omega arith) (
      set-IsBits (set (replicate 320 0) 0 1) 9 1 (omega arith)
        (set-IsBits (replicate 320 0) 0 1 (omega arith) (replicate-IsBits 320))))

one_chip_qpc_ce : (error_correction_qpc gf_row 7 one_chip).result ≡ ce
unfolding error_correction_qpc
one_chip_qpc_ce = one_chip_ce

error_correction_qpc-ce_example :
    (symbols : List ℕ) × (length symbols ≤ 4)
    × ((k : ℕ) → Has k symbols → k < 40)
    × (2 < length symbols → (j k : ℕ) → Has j symbols → Has k symbols → j / 4 ≡ k / 4)
    × ((i : ℕ)
        → (get_or (error_correction_qpc gf_row 7 one_chip).codeword i 0 ≡ get_or one_chip i 0)
          ⊎ Has (i / 8) symbols)
error_correction_qpc-ce_example =
    error_correction_qpc-ce gf_row 7 one_chip one_chip-IsBits one_chip_qpc_ce

-- A wrong symbol is put right, and three wrong symbols in two chips are an uncorrectable error.
one_symbol_run :
    error_correction_rs gf_row 7 qpc_code one_symbol
    ≡ record { result = ce; codeword = replicate 320 0 }
unfolding error_correction_rs finish locate solve syndrome_index syndrome_values to_index
    any_nonzero syndromes_from received syndrome syndrome_step symbol_value get_abit exponent_of
    first_match last_match index_of gf_row fill_powers next_power bm_loop bm_start bm_step
    discrepancy discrepancy_step raise_row keep_row add_entry shift_entry keep_entry index_entry
    new_degree choose_q greatest last_nonzero ce_cases all_pass chien chien_rounds chien_step turn
    elp_index wipe wipe_step wipe_symbol repair repair_step denominator numerator z_table z_entries
    z_step z_start qpc_same_chip
one_symbol_run = refl

three_symbols_run :
    (error_correction_rs gf_row 7 qpc_code (set (set one_symbol 200 1) 300 1)).result ≡ due
unfolding error_correction_rs finish locate solve syndrome_index syndrome_values to_index
    any_nonzero syndromes_from received syndrome syndrome_step symbol_value get_abit exponent_of
    first_match last_match index_of gf_row fill_powers next_power bm_loop bm_start bm_step
    discrepancy discrepancy_step raise_row keep_row add_entry shift_entry keep_entry index_entry
    new_degree choose_q greatest last_nonzero ce_cases all_pass chien chien_rounds chien_step turn
    elp_index wipe wipe_step wipe_symbol repair repair_step denominator numerator z_table z_entries
    z_step z_start qpc_same_chip
three_symbols_run = refl
