-- ===== src/FaultSim/Run/Amd.antt =====
-- Chipkill, end to end: the case AMDCHIPKILL of `main` on an array with one faulty chip.
use row_armor.Base.{
  ℕ, ◌+◌, ◌-◌, ◌*◌, ◌/◌, ◌%◌, ◌<◌, ◌≤◌, ◌≡◌, ◌≢◌, refl, Bool, false, ◌&&◌, ltb, leb, if◌then◌else◌,
  List, [], ◌∷◌, get_or, length, get_or_above, arith, inl, inr, ◌⊎◌, ◌||◌,
}
use native.Mathlib.Decide.{ℕ_discrete, dec_lt}
use row_armor.Base.Loops.{for_range_inv}
use row_armor.FaultSim.Config.{ResultType, ne, ce, amdchipkill}
use row_armor.FaultSim.Field.Table.{IsPowerTable}
use row_armor.FaultSim.Grid.{Grid, cell, IsGrid}
use row_armor.FaultSim.Symbols.{symbol_value}
use row_armor.FaultSim.Symbols.Value.{IsBits, symbol_value-lt, symbol_value-zero, cell_of-zero}
use row_armor.FaultSim.Symbols.Single.{IsSingle}
use row_armor.FaultSim.Amd.{AmdResult, error_correction_amdchipkill, insert_position}
use row_armor.FaultSim.Amd.Correct.{amdchipkill_corrects}
use row_armor.FaultSim.Amd.Quiet.{amdchipkill_quiet}
use row_armor.FaultSim.Transfer.{load, store, sdc_check}
use row_armor.FaultSim.Transfer.Cells.{load-cell, length-load, cell-store, store-IsGrid}
use row_armor.FaultSim.Transfer.Check.{sdc_check-Answer}
use row_armor.FaultSim.Run.{
  AmdState, amd_round, amd_rounds, amd_start, amd_conclude, amd_final, run_amdchipkill, checked,
}

-- Only cells of chip `c` may be wrong, among the ten chips of the code, and all cells are bits.
pub record IsOneChip (c : ℕ) (g : Grid) : Type 0 where
  pub grid : IsGrid g
  pub bits : (i b : ℕ) → i < 10 → cell g i b < 2
  pub others : (i b : ℕ) → i < 10 → i ≢ c → cell g i b ≡ 0

final_ce :
    (f r : ResultType) (error_check : ℕ)
    → f ≡ ce
    → (r ≡ ne) ⊎ (r ≡ ce)
    → error_check ≡ 0
    → amd_final f (checked r error_check) ≡ ce
unfolding amd_final checked
final_ce f r error_check h k e = ground arith

stays_calm :
    (c : ℕ) (ps : List ℕ) (b : Bool)
    → (ps ≡ []) ⊎ (ps ≡ c ∷ [])
    → b ≡ false
    → (ltb 1 (length ps) || b) ≡ false
stays_calm c ps b h k = ground arith

conclude_ce :
    (st : AmdState) → st.final_result_1 ≡ ce → st.is_conservative ≡ false → amd_conclude st ≡ ce
unfolding amd_conclude
conclude_ce st h k = ground arith

module _ (row : List ℕ) (t : IsPowerTable row) (junk : ℕ) (c : ℕ) (c_lt : c < 10) where
  -- The codeword of a round.
  abbrev word : ℕ → Grid → List ℕ
  word k g = load junk 8 10 (2 * k * 4) g

  word-cell :
      (k : ℕ) (g : Grid) (i : ℕ)
      → i < 80
      → get_or (word k g) i 0 ≡ cell g (i / 8) (2 * k * 4 + i % 8)
  word-cell k g i h =
      let split : i / 8 * 8 + i % 8 ≡ i = omega arith in
      rw split at (load-cell junk 8 10 (2 * k * 4) g (i / 8) (i % 8) (omega arith) (omega arith))

  word_above : (k : ℕ) (g : Grid) (i : ℕ) → 80 ≤ i → get_or (word k g) i 0 ≡ 0
  word_above k g i h =
      get_or_above (word k g) i 0 (omega (arith, length-load junk 8 10 (2 * k * 4) g))

  pub word-IsBits : (k : ℕ) (g : Grid) → IsOneChip c g → IsBits (word k g)
  word-IsBits k g v i = elim (dec_lt i 80) [
    | yes h ↦ rw (word-cell k g i h) (v.bits (i / 8) (2 * k * 4 + i % 8) (omega arith))
    | no h ↦ omega (arith, word_above k g i (omega arith))
  ]

  pub word_others :
      (k : ℕ) (g : Grid) → IsOneChip c g → (i : ℕ) → i ≢ c → symbol_value (word k g) i ≡ 0
  word_others k g v i away = symbol_value-zero (word k g) (word-IsBits k g v) i λ j h.
      elim (dec_lt i 10) [
        | yes low ↦
            rw (load-cell junk 8 10 (2 * k * 4) g i j low h) (v.others i (2 * k * 4 + j) low away)
        | no high ↦ word_above k g (i * 8 + j) (omega arith)
      ]

  -- A round on such an array: the decoder clears the columns of the round, and adds no chip but `c`.
  record IsRepaired (k : ℕ) (positions : List ℕ) (g : Grid) (r : AmdResult) : Type 0 where
    result : (r.result ≡ ne) ⊎ (r.result ≡ ce)
    cleared : (i : ℕ) → get_or r.codeword i 0 ≡ 0
    chips :
        (r.error_chip_position ≡ positions) ⊎ (r.error_chip_position ≡ insert_position c positions)

  quiet-IsRepaired :
      (junk_p junk_q k : ℕ) (positions : List ℕ) (g : Grid)
      → IsOneChip c g
      → symbol_value (word k g) c ≡ 0
      → IsRepaired k positions g
          (error_correction_amdchipkill row junk_p junk_q (word k g) positions)
  quiet-IsRepaired junk_p junk_q k positions g v z =
      rw (amdchipkill_quiet row t (word k g) zeros junk_p junk_q positions)
        (record { result = inl refl; cleared = cell_zero; chips = inl refl })
    where
      zeros : (i : ℕ) → symbol_value (word k g) i ≡ 0
      zeros i = elim (ℕ_discrete i c) [ yes same ↦ rw same z | no away ↦ word_others k g v i away ]

      cell_zero : (i : ℕ) → get_or (word k g) i 0 ≡ 0
      cell_zero i =
          let split : i / 8 * 8 + i % 8 ≡ i = omega arith in
          rw split at (
            cell_of-zero (word k g) (word-IsBits k g v) (i / 8) (zeros (i / 8)) (i % 8)
              (omega arith))

  loud-IsRepaired :
      (junk_p junk_q k : ℕ) (positions : List ℕ) (g : Grid)
      → IsOneChip c g
      → symbol_value (word k g) c ≢ 0
      → IsRepaired k positions g
          (error_correction_amdchipkill row junk_p junk_q (word k g) positions)
  loud-IsRepaired junk_p junk_q k positions g v nz =
      let bits = word-IsBits k g v in
      let e = symbol_value (word k g) c in
      let single : IsSingle (word k g) c e = record {
        value_pos = omega arith;
        value_lt = symbol_value-lt (word k g) bits c;
        at = refl;
        others = word_others k g v;
      } in
      let (r, z, p) =
        amdchipkill_corrects row t (word k g) c e single c_lt bits junk_p junk_q positions in
      record { result = inr r; cleared = z; chips = inr p }

  decode-IsRepaired :
      (junk_p junk_q k : ℕ) (positions : List ℕ) (g : Grid)
      → IsOneChip c g
      → IsRepaired k positions g
          (error_correction_amdchipkill row junk_p junk_q (word k g) positions)
  decode-IsRepaired junk_p junk_q k positions g v =
      elim (ℕ_discrete (symbol_value (word k g) c) 0) [
        | yes z ↦ quiet-IsRepaired junk_p junk_q k positions g v z
        | no nz ↦ loud-IsRepaired junk_p junk_q k positions g v nz
      ]

  -- The state after `k` rounds: the columns of these rounds are clear, and only chip `c` was met.
  record IsMending (k : ℕ) (st : AmdState) : Type 0 where
    one : IsOneChip c st.grid
    clear : (i b : ℕ) → i < 10 → b < 8 * k → cell st.grid i b ≡ 0
    positions : (st.error_chip_position ≡ []) ⊎ (st.error_chip_position ≡ c ∷ [])
    result : st.final_result_1 ≡ ce
    calm : st.is_conservative ≡ false

  insert_twice :
      (ps qs : List ℕ)
      → (ps ≡ []) ⊎ (ps ≡ c ∷ [])
      → (qs ≡ ps) ⊎ (qs ≡ insert_position c ps)
      → (qs ≡ []) ⊎ (qs ≡ c ∷ [])
  unfolding insert_position
  insert_twice ps qs h k = ground arith

  module _ (k : ℕ) (k_lt : k < 8) (g : Grid) (v : IsOneChip c g)
      (clear : (i b : ℕ) → i < 10 → b < 8 * k → cell g i b ≡ 0) (codeword : List ℕ)
      (zero_word : (i : ℕ) → get_or codeword i 0 ≡ 0) where
    abbrev next : Grid
    next = store 8 10 (2 * k * 4) codeword g

    next-cell :
        (i b : ℕ)
        → cell next i b
          ≡ (if leb (2 * k * 4) b && (ltb b (2 * k * 4 + 8) && ltb i 10) then 0 else cell g i b)
    next-cell i b = ground (
      arith,
      cell-store 8 10 (2 * k * 4) codeword g (omega arith) (omega arith) v.grid i b,
      zero_word (i * 8 + (b - 2 * k * 4)),
    )

    next-IsOneChip : IsOneChip c next
    next-IsOneChip = record {
      grid = store-IsGrid 8 10 (2 * k * 4) codeword g (omega arith) (omega arith) v.grid;
      bits = λ i b h. ground (arith, next-cell i b, v.bits i b h);
      others = λ i b h away. ground (arith, next-cell i b, v.others i b h away);
    }

    next_clear : (i b : ℕ) → i < 10 → b < 8 * (k + 1) → cell next i b ≡ 0
    next_clear i b h p = ground (arith, next-cell i b, clear i b h)

    next_check : sdc_check (2 * k) next amdchipkill ≡ 0
    next_check = elim (sdc_check-Answer (2 * k) next amdchipkill) [
      | inl (e, (i, b, p, q, s, u, h)) ↦ absurd (ground (arith, next-cell i b))
      | inr (e, none_there) ↦ e
    ]

  module _ (junk_p junk_q : ℕ → ℕ) where
    amd_round-IsMending :
        (k : ℕ) (st : AmdState)
        → k < 8
        → IsMending k st
        → IsMending (k + 1) (amd_round row junk junk_p junk_q k st)
    unfolding amd_round
    amd_round-IsMending k st h m =
        let r =
          error_correction_amdchipkill row (junk_p k) (junk_q k) (word k st.grid)
            st.error_chip_position in
        let d = decode-IsRepaired (junk_p k) (junk_q k) k st.error_chip_position st.grid m.one in
        let chips = insert_twice st.error_chip_position r.error_chip_position m.positions d.chips in
        record {
          one = next-IsOneChip k h st.grid m.one m.clear r.codeword d.cleared;
          clear = next_clear k h st.grid m.one m.clear r.codeword d.cleared;
          positions = chips;
          result =
              final_ce st.final_result_1 r.result _ m.result d.result
                (next_check k h st.grid m.one m.clear r.codeword d.cleared);
          calm = stays_calm c r.error_chip_position st.is_conservative chips m.calm;
        }

    start-IsMending : (g : Grid) → IsOneChip c g → IsMending 0 (amd_start g)
    start-IsMending g v = record {
      one = v;
      clear = λ i b p q. absurd (omega arith);
      positions = inl refl;
      result = refl;
      calm = refl;
    }

    -- Chipkill: on a table of powers and an array in which only bits of one of the ten chips are
    -- wrong, the run answers `CE`, and no bit among the ten chips is wrong afterwards, whatever
    -- values the locals hold that the code does not initialise.
    pub run_amdchipkill_one_chip :
        (g : Grid)
        → IsOneChip c g
        → let r = run_amdchipkill row junk junk_p junk_q g in
          (r.1 ≡ ce) × ((i b : ℕ) → i < 10 → b < 64 → cell r.0 i b ≡ 0)
    unfolding run_amdchipkill amd_rounds
    run_amdchipkill_one_chip g v =
        let m =
          for_range_inv IsMending (amd_round row junk junk_p junk_q) 8 0 8 (amd_start g)
            (λ k st _ h m. amd_round-IsMending k st h m) (omega arith) (start-IsMending g v) in
        (
          conclude_ce (amd_rounds row junk junk_p junk_q 8 0 (amd_start g)) m.result m.calm,
          λ i b p q. m.clear i b p (omega arith),
        )
