-- ===== src/FaultSim/Rs/Decode/Confined.antt =====
-- Which symbols the Reed-Solomon decoders change where they answer `CE`.
use row_armor.Base.{
  ℕ, ◌+◌, ◌*◌, ◌/◌, ◌%◌, ◌<◌, ◌≤◌, ◌≡◌, ◌⊎◌, true, ◌&&◌, leb, ◌==◌, List, ◌∷◌, get_or, length,
  arith, Bool-cases, inl, inr,
}
use row_armor.Base.Int.{ℤ}
use row_armor.FaultSim.Config.{ce}
use row_armor.FaultSim.Symbols.{symbol_value}
use row_armor.FaultSim.Symbols.Value.{IsBits, cell_of-zero}
use row_armor.FaultSim.Rs.Code.{Code, qpc_code, qpc_same_chip, ooc_code, ooc_same_chip}
use row_armor.FaultSim.Rs.Syndromes.{received, syndrome_index, syndrome_values, any_nonzero}
use row_armor.FaultSim.Rs.Berlekamp.{bm_loop, bm_start}
use row_armor.FaultSim.Rs.Chien.{Search, ce_cases, chien}
use row_armor.FaultSim.Rs.Forney.{repair, z_table}
use row_armor.FaultSim.Rs.Decode.{
  finish, locate, solve, error_correction_rs, error_correction_qpc, error_correction_ooc, wipe,
  elp_index,
}
use row_armor.FaultSim.Rs.Decode.Repaired.{Has, All-Has, received-at, repair-at}
use row_armor.FaultSim.Rs.Decode.Wipe.{wipe-cell}
use row_armor.FaultSim.Rs.Decode.Guards.{AreAccepted, due-ne_ce, ne-ne_ce, ce_cases-AreAccepted}

module _ (row : List ℕ) (junk : ℕ) (code : Code) (codeword : List ℕ) (bits : IsBits codeword) where
  -- Every changed cell is in a symbol of a list of locations that the code accepts.
  abbrev IsConfined : List ℕ → Type 0
  IsConfined w =
      (loc : List ℕ) × AreAccepted code (length loc) loc
      × ((k : ℕ) → (get_or w k 0 ≡ get_or codeword k 0) ⊎ Has (k / 8) loc)

  cell-zero : (k : ℕ) → symbol_value codeword (k / 8) ≡ 0 → get_or codeword k 0 ≡ 0
  cell-zero k h =
      let split : k / 8 * 8 + k % 8 ≡ k = omega arith in
      rw split at (cell_of-zero codeword bits (k / 8) h (k % 8) (omega arith))

  wipe-repair :
      (z : List ℤ) (root loc : List ℕ) (l_u k : ℕ)
      → l_u ≡ length loc
      → let recd = repair row junk z root loc l_u (received code.nn_short 0 codeword) in
        (get_or (wipe recd code.nn_short codeword) k 0 ≡ get_or codeword k 0) ⊎ Has (k / 8) loc
  wipe-repair z root loc l_u k count =
      let symbols = received code.nn_short 0 codeword in
      let recd = repair row junk z root loc l_u symbols in
      elim (repair-at row junk z root loc symbols l_u (k / 8) count) [
        | inr has ↦ inr has
        | inl same ↦ inl (
            ground (
              arith,
              same,
              wipe-cell recd codeword code.nn_short k,
              received-at codeword code.nn_short 0 (k / 8),
              cell-zero k,
            ))
      ]

  finish-IsConfined :
      (s : List ℤ) (e0 : ℤ) (e : List ℤ) (l_u : ℕ) (found : Search)
      → leb l_u code.tt ≡ true
      → (finish row junk code s e0 e codeword l_u found).result ≡ ce
      → IsConfined (finish row junk code s e0 e codeword l_u found).codeword
  unfolding finish
  finish-IsConfined s e0 e l_u found within h =
      let cond = length found.loc == l_u && ce_cases code l_u found.loc in
      elim (Bool-cases cond) [
        | inr not_met ↦ absurd (due-ne_ce (rw (finish, not_met) at h))
        | inl met ↦
            let accepted = ce_cases-AreAccepted code l_u found.loc within met in
            rw (finish, met)
              (
                found.loc,
                (rw accepted.count accepted),
                λ k.
                    wipe-repair (z_table row junk s (e0 ∷ e) l_u) found.root found.loc l_u k
                      (ground arith),
              )
      ]

  solve-IsConfined :
      (s : List ℤ)
      → (solve row junk code s codeword).result ≡ ce
      → IsConfined (solve row junk code s codeword).codeword
  unfolding solve locate
  solve-IsConfined s h =
      let (u, b) = bm_loop row junk s code.tt (2 * code.tt) 0 (bm_start row junk s code.tt) in
      let l_u = get_or b.l (u + 1) 0 in
      elim (Bool-cases (leb l_u code.tt)) [
        | inl within ↦
            rw (solve, locate, within)
              (finish-IsConfined s _ _ l_u (chien row (elp_index row junk b.elp (u + 1) l_u 1))
                within (rw within at h))
        | inr beyond ↦ absurd (due-ne_ce (rw beyond at h))
      ]

  pub error_correction_rs-IsConfined :
      (error_correction_rs row junk code codeword).result ≡ ce
      → IsConfined (error_correction_rs row junk code codeword).codeword
  unfolding error_correction_rs
  error_correction_rs-IsConfined h =
      elim (Bool-cases (any_nonzero (syndrome_values row junk code codeword))) [
        | inl loud ↦
            rw (error_correction_rs, loud)
              (solve-IsConfined (syndrome_index row junk code codeword) (rw loud at h))
        | inr silent ↦ absurd (ne-ne_ce (rw silent at h))
      ]

-- Chip `c` sends the symbols 4c to 4c + 3. Where the QPC decoder answers `CE`, every cell that it
-- changed, of a codeword of bits, is in one of at most four symbols (of eight cells) of the forty;
-- and if these are more than two they are all of one chip.
pub error_correction_qpc-ce :
    (row : List ℕ) (junk : ℕ) (codeword : List ℕ)
    → IsBits codeword
    → (error_correction_qpc row junk codeword).result ≡ ce
    → (symbols : List ℕ) × (length symbols ≤ 4)
      × ((k : ℕ) → Has k symbols → k < 40)
      × (2 < length symbols → (j k : ℕ) → Has j symbols → Has k symbols → j / 4 ≡ k / 4)
      × ((i : ℕ)
          → (get_or (error_correction_qpc row junk codeword).codeword i 0 ≡ get_or codeword i 0)
            ⊎ Has (i / 8) symbols)
unfolding error_correction_qpc qpc_same_chip
error_correction_qpc-ce row junk codeword bits h =
    let (loc, accepted, at) = error_correction_rs-IsConfined row junk qpc_code codeword bits h in
    let first = get_or loc 0 0 in
    (
      loc,
      accepted.within,
      λ k. All-Has (λ x. x < 40) loc k accepted.in_word,
      λ more j k has_j has_k.
          let same_j =
            All-Has (λ x. qpc_same_chip first x ≡ true) loc j (accepted.one_chip more) has_j in
          let same_k =
            All-Has (λ x. qpc_same_chip first x ≡ true) loc k (accepted.one_chip more) has_k in
          ground arith,
      at,
    )

-- Chip `c` of the first channel sends the symbols 4c to 4c + 3, the chip beside it those ten chips
-- further. Where the OOC decoder answers `CE`, every cell that it changed, of a codeword of bits, is
-- in one of at most eight symbols of the eighty; and if these are more than four, they are all of one
-- chip or of the one ten below it.
pub error_correction_ooc-ce :
    (row : List ℕ) (junk : ℕ) (codeword : List ℕ)
    → IsBits codeword
    → (error_correction_ooc row junk codeword).result ≡ ce
    → (symbols : List ℕ) × (length symbols ≤ 8)
      × ((k : ℕ) → Has k symbols → k < 80)
      × (4 < length symbols
          → (chip : ℕ) × ((k : ℕ) → Has k symbols → (k / 4 ≡ chip) ⊎ (k / 4 + 10 ≡ chip)))
      × ((i : ℕ)
          → (get_or (error_correction_ooc row junk codeword).codeword i 0 ≡ get_or codeword i 0)
            ⊎ Has (i / 8) symbols)
unfolding error_correction_ooc ooc_same_chip
error_correction_ooc-ce row junk codeword bits h =
    let (loc, accepted, at) = error_correction_rs-IsConfined row junk ooc_code codeword bits h in
    let first = get_or loc 0 0 in
    (
      loc,
      accepted.within,
      λ k. All-Has (λ x. x < 80) loc k accepted.in_word,
      λ more. (
        first / 4,
        λ k has.
            let same =
              All-Has (λ x. ooc_same_chip first x ≡ true) loc k (accepted.one_chip more) has in
            ground arith,
      ),
      at,
    )
