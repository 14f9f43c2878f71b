-- ===== src/FaultSim/Rs/Decode.antt =====
-- The Reed-Solomon decoders of reliability_eval/Fault_sim.cpp put together.
pub mod Wipe
pub mod Safety
pub mod Guards
pub mod Repaired
pub mod Confined
use row_armor.Base.{
  ℕ, zero, suc, ◌+◌, ◌*◌, Bool, true, false, ◌&&◌, leb, ◌==◌, if◌then◌else◌, List, [], ◌∷◌, get_or,
  set, length, map,
}
use row_armor.Base.Int.{ℤ, to_unsigned}
use row_armor.Base.Loops.{for_range}
use row_armor.FaultSim.Config.{ResultType, ne, ce, due}
use row_armor.FaultSim.Field.{index_of}
use row_armor.FaultSim.Rs.Code.{Code, ooc_code, qpc_code}
use row_armor.FaultSim.Rs.Syndromes.{received, syndrome_values, syndrome_index, any_nonzero}
use row_armor.FaultSim.Rs.Berlekamp.{bm_start, bm_loop, elp_at}
use row_armor.FaultSim.Rs.Chien.{chien, ce_cases, Search}
use row_armor.FaultSim.Rs.Forney.{z_table, repair}

pub record Decoded : Type 0 where
  pub result : ResultType
  pub codeword : List ℕ

-- The eight cells of a symbol are cleared where its repaired value is 0.
unfoldable pub wipe_symbol : ℕ → List ℕ → List ℕ
wipe_symbol k codeword = for_range 8 0 (λ j w. set w (k * 8 + j) 0) codeword

unfoldable pub wipe_step : List ℕ → ℕ → List ℕ → List ℕ
unfolding wipe_symbol
wipe_step recd k codeword = if get_or recd k 0 == 0 then wipe_symbol k codeword else codeword

unfoldable pub wipe : List ℕ → ℕ → List ℕ → List ℕ
unfolding wipe_step
wipe recd symbols codeword = for_range symbols 0 (wipe_step recd) codeword

-- `left` entries of row `u` of `elp` in index form, from number `i` on.
unfoldable pub elp_index : List ℕ → ℕ → List (List ℤ) → ℕ → ℕ → ℕ → List ℤ
elp_index row junk elp u zero i = []
elp_index row junk elp u (suc left) i =
    index_of row junk (to_unsigned (elp_at elp u i)) ∷ elp_index row junk elp u left (i + 1)

module _ (row : List ℕ) (junk : ℕ) (code : Code) where
  -- The part after the root search: `e0` is `elp[u][0]` in index form, `e` the rest of the row.
  unfoldable pub finish : List ℤ → ℤ → List ℤ → List ℕ → ℕ → Search → Decoded
  unfolding wipe
  finish s e0 e codeword l_u found =
      if length found.loc == l_u && ce_cases code l_u found.loc
      then (record {
        result = ce;
        codeword =
            wipe
              (repair row junk (z_table row junk s (e0 ∷ e) l_u) found.root found.loc l_u
                (received code.nn_short 0 codeword))
              code.nn_short codeword;
      })
      else (record { result = due; codeword = codeword })

  -- The part after the loop for the error location polynomial, in row `u` of degree `l_u`.
  unfoldable pub locate : List ℤ → List (List ℤ) → ℕ → ℕ → List ℕ → Decoded
  unfolding finish elp_index
  locate s elp u l_u codeword =
      let e0 = index_of row junk (to_unsigned (elp_at elp u 0)) in
      let e = elp_index row junk elp u l_u 1 in
      if leb l_u code.tt
      then finish s e0 e codeword l_u (chien row e)
      else (record { result = due; codeword = codeword })

  unfoldable pub solve : List ℤ → List ℕ → Decoded
  unfolding locate
  solve s codeword =
      let (u, b) = bm_loop row junk s code.tt (2 * code.tt) 0 (bm_start row junk s code.tt) in
      locate s b.elp (u + 1) (get_or b.l (u + 1) 0) codeword

  unfoldable pub error_correction_rs : List ℕ → Decoded
  unfolding solve
  error_correction_rs codeword =
      if any_nonzero (syndrome_values row junk code codeword)
      then solve (syndrome_index row junk code codeword) codeword
      else (record { result = ne; codeword = codeword })

unfoldable pub error_correction_ooc : List ℕ → ℕ → List ℕ → Decoded
unfolding error_correction_rs
error_correction_ooc row junk codeword = error_correction_rs row junk ooc_code codeword

unfoldable pub error_correction_qpc : List ℕ → ℕ → List ℕ → Decoded
unfolding error_correction_rs
error_correction_qpc row junk codeword = error_correction_rs row junk qpc_code codeword
