-- ===== src/FaultSim/Rs/Decode/Safety.antt =====
-- What the Reed-Solomon decoders do to a codeword, by result.
use row_armor.Base.{
  ℕ, zero, suc, ◌+◌, ◌*◌, ◌<◌, ◌≤◌, ◌≡◌, ◌≢◌, refl, ◌↔◌, ◌⊎◌, inl, Bool, true, false, ◌&&◌, leb,
  ◌==◌, if◌then◌else◌, List, get_or, arith, length,
}
use row_armor.Base.Int.{ℤ}
use row_armor.FaultSim.Config.{ResultType, ne, ce, due, sdc}
use row_armor.FaultSim.Rs.Code.{Code}
use row_armor.FaultSim.Rs.Syndromes.{syndrome_values, syndromes_from, any_nonzero, syndrome_index}
use row_armor.FaultSim.Symbols.{syndrome}
use row_armor.FaultSim.Rs.Berlekamp.{bm_loop, bm_start}
use row_armor.FaultSim.Rs.Chien.{Search, ce_cases, chien}
use row_armor.FaultSim.Rs.Decode.{
  Decoded, finish, locate, solve, error_correction_rs, wipe, elp_index,
}
use row_armor.FaultSim.Rs.Decode.Wipe.{wipe-cell}

-- What may have become of a codeword: it is kept, or symbols are cleared and the result is `CE`.
pub data Outcome (codeword : List ℕ) : Decoded → Type 0 where
  kept :
      (r : ResultType)
      → r ≢ ce
      → r ≢ sdc
      → Outcome codeword (record { result = r; codeword = codeword })
  cleared :
      (recd : List ℕ) (n : ℕ)
      → Outcome codeword (record { result = ce; codeword = wipe recd n codeword })

if_intro {ℓ} :
    (P : Decoded → Type ℓ) (b : Bool) {x y : Decoded} → P x → P y → P (if b then x else y)
if_intro P true p q = p
if_intro P false p q = q

ce-ne : ce ≢ ne
ce-ne e = cc

due-ne : due ≢ ne
due-ne e = cc

due-Outcome : (codeword : List ℕ) → Outcome codeword (record { result = due; codeword = codeword })
due-Outcome codeword = kept due (λ e. cc) (λ e. cc)

module _ (row : List ℕ) (junk : ℕ) (code : Code) (codeword : List ℕ) where
  finish-Outcome :
      (s : List ℤ) (e0 : ℤ) (e : List ℤ) (l_u : ℕ) (found : Search)
      → Outcome codeword (finish row junk code s e0 e codeword l_u found)
  unfolding finish
  finish-Outcome s e0 e l_u found =
      if_intro (Outcome codeword) (length found.loc == l_u && ce_cases code l_u found.loc)
        (cleared _ code.nn_short) (due-Outcome codeword)

  locate-Outcome :
      (s : List ℤ) (elp : List (List ℤ)) (u l_u : ℕ)
      → Outcome codeword (locate row junk code s elp u l_u codeword)
  unfolding locate
  locate-Outcome s elp u l_u =
      if_intro (Outcome codeword) (leb l_u code.tt)
        (finish-Outcome s _ _ l_u (chien row (elp_index row junk elp u l_u 1)))
        (due-Outcome codeword)

  solve-Outcome : (s : List ℤ) → Outcome codeword (solve row junk code s codeword)
  unfolding solve
  solve-Outcome s =
      let (u, b) = bm_loop row junk s code.tt (2 * code.tt) 0 (bm_start row junk s code.tt) in
      locate-Outcome s b.elp (u + 1) (get_or b.l (u + 1) 0)

  error_correction_rs-Outcome : Outcome codeword (error_correction_rs row junk code codeword)
  unfolding error_correction_rs
  error_correction_rs-Outcome =
      if_intro (Outcome codeword) (any_nonzero (syndrome_values row junk code codeword))
        (solve-Outcome (syndrome_index row junk code codeword)) (kept ne (λ e. cc) (λ e. cc))

  syndromes_from_zero :
      (left i : ℕ)
      → any_nonzero (syndromes_from row code.nn_short codeword left i) ≡ false
      → (k : ℕ) → i ≤ k
      → k < i + left
      → syndrome row k code.nn_short codeword ≡ 0
  unfolding syndromes_from any_nonzero
  syndromes_from_zero zero i h k p q = absurd (omega arith)
  syndromes_from_zero (suc left) i h k p q =
      ground (arith, syndromes_from_zero left (i + 1) (ground arith) k)

  zero_syndromes_from :
      (left i : ℕ)
      → ((k : ℕ) → i ≤ k → k < i + left → syndrome row k code.nn_short codeword ≡ 0)
      → any_nonzero (syndromes_from row code.nn_short codeword left i) ≡ false
  unfolding syndromes_from any_nonzero
  zero_syndromes_from zero i h = refl
  zero_syndromes_from (suc left) i h =
      ground
        (arith, h i, zero_syndromes_from left (i + 1) (λ k p q. h k (omega arith) (omega arith)))

  abbrev IsNotNe : Decoded → Type 0
  IsNotNe r = r.result ≢ ne

  finish_ne :
      (s : List ℤ) (e0 : ℤ) (e : List ℤ) (l_u : ℕ) (found : Search)
      → IsNotNe (finish row junk code s e0 e codeword l_u found)
  unfolding finish
  finish_ne s e0 e l_u found =
      if_intro IsNotNe (length found.loc == l_u && ce_cases code l_u found.loc) ce-ne due-ne

  solve_ne : (s : List ℤ) → IsNotNe (solve row junk code s codeword)
  unfolding solve locate
  solve_ne s =
      let (u, b) = bm_loop row junk s code.tt (2 * code.tt) 0 (bm_start row junk s code.tt) in
      let l_u = get_or b.l (u + 1) 0 in
      if_intro IsNotNe (leb l_u code.tt)
        (finish_ne s _ _ l_u (chien row (elp_index row junk b.elp (u + 1) l_u 1))) due-ne

  quiet :
      (error_correction_rs row junk code codeword).result ≡ ne
      → any_nonzero (syndrome_values row junk code codeword) ≡ false
  unfolding error_correction_rs
  quiet h = ground (arith, solve_ne (syndrome_index row junk code codeword))

  -- The result is `NE` exactly when all syndromes are 0.
  pub error_correction_rs-ne_iff :
      ((error_correction_rs row junk code codeword).result ≡ ne)
      ↔ ((k : ℕ) → 1 ≤ k → k < 1 + 2 * code.tt → syndrome row k code.nn_short codeword ≡ 0)
  unfolding error_correction_rs syndrome_values
  error_correction_rs-ne_iff = (
    λ h. syndromes_from_zero (2 * code.tt) 1 (quiet h),
    λ z. rw (zero_syndromes_from (2 * code.tt) 1 z) refl,
  )

  Outcome-cell :
      (r : Decoded) (i : ℕ)
      → Outcome codeword r
      → (get_or r.codeword i 0 ≡ get_or codeword i 0) ⊎ (get_or r.codeword i 0 ≡ 0)
  Outcome-cell r i (kept t p q) = inl refl
  Outcome-cell r i (cleared recd n) = ground (arith, wipe-cell recd codeword n i)

  -- Decoding sets no bit: each cell is kept or cleared.
  pub error_correction_rs_cells :
      (i : ℕ)
      → let r = error_correction_rs row junk code codeword in
        (get_or r.codeword i 0 ≡ get_or codeword i 0) ⊎ (get_or r.codeword i 0 ≡ 0)
  error_correction_rs_cells i = Outcome-cell _ i error_correction_rs-Outcome

  Outcome-kept : (r : Decoded) → Outcome codeword r → r.result ≢ ce → r.codeword ≡ codeword
  Outcome-kept r (kept t p q) h = refl
  Outcome-kept r (cleared recd n) h = absurd (h refl)

  Outcome-ne_sdc : (r : Decoded) → Outcome codeword r → r.result ≢ sdc
  Outcome-ne_sdc r (kept t p q) = q
  Outcome-ne_sdc r (cleared recd n) = λ e. cc

  -- Without a correction the codeword is as it was, and the decoder never answers `SDC`.
  pub error_correction_rs-kept :
      let r = error_correction_rs row junk code codeword in
      (r.result ≢ ce → r.codeword ≡ codeword) × (r.result ≢ sdc)
  error_correction_rs-kept =
      (Outcome-kept _ error_correction_rs-Outcome, Outcome-ne_sdc _ error_correction_rs-Outcome)
