-- ===== src/FaultSim/Run/Blocks.antt =====
-- What the results of the cases OOC and QPC of `main` say of the array that is left.
use row_armor.Base.{ℕ, ◌+◌, ◌*◌, ◌<◌, ◌≤◌, ◌≡◌, ◌≢◌, refl, ◌⊎◌, inl, inr, List, arith, subst, sym}
use native.Mathlib.Decide.{dec_lt}
use row_armor.FaultSim.Config.{ResultType, ne, ce, due, sdc, result_max, qpc, ooc}
use row_armor.FaultSim.Grid.{Grid, cell, IsGrid}
use row_armor.FaultSim.Rs.Code.{ooc_code, qpc_code}
use row_armor.FaultSim.Rs.Decode.{error_correction_ooc, error_correction_qpc}
use row_armor.FaultSim.Rs.Decode.Safety.{error_correction_rs-kept}
use row_armor.FaultSim.Transfer.{load, store, sdc_check}
use row_armor.FaultSim.Transfer.Cells.{cell-store, store-IsGrid}
use row_armor.FaultSim.Transfer.Check.{sdc_check-Answer, Answer}
use row_armor.FaultSim.Run.{block_result, run_ooc, qpc_block, run_qpc}

-- No cell of a window is 1; some cell is.
abbrev pub IsClean : Grid → ℕ → ℕ → ℕ → Type 0
IsClean g chips lo hi = (c b : ℕ) → c < chips → lo ≤ b → b < hi → cell g c b ≢ 1

abbrev pub HasError : Grid → ℕ → ℕ → ℕ → Type 0
HasError g chips lo hi = (c : ℕ) × (b : ℕ) × (c < chips) × (lo ≤ b) × (b < hi) × (cell g c b ≡ 1)

-- What a result means for the cells of a window.
pub record IsHonest (g : Grid) (chips lo hi : ℕ) (r : ResultType) : Type 0 where
  pub not_ne : r ≢ ne
  pub if_ce : r ≡ ce → IsClean g chips lo hi
  pub if_sdc : r ≡ sdc → HasError g chips lo hi

block_result-IsHonest :
    (d : ResultType) (g : Grid) (e chips lo columns : ℕ)
    → d ≢ sdc
    → Answer g 0 chips lo columns e
    → IsHonest g chips lo (lo + columns) (block_result d e)
unfolding block_result
block_result-IsHonest sdc g e chips lo columns n a = absurd (n refl)
block_result-IsHonest due g e chips lo columns n a = record {
  not_ne = λ h. cc;
  if_ce = λ h. absurd (ground arith);
  if_sdc = λ h. absurd (ground arith);
}
block_result-IsHonest ce g e chips lo columns n (inl (one, (c, b, p, q, s, t, h))) =
    rw one (record {
      not_ne = λ h. cc;
      if_ce = λ h. absurd (ground arith);
      if_sdc = λ _. (c, b, omega arith, s, t, h);
    })
block_result-IsHonest ce g e chips lo columns n (inr (zero_there, none_there)) =
    rw zero_there (record {
      not_ne = λ h. cc;
      if_ce = λ _ c b p s t. none_there c b (omega arith) (omega arith) s t;
      if_sdc = λ h. absurd (ground arith);
    })
block_result-IsHonest ne g e chips lo columns n (inl (one, (c, b, p, q, s, t, h))) =
    rw one (record {
      not_ne = λ h. cc;
      if_ce = λ h. absurd (ground arith);
      if_sdc = λ _. (c, b, omega arith, s, t, h);
    })
block_result-IsHonest ne g e chips lo columns n (inr (zero_there, none_there)) =
    rw zero_there (record {
      not_ne = λ h. cc;
      if_ce = λ _ c b p s t. none_there c b (omega arith) (omega arith) s t;
      if_sdc = λ h. absurd (ground arith);
    })

module _ (row : List ℕ) (junk : ℕ) (g : Grid) where
  -- The case OOC answers `CE` only if none of the 20 × 32 cells is wrong in the end, `SDC` only if
  -- one is, and never `NE`.
  pub run_ooc-IsHonest : let r = run_ooc row junk g in IsHonest r.0 20 0 32 r.1
  unfolding run_ooc
  run_ooc-IsHonest =
      let word = load junk 32 20 0 g in
      let d = error_correction_ooc row junk word in
      let g' = store 32 20 0 d.codeword g in
      block_result-IsHonest d.result g' (sdc_check 0 g' ooc) 20 0 32 (never_sdc word)
        (sdc_check-Answer 0 g' ooc)
    where
      never_sdc : (w : List ℕ) → (error_correction_ooc row junk w).result ≢ sdc
      never_sdc w = unfold error_correction_ooc in (error_correction_rs-kept row junk ooc_code w).1

  pub qpc_block-IsHonest :
      (bl : ℕ) → let r = qpc_block row junk bl g in IsHonest r.0 10 (32 * bl) (32 * bl + 32) r.1
  unfolding qpc_block
  qpc_block-IsHonest bl =
      let word = load junk 32 10 (32 * bl) g in
      let d = error_correction_qpc row junk word in
      let g' = store 32 10 (32 * bl) d.codeword g in
      block_result-IsHonest d.result g' (sdc_check bl g' qpc) 10 (32 * bl) 32 (never_sdc word)
        (sdc_check-Answer bl g' qpc)
    where
      never_sdc : (w : List ℕ) → (error_correction_qpc row junk w).result ≢ sdc
      never_sdc w = unfold error_correction_qpc in (error_correction_rs-kept row junk qpc_code w).1

  -- A block leaves the columns of the other one alone.
  qpc_block-cell :
      (bl : ℕ)
      → bl < 2
      → IsGrid g
      → (c b : ℕ) → (b < 32 * bl) ⊎ (32 * bl + 32 ≤ b)
      → cell (qpc_block row junk bl g).0 c b ≡ cell g c b
  unfolding qpc_block
  qpc_block-cell bl h v c b away =
      let word = (error_correction_qpc row junk (load junk 32 10 (32 * bl) g)).codeword in
      ground (arith, cell-store 32 10 (32 * bl) word g (omega arith) (omega arith) v c b)

  qpc_block-IsGrid : (bl : ℕ) → bl < 2 → IsGrid g → IsGrid (qpc_block row junk bl g).0
  unfolding qpc_block
  qpc_block-IsGrid bl h v = store-IsGrid 32 10 (32 * bl) _ g (omega arith) (omega arith) v

max-sdc : (r1 r2 : ResultType) → result_max r1 r2 ≡ sdc → (r1 ≡ sdc) ⊎ (r2 ≡ sdc)
max-sdc r1 r2 h = ground arith

join-IsHonest :
    (g1 g2 : Grid) (r1 r2 : ResultType)
    → IsHonest g1 10 0 32 r1
    → IsHonest g2 10 32 64 r2
    → ((c b : ℕ) → b < 32 → cell g2 c b ≡ cell g1 c b)
    → IsHonest g2 10 0 64 (result_max r1 r2)
join-IsHonest g1 g2 r1 r2 h1 h2 same = record {
  not_ne = λ h. ground (arith, h1.not_ne, h2.not_ne);
  if_ce = λ h c b p q s. elim (dec_lt b 32) [
    | yes low ↦
        subst (λ v. v ≢ 1) (sym (same c b low))
          (h1.if_ce (ground (arith, h1.not_ne, h2.not_ne)) c b p q low)
    | no high ↦ h2.if_ce (ground (arith, h1.not_ne, h2.not_ne)) c b p (omega arith) s
  ];
  if_sdc = λ h. elim (max-sdc r1 r2 h) [
    | inl e ↦
        let (c, b, p, q, s, v) = h1.if_sdc e in
        (c, b, p, q, omega arith, subst (λ k. k ≡ 1) (sym (same c b s)) v)
    | inr e ↦ let (c, b, p, q, s, v) = h2.if_sdc e in (c, b, p, omega arith, s, v)
  ];
}

-- On an array of the declared size, the case QPC answers `CE` only if none of the 10 × 64 cells is wrong in the end, `SDC` only if
-- one is, and never `NE`.
pub run_qpc-IsHonest :
    (row : List ℕ) (junk : ℕ) (g : Grid)
    → IsGrid g
    → let r = run_qpc row junk g in IsHonest r.0 10 0 64 r.1
unfolding run_qpc
run_qpc-IsHonest row junk g v =
    let (g1, r1) = qpc_block row junk 0 g in
    let (g2, r2) = qpc_block row junk 1 g1 in
    join-IsHonest g1 g2 r1 r2 (qpc_block-IsHonest row junk g 0) (qpc_block-IsHonest row junk g1 1)
      λ c b h.
        qpc_block-cell row junk g1 1 (omega arith) (qpc_block-IsGrid row junk g 0 (omega arith) v) c
          b (inl h)

max-ne : (r1 r2 : ResultType) → r1 ≢ ne → r2 ≢ ne → result_max r1 r2 ≢ ne
max-ne r1 r2 h k e = ground arith

pub run_qpc_ne : (row : List ℕ) (junk : ℕ) (g : Grid) → (run_qpc row junk g).1 ≢ ne
unfolding run_qpc
run_qpc_ne row junk g =
    let (g1, r1) = qpc_block row junk 0 g in
    let (g2, r2) = qpc_block row junk 1 g1 in
    max-ne r1 r2 (qpc_block-IsHonest row junk g 0).not_ne (qpc_block-IsHonest row junk g1 1).not_ne
