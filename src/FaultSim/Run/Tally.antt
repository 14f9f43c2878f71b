-- ===== src/FaultSim/Run/Tally.antt =====
-- The counters of `main` over all iterations.
use row_armor.Base.{
  ℕ, zero, suc, ◌+◌, ◌≡◌, ◌≢◌, refl, inl, inr, ◌⊎◌, ◌==◌, if◌then◌else◌, List, [], ◌∷◌, Option,
  none, some, arith, Option-cases,
}
use row_armor.FaultSim.Config.{
  OeccType, oecc_off, oecc_on, FaultType, ReccType, recc_off, amdchipkill, qpc, ooc, ResultType, ne,
  ce, due, sdc,
}
use row_armor.FaultSim.Grid.{Grid, blank}
use row_armor.FaultSim.Inject.{inject, >>=-eq-some}
use row_armor.FaultSim.Transfer.{sdc_check}
use row_armor.FaultSim.Run.Blocks.{run_ooc-IsHonest, run_qpc_ne}
use row_armor.FaultSim.Run.{
  AmdState, amd_conclude, amd_start, amd_rounds, draw_positions, run_amdchipkill, run_recc,
  run_once, run_all, Counts, count_result,
}

amd_conclude_ne : (st : AmdState) → amd_conclude st ≢ ne
unfolding amd_conclude
amd_conclude_ne st h = ground arith

abbrev pub total : Counts → ℕ
total n = n.ce_cnt + n.due_cnt + n.sdc_cnt

count_result-total : (r : ResultType) (n : Counts) → r ≢ ne → total (count_result r n) ≡ total n + 1
unfolding count_result
count_result-total ne n h = absurd (h refl)
count_result-total ce n h = omega arith
count_result-total due n h = omega arith
count_result-total sdc n h = omega arith

-- 1 where the results are the same.
abbrev pub same_result : ResultType → ResultType → ℕ
same_result ne ne = 1
same_result ce ce = 1
same_result due due = 1
same_result sdc sdc = 1
same_result a b = 0

abbrev pub occurrences : ResultType → List ResultType → ℕ
occurrences a [] = 0
occurrences a (r ∷ results) = same_result a r + occurrences a results

-- The counters `m` are `n` and the numbers of the results.
abbrev pub AreCounted : Counts → Counts → List ResultType → Type 0
AreCounted n m results =
    (m.ce_cnt ≡ n.ce_cnt + occurrences ce results)
    × (m.due_cnt ≡ n.due_cnt + occurrences due results)
    × (m.sdc_cnt ≡ n.sdc_cnt + occurrences sdc results)

AreCounted-cons :
    (r : ResultType) (n m : Counts) (results : List ResultType)
    → AreCounted (count_result r n) m results
    → AreCounted n m (r ∷ results)
unfolding count_result
AreCounted-cons ne n m results (x, y, z) = (omega arith, omega arith, omega arith)
AreCounted-cons ce n m results (x, y, z) = (omega arith, omega arith, omega arith)
AreCounted-cons due n m results (x, y, z) = (omega arith, omega arith, omega arith)
AreCounted-cons sdc n m results (x, y, z) = (omega arith, omega arith, omega arith)

returned_ne :
    (x r : ResultType) (mid rest : List ℕ)
    → x ≢ ne
    → ◌≡◌ {A = Option (ResultType × List ℕ)} (some (x, mid)) (some (r, rest))
    → r ≢ ne
returned_ne x r mid rest h e k = ground arith

none-ne-some : {x : Counts × List ℕ} → ◌≡◌ {A = Option (Counts × List ℕ)} none (some x) → ⊥
none-ne-some e = ground arith

off_ne : (e : ℕ) → (if e == 0 then ce else sdc) ≢ ne
off_ne e h = ground arith

module _ (row : List ℕ) (junk : ℕ) (junk_p junk_q : ℕ → ℕ) where
  run_recc_ne : (recc : ReccType) (g : Grid) → (run_recc row junk junk_p junk_q recc g).1 ≢ ne
  unfolding run_recc
  run_recc_ne ooc g = (run_ooc-IsHonest row junk g).not_ne
  run_recc_ne qpc g = run_qpc_ne row junk g
  run_recc_ne amdchipkill g =
      unfold run_amdchipkill in
      amd_conclude_ne (amd_rounds row junk junk_p junk_q 8 0 (amd_start g))
  run_recc_ne recc_off g = off_ne (sdc_check 0 g recc_off)

  module _ (oecc : OeccType) (fault : FaultType) (recc : ReccType) where
    run_once_ne :
        (rs : List ℕ) (r : ResultType) (rest : List ℕ)
        → run_once row junk junk_p junk_q oecc fault recc rs ≡ some (r, rest)
        → r ≢ ne
    unfolding run_once
    run_once_ne rs r rest h =
        let (chips, rs1, _, h1) = >>=-eq-some (draw_positions 10 4 []) _ rs h in
        let (pins, rs2, _, h2) = >>=-eq-some (draw_positions 40 4 []) _ rs1 h1 in
        let (g, rs3, _, h3) = >>=-eq-some (inject fault recc _ _ _ _ blank) _ rs2 h2 in
        returned_ne _ r rs3 rest (run_recc_ne recc g) h3

    -- Every iteration counts once: the three counters together grow by the number of iterations.
    pub run_all-total :
        (runs : ℕ) (n m : Counts) (rs rest : List ℕ)
        → run_all row junk junk_p junk_q oecc fault recc runs n rs ≡ some (m, rest)
        → total m ≡ total n + runs
    unfolding run_all
    run_all-total zero n m rs rest h = let same : n ≡ m = ground arith in rw (← same) (omega arith)
    run_all-total (suc runs) n m rs rest h =
        elim (Option-cases (run_once row junk junk_p junk_q oecc fault recc rs)) [
          | inl e ↦ absurd (none-ne-some (rw (e, run_all) at h))
          | inr ((r, mid), e) ↦ omega (
            arith,
            run_all-total runs (count_result r n) m mid rest (rw (e, run_all) at h),
            count_result-total r n (run_once_ne rs r mid e),
          )
        ]

  module _ (oecc : OeccType) (fault : FaultType) (recc : ReccType) where
    -- The results of the iterations, in their order.
    abbrev pub outcomes : ℕ → List ℕ → Option (List ResultType × List ℕ)
    outcomes zero rs = some ([], rs)
    outcomes (suc runs) rs = elim (run_once row junk junk_p junk_q oecc fault recc rs) [
      | none ↦ none
      | some (r, rest) ↦ elim (outcomes runs rest) [
        | none ↦ none
        | some (results, rest') ↦ some (r ∷ results, rest')
      ]
    ]

    -- The loop counts each result where it belongs: it returns exactly where all iterations do, each
    -- counter then grows by the number of iterations with its result, and as no iteration has the
    -- result `NE`, the three together grow by the number of iterations.
    pub run_all-AreCounted :
        (runs : ℕ) (n : Counts) (rs : List ℕ)
        → ((run_all row junk junk_p junk_q oecc fault recc runs n rs ≡ none)
            × (outcomes runs rs ≡ none))
          ⊎ ((m : Counts) × (results : List ResultType) × (rest : List ℕ) × (run_all row junk junk_p
                  junk_q oecc fault recc runs n rs
                ≡ some (m, rest))
              × (outcomes runs rs ≡ some (results, rest))
              × AreCounted n m results
              × (total m ≡ total n + runs))
    unfolding run_all
    run_all-AreCounted zero n rs =
        inr (n, [], rs, refl, refl, (omega arith, omega arith, omega arith), omega arith)
    run_all-AreCounted (suc runs) n rs =
        elim (Option-cases (run_once row junk junk_p junk_q oecc fault recc rs)) [
          | inl e ↦ rw (e, run_all, outcomes) (inl (refl, refl))
          | inr ((r, mid), e) ↦ elim (run_all-AreCounted runs (count_result r n) mid) [
            | inl (stuck, none_left) ↦
                rw (e, run_all, outcomes, stuck, none_left) (inl (refl, refl))
            | inr (m, results, rest, runs_to, seen, counted, sum) ↦
                rw (e, run_all, outcomes, runs_to, seen)
                  (inr (
                    m,
                    r ∷ results,
                    rest,
                    refl,
                    refl,
                    AreCounted-cons r n m results counted,
                    omega (
                      arith,
                      sum,
                      count_result-total r n (run_once_ne oecc fault recc rs r mid e),
                    ),
                  ))
          ]
        ]

  -- Switching the on-die code on changes no result.
  pub run_all-oecc :
      (fault : FaultType) (recc : ReccType) (runs : ℕ) (n : Counts) (rs : List ℕ)
      → run_all row junk junk_p junk_q oecc_on fault recc runs n rs
        ≡ run_all row junk junk_p junk_q oecc_off fault recc runs n rs
  unfolding run_all run_once
  run_all-oecc fault recc zero n rs = refl
  run_all-oecc fault recc (suc runs) n rs =
      elim (Option-cases (run_once row junk junk_p junk_q oecc_on fault recc rs)) [
        | inl e ↦ rw (e, run_all)
        | inr ((r, mid), e) ↦ rw (e, run_all) (run_all-oecc fault recc runs (count_result r n) mid)
      ]
