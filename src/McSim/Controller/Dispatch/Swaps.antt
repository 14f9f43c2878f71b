-- ===== src/McSim/Controller/Dispatch/Swaps.antt =====
-- The memory controller with row swaps: what happens at row misses.
use row_armor.Base.{
  ℕ, ◌+◌, ◌%◌, ◌^◌, ◌≡◌, ◌≢◌, refl, ltb, ◌||◌, if◌then◌else◌, List, [], ◌∷◌, length, Option, none,
  some, Bool, true, false, arith, Bool-cases, inl, inr, ◌∙◌,
}
use row_armor.Base.Word.{inc64}
use row_armor.McSim.Graphene.{Table, update_hrt}
use row_armor.McSim.Controller.Dispatch.{
  RhMode, rh_none, rh_para, rh_graphene, rh_blockhammer, rh_hydra, rh_srs, rh_abacus, rh_rampart,
  rh_prac, DefenceConfig, BankTimes, Defence, Activation, on_srs_miss, idle_activate, miss_activate,
  cont_precharge, miss_precharge, row_miss,
}

-- A row miss: the times of the bank, and the row that is wanted.
pub record Miss : Type 0 where
  pub times : BankTimes
  pub activation : Activation

-- Row misses one after the other.
abbrev pub misses : DefenceConfig → List Miss → Defence → Option Defence
misses p [] s = some s
misses p (m ∷ ms) s = elim (row_miss p m.times m.activation s) [
  | none ↦ none
  | some s' ↦ misses p ms s'
]

-- Whether the row is opened at once: the last activation came after the last write and the bank was
-- precharged along with activations, or the other way round.
abbrev pub opens : DefenceConfig → BankTimes → Bool
opens p t =
    if ltb t.latest_write_time t.latest_activate_time
    then p.cont_precharge_after_activate
    else (if ltb t.latest_activate_time t.latest_write_time
        then p.cont_precharge_after_write
        else false)

-- The rows that are opened, in their order.
abbrev pub opened : DefenceConfig → List Miss → List ℕ
opened p [] = []
opened p (m ∷ ms) = if opens p m.times then m.activation.page_num ∷ opened p ms else opened p ms

-- The tracker after activations of rows.
abbrev pub tracked : ℕ → Table → List ℕ → Table
tracked threshold table [] = table
tracked threshold table (row ∷ rows) = tracked threshold (update_hrt threshold table row).0 rows

or_true : (b : Bool) → (b || true) ≡ true
or_true true = refl
or_true false = refl

some_row : (row : ℕ) (rows : List ℕ) → ltb 0 (length (row ∷ rows)) ≡ true
some_row row rows = ground arith

cont_precharge-opens : (p : DefenceConfig) (t : BankTimes) → cont_precharge p t ≡ opens p t
unfolding cont_precharge
cont_precharge-opens p t = ground arith

miss_precharge-srs :
    (p : DefenceConfig) (s : Defence)
    → let s' = miss_precharge p s in
      (s'.rrs_num_row_swap ≡ s.rrs_num_row_swap) × (s'.rh_swap ≡ s.rh_swap) × (s'.rrs ≡ s.rrs)
unfolding miss_precharge
miss_precharge-srs p s = elim (Bool-cases s.rh_ref) [
  | inl asked ↦ rw (miss_precharge, asked) (refl, refl, refl)
  | inr quiet ↦ rw (miss_precharge, quiet) (refl, refl, refl)
]

-- With row swaps, every row miss that opens its row asks for a swap and is counted as one, whatever the
-- threshold is and whatever the tracker answers, and no other does. After some row misses no assertion
-- has failed, the counter of swaps is higher by the number of the rows opened, modulo 2 ^ 64, the swap
-- is asked for if there was one or if it was asked for before, and the tracker has counted just these
-- rows.
pub misses-swaps :
    (p : DefenceConfig) (ms : List Miss) (s : Defence)
    → p.rh_mode ≡ rh_srs
    → (s' : Defence) × (misses p ms s ≡ some s')
      × ((s'.rrs_num_row_swap % 2 ^ 64) ≡ ((s.rrs_num_row_swap + length (opened p ms)) % 2 ^ 64))
      × (s'.rh_swap ≡ (ltb 0 (length (opened p ms)) || s.rh_swap))
      × (s'.rrs ≡ tracked p.rrs_hrt_threshold s.rrs (opened p ms))
unfolding row_miss miss_activate on_srs_miss inc64
misses-swaps p [] s mode = (s, refl, omega arith, refl, refl)
misses-swaps p (m ∷ ms) s mode = elim (Bool-cases (opens p m.times)) [
  | inl ready ↦
      let (s', runs, count, swap, table) = misses-swaps p ms (on_srs_miss p m.activation s) mode in
      (
        s',
        rw (misses, row_miss, cont_precharge-opens, ready, miss_activate, mode) runs,
        rw (opened, ready) (omega (arith, count)),
        rw (opened, ready, some_row) (swap ∙ or_true (ltb 0 (length (opened p ms)))),
        rw (opened, ready) table,
      )
  | inr shut ↦
      let (same_count, same_swap, same_table) = miss_precharge-srs p s in
      let (s', runs, count, swap, table) = misses-swaps p ms (miss_precharge p s) mode in
      (
        s',
        rw (misses, row_miss, cont_precharge-opens, shut) runs,
        rw (opened, shut) (rw same_count at count),
        rw (opened, shut) (rw same_swap at swap),
        rw (opened, shut) (rw same_table at table),
      )
]

-- In the other modes but PARA, which draws elsewhere, an activation does the same on both paths.
pub idle_activate-miss :
    (p : DefenceConfig) (draws : Bool) (a : Activation) (s : Defence)
    → p.rh_mode ≢ rh_srs
    → p.rh_mode ≢ rh_para
    → idle_activate p draws a s ≡ miss_activate p a s
unfolding idle_activate miss_activate
idle_activate-miss p draws a s no_srs no_para = by_mode p.rh_mode refl
  where
    by_mode : (mode : RhMode) → p.rh_mode ≡ mode → idle_activate p draws a s ≡ miss_activate p a s
    by_mode rh_none e = rw (idle_activate, miss_activate, e) refl
    by_mode rh_para e = absurd (no_para e)
    by_mode rh_graphene e = rw (idle_activate, miss_activate, e) refl
    by_mode rh_blockhammer e = rw (idle_activate, miss_activate, e) refl
    by_mode rh_hydra e = rw (idle_activate, miss_activate, e) refl
    by_mode rh_srs e = absurd (no_srs e)
    by_mode rh_abacus e = rw (idle_activate, miss_activate, e) refl
    by_mode rh_rampart e = rw (idle_activate, miss_activate, e) refl
    by_mode rh_prac e = rw (idle_activate, miss_activate, e) refl
