-- ===== src/McSim/Controller/Dispatch.antt =====
-- What an activation does to the state of the defences against row hammering, in the two places of
-- `MemoryController::process_event` that activate a row: an idle bank, and a row miss. The state is
-- that of one bank, with the trackers that its rank and the controller share.
pub mod Graphene
pub mod Swaps
use row_armor.Base.{
  ℕ, ◌+◌, ◌*◌, ◌%◌, ◌^◌, ◌==◌, ◌||◌, ◌&&◌, ltb, if◌then◌else◌, Option, none, some, Bool, true,
  false,
}
use row_armor.Base.Word.{inc64}
use row_armor.McSim.Graphene.{Table, graphene_activate, update_hrt}
use row_armor.McSim.BlockHammer.{BankBlocker, act}
use row_armor.McSim.Hydra.{HydraConfig, Hydra, hydra_activate}
use row_armor.McSim.Abacus.{Abacus, abacus_activate}
use row_armor.McSim.Controller.Prac.{RfmBank, update_raa_counter, prac_activate}

pub data RhMode : Type 0 where
  rh_none : RhMode
  rh_para : RhMode
  rh_graphene : RhMode
  rh_blockhammer : RhMode
  rh_hydra : RhMode
  rh_srs : RhMode
  rh_rampart : RhMode
  rh_abacus : RhMode
  rh_prac : RhMode

-- The parameters: the hash functions and the delay of BlockHammer, and whether PARA draws a refresh.
pub record DefenceConfig : Type 0 where
  pub rh_mode : RhMode
  pub bank_num : ℕ
  pub blast_radius : ℕ
  pub graphene_threshold : ℕ
  pub rrs_hrt_threshold : ℕ
  pub hydra_config : HydraConfig
  pub lookup_hash : ℕ → ℕ → ℕ
  pub lower_bound : ℕ → ℕ
  pub attackthrottler : Bool
  pub raaimt : ℕ
  pub num_pages_per_bank : ℕ
  pub cont_precharge_after_activate : Bool
  pub cont_precharge_after_write : Bool

-- When the bank was last activated and last written to.
pub record BankTimes : Type 0 where
  pub latest_activate_time : ℕ
  pub latest_write_time : ℕ

pub record Defence : Type 0 where
  pub rh_ref : Bool
  pub rh_update : Bool
  pub rh_swap : Bool
  pub num_rh : ℕ
  pub graphene_statistic : ℕ
  pub num_refreshes_for_hydra : ℕ
  pub num_rct_updates : ℕ
  pub rrs_num_row_swap : ℕ
  pub graphene : Table
  pub blocker : BankBlocker
  pub hydra : Hydra
  pub rrs : Table
  pub abacus : Abacus
  pub rfm : RfmBank

pub record Activation : Type 0 where
  pub address : ℕ
  pub page_num : ℕ
  pub th_id : ℕ
  pub curr_time : ℕ

unfoldable pub add64 : ℕ → ℕ → ℕ
add64 m n = (m + n) % 2 ^ 64

unfoldable pub on_graphene : DefenceConfig → Activation → Defence → Defence
unfolding graphene_activate add64
on_graphene p a s =
    let (table, answer) = graphene_activate p.graphene_threshold s.graphene a.page_num in
    if answer == 0 then record s { graphene = table } else record s {
      graphene = table;
      rh_ref = true;
      num_rh = add64 s.num_rh (2 * p.blast_radius % 2 ^ 32);
      graphene_statistic = add64 s.graphene_statistic (2 * p.blast_radius % 2 ^ 32);
    }

unfoldable pub on_hydra : DefenceConfig → Activation → Defence → Defence
unfolding hydra_activate inc64
on_hydra p a s =
    let (tables, answer) = hydra_activate p.hydra_config a.address s.hydra in
    let s' = record s { hydra = tables } in
    if answer == 2
    then record s' { rh_ref = true; num_refreshes_for_hydra = inc64 s.num_refreshes_for_hydra }
    else if answer == 3
    then record s' {
      rh_ref = true;
      rh_update = true;
      num_refreshes_for_hydra = inc64 s.num_refreshes_for_hydra;
      num_rct_updates = inc64 s.num_rct_updates;
    }
    else s'

unfoldable pub on_abacus : DefenceConfig → Activation → Defence → Defence
unfolding abacus_activate
on_abacus p a s =
    let (table, answer) = abacus_activate p.bank_num a.page_num s.abacus in
    record s {
      abacus = table;
      rh_swap = (answer == 1) || s.rh_swap;
      rh_update = (answer == 2) || s.rh_update;
    }

unfoldable pub on_blockhammer : DefenceConfig → Activation → Defence → Option Defence
unfolding act
on_blockhammer p a s =
    elim (act p.lookup_hash p.lower_bound p.attackthrottler a.page_num p.bank_num a.th_id
      a.curr_time s.blocker) [ none ↦ none | some r ↦ some (record s { blocker = r.0 }) ]

-- The swap of SRS where the tracker asks for it.
unfoldable pub on_srs_idle : DefenceConfig → Activation → Defence → Defence
unfolding update_hrt inc64
on_srs_idle p a s =
    let (table, do_swap) = update_hrt p.rrs_hrt_threshold s.rrs a.page_num in
    if do_swap
    then record s { rrs = table; rh_swap = true; rrs_num_row_swap = inc64 s.rrs_num_row_swap }
    else record s { rrs = table }

-- The swap of SRS at a row miss: the answer of the tracker is not looked at.
unfoldable pub on_srs_miss : DefenceConfig → Activation → Defence → Defence
unfolding update_hrt inc64
on_srs_miss p a s = record s {
  rrs = (update_hrt p.rrs_hrt_threshold s.rrs a.page_num).0;
  rh_swap = true;
  rrs_num_row_swap = inc64 s.rrs_num_row_swap;
}

-- An activation of an idle bank; `draws` is whether PARA draws a refresh. `none`: a failed assertion.
unfoldable pub idle_activate : DefenceConfig → Bool → Activation → Defence → Option Defence
unfolding on_graphene on_hydra on_abacus on_blockhammer on_srs_idle add64
idle_activate p draws a s = elim p.rh_mode [
  | rh_none ↦ some s
  | rh_para ↦ some (if draws then record s { rh_ref = true; num_rh = add64 s.num_rh 1 } else s)
  | rh_graphene ↦ some (on_graphene p a s)
  | rh_blockhammer ↦ on_blockhammer p a s
  | rh_hydra ↦ some (on_hydra p a s)
  | rh_srs ↦ some (on_srs_idle p a s)
  | rh_abacus ↦ some (on_abacus p a s)
  | rh_rampart ↦ some (record s { rfm = update_raa_counter p.raaimt s.rfm })
  | rh_prac ↦ some (record s { rfm = prac_activate p.raaimt p.num_pages_per_bank a.page_num s.rfm })
]

-- An activation at a row miss, where PARA draws no refresh.
unfoldable pub miss_activate : DefenceConfig → Activation → Defence → Option Defence
unfolding on_graphene on_hydra on_abacus on_blockhammer on_srs_miss
miss_activate p a s = elim p.rh_mode [
  | rh_none ↦ some s
  | rh_para ↦ some s
  | rh_graphene ↦ some (on_graphene p a s)
  | rh_blockhammer ↦ on_blockhammer p a s
  | rh_hydra ↦ some (on_hydra p a s)
  | rh_srs ↦ some (on_srs_miss p a s)
  | rh_abacus ↦ some (on_abacus p a s)
  | rh_rampart ↦ some (record s { rfm = update_raa_counter p.raaimt s.rfm })
  | rh_prac ↦ some (record s { rfm = prac_activate p.raaimt p.num_pages_per_bank a.page_num s.rfm })
]

-- Whether the bank was precharged along with the last activation or write.
unfoldable pub cont_precharge : DefenceConfig → BankTimes → Bool
cont_precharge p t =
    (ltb t.latest_write_time t.latest_activate_time && p.cont_precharge_after_activate)
    || (ltb t.latest_activate_time t.latest_write_time && p.cont_precharge_after_write)

-- A precharge does the refresh of neighbours that was asked for, and Hydra's update of the counters
-- along with it. The time that these take is not part of the state.
unfoldable pub miss_precharge : DefenceConfig → Defence → Defence
miss_precharge p s =
    let updated : Bool = elim p.rh_mode [
      | rh_none ↦ s.rh_update
      | rh_para ↦ s.rh_update
      | rh_graphene ↦ s.rh_update
      | rh_blockhammer ↦ s.rh_update
      | rh_hydra ↦ false
      | rh_srs ↦ s.rh_update
      | rh_abacus ↦ s.rh_update
      | rh_rampart ↦ s.rh_update
      | rh_prac ↦ s.rh_update
    ] in
    if s.rh_ref then record s { rh_ref = false; rh_update = updated } else s

-- A row miss activates the row only if the bank is precharged already; else it is precharged first.
unfoldable pub row_miss : DefenceConfig → BankTimes → Activation → Defence → Option Defence
unfolding cont_precharge miss_activate miss_precharge
row_miss p t a s = if cont_precharge p t then miss_activate p a s else some (miss_precharge p s)
