-- ===== src/McSim/Tests/Control.antt =====
-- The theorems on the translation buffer and the memory controller, at concrete inputs.
use row_armor.Base.{
  ℕ, ◌+◌, ◌-◌, ◌*◌, ◌%◌, ◌^◌, ◌≡◌, ◌≢◌, refl, leb, List, [], ◌∷◌, none, some, true, false, arith,
}
use row_armor.McSim.Graphene.{flush}
use row_armor.McSim.Graphene.Guarantee.{activations}
use row_armor.McSim.Hydra.{hydra_config, hydra_start}
use row_armor.McSim.Abacus.{abacus_start}
use row_armor.McSim.BlockHammer.{blocker_start}
use row_armor.McSim.BlockHammer.Throttler.{AttackThrottler, throttler_query}
use row_armor.McSim.Hash.{lookup_hash}
use row_armor.McSim.Tlb.{tlb_start}
use row_armor.McSim.Tlb.Lru.{tlb_run, lru_run, tlb_run-lru}
use row_armor.McSim.Controller.Bliss.{
  bliss_start, served_again, is_blacklisted, served_again-blacklisted,
}
use row_armor.McSim.Controller.Address.{make_address, get_bank_num}
use row_armor.McSim.Controller.Address.Bank.{attack_map, get_bank_num-make_address}
use row_armor.McSim.Controller.Admit.{
  Request, Queues, AdmitConfig, quota_full, admit_loop, admit_requests,
}
use row_armor.McSim.Controller.Admit.Ends.{admit_requests-ends, admit_loop-stuck}
use row_armor.McSim.Controller.Dispatch.{
  RhMode, rh_graphene, rh_srs, DefenceConfig, Defence, Activation,
}
use row_armor.McSim.Controller.Dispatch.Graphene.{BankActivation, defended, defended-graphene}
use row_armor.McSim.Controller.Dispatch.Swaps.{Miss, misses, tracked, misses-swaps}

abbrev page_uses : List (ℕ × ℕ)
page_uses = (1, 10) ∷ (2, 11) ∷ (4, 10) ∷ (5, 12) ∷ (6, 11) ∷ []

tlb_run-lru_example : tlb_run 2 page_uses tlb_start ≡ lru_run 2 page_uses []
tlb_run-lru_example =
    tlb_run-lru 2 page_uses (omega arith)
      (omega arith, (omega arith, (omega arith, (omega arith, (omega arith, record {})))))

served_again-blacklisted_example :
    (is_blacklisted 2 (served_again 4 2 (bliss_start 4 100)) ≡ true)
    × ((u : ℕ)
        → u ≢ 2
        → is_blacklisted u (served_again 4 2 (bliss_start 4 100))
          ≡ is_blacklisted u (bliss_start 4 100))
unfolding bliss_start
served_again-blacklisted_example =
    served_again-blacklisted 4 2 (bliss_start 4 100) (omega arith) (omega arith) (omega arith)
      (omega arith)

abbrev throttles : AdmitConfig
throttles = record { throttles = true; par_bs = true }

-- Thread 1 has three requests in flight.
abbrev busy : AttackThrottler
busy = record { valid = true; bl_acts = λ _. some 1; used_quota = λ _. some 3 }

abbrev some_queues : Queues
some_queues = record {
  req_event = [];
  req_l = [];
  first_throttler = busy;
  second_throttler = busy;
  num_req_from_a_th = λ _. 0;
  acc_from_a_th = λ _. 0;
}

abbrev a_request : Request
a_request = record { th_id = 1; address = 64 }

abbrev requests : List (ℕ × Request)
requests = (20, a_request) ∷ (20, a_request) ∷ (30, a_request) ∷ []

abbrev waiting : Queues
waiting = record some_queues { req_event = requests }

admit_requests-ends_example :
    (s' : Queues) × (admit_requests (λ acts used. false) throttles 20 4 waiting ≡ some s')
    × (s'.req_event ≡ (30, a_request) ∷ [])
    × (s'.req_l ≡ a_request ∷ a_request ∷ [])
admit_requests-ends_example =
    admit_requests-ends (λ acts used. false) throttles 20 4 waiting (λ on acts used. refl)
      (omega arith)

admit_loop-stuck_example :
    admit_loop (λ acts used. leb 3 used) throttles 20 9 ((20, a_request) ∷ []) some_queues ≡ none
unfolding quota_full throttler_query
admit_loop-stuck_example =
    admit_loop-stuck (λ acts used. leb 3 used) throttles 20 9 a_request [] some_queues refl refl

abbrev config : RhMode → DefenceConfig
config mode = record {
  rh_mode = mode;
  bank_num = 1;
  blast_radius = 1;
  graphene_threshold = 2;
  rrs_hrt_threshold = 2;
  hydra_config = hydra_config 2 4 2 4 64 3;
  lookup_hash = lookup_hash;
  lower_bound = λ time. time - 10;
  attackthrottler = true;
  raaimt = 4;
  num_pages_per_bank = 64;
  cont_precharge_after_activate = true;
  cont_precharge_after_write = false;
}

abbrev fresh : Defence
fresh = record {
  rh_ref = false;
  rh_update = false;
  rh_swap = false;
  num_rh = 0;
  graphene_statistic = 0;
  num_refreshes_for_hydra = 0;
  num_rct_updates = 0;
  rrs_num_row_swap = 0;
  graphene = flush 2;
  blocker = blocker_start 2 8 2;
  hydra = hydra_start (hydra_config 2 4 2 4 64 3);
  rrs = flush 2;
  abacus = abacus_start 2 5 3;
  rfm = record { raa_counter = 0; prac = λ _. 0; todo_rfm_flag = false };
}

abbrev of_page : ℕ → Activation
of_page page = record { address = page * 8; page_num = page; th_id = 0; curr_time = 20 }

abbrev hammered : List BankActivation
hammered =
    record { idle = true; draws = false; activation = of_page 5 }
    ∷ record { idle = false; draws = false; activation = of_page 7 }
    ∷ record { idle = false; draws = false; activation = of_page 5 }
    ∷ []

defended-graphene_example :
    (s' : Defence) × (defended (config rh_graphene) hammered fresh ≡ some s') × (s'.rh_ref ≡ true)
unfolding activations
defended-graphene_example =
    defended-graphene (config rh_graphene) 5 2 hammered fresh refl refl (omega arith) (omega arith)
      (ground arith) (omega arith) (omega arith) (ground arith)

-- A miss after an activation, one after a write, and one after an activation again.
abbrev some_misses : List Miss
some_misses =
    record {
      times = record { latest_activate_time = 9; latest_write_time = 4 };
      activation = of_page 5;
    }
    ∷ record {
      times = record { latest_activate_time = 9; latest_write_time = 12 };
      activation = of_page 7;
    }
    ∷ record {
      times = record { latest_activate_time = 20; latest_write_time = 12 };
      activation = of_page 7;
    }
    ∷ []

misses-swaps_example :
    (s' : Defence) × (misses (config rh_srs) some_misses fresh ≡ some s')
    × ((s'.rrs_num_row_swap % 2 ^ 64) ≡ ((0 + 2) % 2 ^ 64))
    × (s'.rh_swap ≡ true)
    × (s'.rrs ≡ tracked 2 (flush 2) (5 ∷ 7 ∷ []))
misses-swaps_example = misses-swaps (config rh_srs) some_misses fresh refl

get_bank_num-make_address_example :
    get_bank_num (attack_map 13 2 4 5) (make_address (attack_map 13 2 4 5) 9 1000) 0 ≡ 9
get_bank_num-make_address_example =
    get_bank_num-make_address 13 2 4 5 9 1000 0 (omega arith) (omega arith) (omega arith)
      (omega arith) (omega arith) (omega arith)
