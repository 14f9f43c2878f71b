-- ===== src/McSim/Tests/Trackers.antt =====
-- The theorems on the trackers of row activations, at concrete inputs.
use row_armor.Base.{
  ℕ, ◌-◌, ◌<◌, ◌≤◌, ◌≡◌, ◌↔◌, inl, inr, refl, List, [], ◌∷◌, map, some, true, false, arith, bit_xor,
}
use row_armor.McSim.Hydra.{HydraConfig, row_of, hydra_start, hydra_reset}
use row_armor.McSim.Hydra.Guarantee.{unrefreshed, hydra_guarantee}
use row_armor.McSim.Hydra.Cache.{queried, recency, take, query_rcc-lru}
use row_armor.McSim.Abacus.{abacus_start}
use row_armor.McSim.Abacus.Guarantee.{
  AbacusCall, activation, refresh_all, refresh_window, unrefreshed_in, abacus_guarantee,
}
use row_armor.McSim.BlockHammer.{BankBlocker, blocker_start, query_rowblocker}
use row_armor.McSim.BlockHammer.Window.{BlockerEvent, activated, asked, half_done, after_events}
use row_armor.McSim.BlockHammer.Guarantee.{blockhammer_guarantee}
use row_armor.McSim.BlockHammer.History.{hb_query}
use row_armor.McSim.BlockHammer.History.Log.{updated}
use row_armor.McSim.BlockHammer.History.Recent.{WasActivated, hb_query-WasActivated}
use row_armor.McSim.Hash.{lookup_hash}
use row_armor.McSim.Hash.Linear.{lookup_hash-xor}

abbrev small_hydra : HydraConfig
small_hydra = record {
  hydra_gct_threshold = 2;
  hydra_gct_num_entries = 4;
  hydra_rcc_num_entries = 2;
  hydra_rct_threshold = 4;
  page_sz_base_bit = 3;
  group_base_bit = 1;
}

abbrev some_addresses : List ℕ
some_addresses = 24 ∷ 25 ∷ 24 ∷ 16 ∷ 24 ∷ 40 ∷ 24 ∷ 24 ∷ []

hydra_guarantee_example :
    (unrefreshed small_hydra 3 some_addresses 0 (hydra_start small_hydra) ≤ 4)
    × (unrefreshed small_hydra 3 some_addresses 0
          (hydra_reset small_hydra (hydra_start small_hydra))
        ≤ 4)
hydra_guarantee_example =
    hydra_guarantee small_hydra 3 (hydra_start small_hydra) some_addresses (omega arith)
      (omega arith) (omega arith)

query_rcc-lru_example :
    (queried small_hydra some_addresses (hydra_start small_hydra)).rcc
    ≡ take 2 (recency (map (row_of small_hydra) some_addresses) [])
query_rcc-lru_example = query_rcc-lru small_hydra some_addresses (omega arith)

abbrev some_calls : List AbacusCall
some_calls =
    activation 1 3
    ∷ activation 1 3
    ∷ activation 0 3
    ∷ activation 1 7
    ∷ activation 1 9
    ∷ refresh_window
    ∷ activation 1 3
    ∷ refresh_all
    ∷ []

abacus_guarantee_example : unrefreshed_in 3 1 some_calls 0 (abacus_start 2 5 3) < 5
abacus_guarantee_example =
    abacus_guarantee 3 1 5 3 2 some_calls (ground arith) (omega arith) (omega arith) (omega arith)
      (omega arith)
      (
        omega arith,
        (
          omega arith,
          (
            omega arith,
            (omega arith, (omega arith, (record {}, (omega arith, (record {}, record {}))))),
          ),
        ),
      )

-- A delay of ten ticks.
abbrev ten_ago : ℕ → ℕ
ten_ago time = time - 10

abbrev some_events : List BlockerEvent
some_events =
    activated 3 0 15
    ∷ half_done false
    ∷ activated 3 0 16
    ∷ half_done true
    ∷ activated 3 1 20
    ∷ asked 3 22
    ∷ []

blockhammer_guarantee_example :
    (s : BankBlocker) × (after_events lookup_hash ten_ago true 1 some_events (blocker_start 2 8 2)
      ≡ some s)
    × ((s' : BankBlocker) × (query_rowblocker lookup_hash ten_ago 3 1 25 s ≡ some (s', 3)))
blockhammer_guarantee_example =
    blockhammer_guarantee lookup_hash ten_ago true 1 3 2 8 2 20 25 some_events (omega arith)
      (omega arith) (omega arith)
      (
        ground arith,
        (record {}, (ground arith, (record {}, (ground arith, (record {}, record {}))))),
      )
      (inr (inr (inr (inr (inl ((refl, refl), (omega arith, record {}))))))) (omega arith)
      (omega arith)

abbrev some_rows : List (ℕ × ℕ)
some_rows = (3, 15) ∷ (4, 22) ∷ (3, 25) ∷ []

hb_query-WasActivated_example :
    ((hb_query ten_ago 3 1 30 (updated ten_ago 1 some_rows [])).1 ≡ true)
    ↔ WasActivated 3 20 some_rows
hb_query-WasActivated_example =
    hb_query-WasActivated ten_ago 3 1 30 some_rows
      (omega arith, (omega arith, (omega arith, omega arith)))

lookup_hash-xor_example :
    lookup_hash (bit_xor 12345 678) 3 ≡ bit_xor (lookup_hash 12345 3) (lookup_hash 678 3)
lookup_hash-xor_example = lookup_hash-xor 12345 678 3 (omega arith) (omega arith)
