-- ===== src/McSim/BlockHammer/Window.antt =====
-- What class BlockHammer does with one bank over the refresh windows.
use Prim.{Unit}
use row_armor.Base.{
  ℕ, ◌+◌, ◌≤◌, ◌≡◌, ◌≢◌, ◌⊎◌, ◌==◌, if◌then◌else◌, List, [], ◌∷◌, Option, none, some, Bool, true,
  false,
}
use row_armor.McSim.BlockHammer.{BankBlocker, act, query_rowblocker, half_window}
use row_armor.McSim.BlockHammer.Cbf.{not_listed}

-- What the memory controller does with the bank.
pub data BlockerEvent : Type 0 where
  activated : (row th_id time : ℕ) → BlockerEvent
  asked : (row time : ℕ) → BlockerEvent
  half_done : (first : Bool) → BlockerEvent

-- The activations of a row that each filter saw since its last reset, and which filter is valid.
pub record Window : Type 0 where
  pub first_count : ℕ
  pub second_count : ℕ
  pub first_valid : Bool

abbrev pub window_start : Window
window_start = record { first_count = 0; second_count = 0; first_valid = true }

abbrev pub window_after : ℕ → BlockerEvent → Window → Window
window_after a (activated row th_id time) w = record w {
  first_count = if row == a then w.first_count + 1 else w.first_count;
  second_count = if row == a then w.second_count + 1 else w.second_count;
}
window_after a (asked row time) w = w
window_after a (half_done true) w = record w { second_count = 0; first_valid = true }
window_after a (half_done false) w = record w { first_count = 0; first_valid = false }

abbrev pub windows_after : ℕ → List BlockerEvent → Window → Window
windows_after a [] w = w
windows_after a (e ∷ es) w = windows_after a es (window_after a e w)

-- The activations of the row in the window that counts now.
abbrev pub valid_count : Window → ℕ
valid_count w = if w.first_valid then w.first_count else w.second_count

-- No activation is of the row -1, which the source asserts.
abbrev pub IsRow : BlockerEvent → Type 0
IsRow (activated row th_id time) = row ≢ not_listed
IsRow (asked row time) = Unit
IsRow (half_done first) = Unit

abbrev pub AreRows : List BlockerEvent → Type 0
AreRows [] = Unit
AreRows (e ∷ es) = IsRow e × AreRows es

abbrev pub IsActivation : ℕ → ℕ → BlockerEvent → Type 0
IsActivation a since (activated row th_id time) = (row ≡ a) × (time ≡ since)
IsActivation a since (asked row time) = ⊥
IsActivation a since (half_done first) = ⊥

module _ (lower_bound : ℕ → ℕ) where
  -- The event drops nothing as young as `since`.
  abbrev pub Spares : ℕ → BlockerEvent → Type 0
  Spares since (activated row th_id time) = lower_bound time ≤ since
  Spares since (asked row time) = lower_bound time ≤ since
  Spares since (half_done first) = Unit

  abbrev pub AllSpare : ℕ → List BlockerEvent → Type 0
  AllSpare since [] = Unit
  AllSpare since (e ∷ es) = Spares since e × AllSpare since es

  -- The row was activated at the time `since`, and no later event drops that.
  abbrev pub HasRecent : ℕ → ℕ → List BlockerEvent → Type 0
  HasRecent a since [] = ⊥
  HasRecent a since (e ∷ es) = (IsActivation a since e × AllSpare since es) ⊎ HasRecent a since es

module _ (lookup_hash : ℕ → ℕ → ℕ) (lower_bound : ℕ → ℕ) (attackthrottler : Bool) (bank : ℕ) where
  -- The answers to the events are left out.
  abbrev pub after_event : BlockerEvent → BankBlocker → Option BankBlocker
  after_event (activated row th_id time) s =
      elim (act lookup_hash lower_bound attackthrottler row bank th_id time s) [
        | none ↦ none
        | some r ↦ some r.0
      ]
  after_event (asked row time) s = elim (query_rowblocker lookup_hash lower_bound row bank time s) [
    | none ↦ none
    | some r ↦ some r.0
  ]
  after_event (half_done first) s = some (half_window attackthrottler first s)

  abbrev pub after_events : List BlockerEvent → BankBlocker → Option BankBlocker
  after_events [] s = some s
  after_events (e ∷ es) s = elim (after_event e s) [ none ↦ none | some s' ↦ after_events es s' ]
