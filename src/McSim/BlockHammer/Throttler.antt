-- ===== src/McSim/BlockHammer/Throttler.antt =====
-- Class AttackThrottler: how many requests a thread that activates listed rows may have in flight.
use row_armor.Base.{ℕ, ◌-◌, ◌==◌, if◌then◌else◌, Option, none, some, Bool, false}
use row_armor.Base.Word.{inc64}
use row_armor.Base.Tables.{insert_at, count_or_zero}

pub record AttackThrottler : Type 0 where
  pub valid : Bool
  pub bl_acts : ℕ → Option ℕ
  pub used_quota : ℕ → Option ℕ

unfoldable pub throttler_start : AttackThrottler
throttler_start = record { valid = false; bl_acts = λ _. none; used_quota = λ _. none }

unfoldable pub update_bl_acts : ℕ → AttackThrottler → AttackThrottler
unfolding inc64
update_bl_acts th_id s = elim (s.bl_acts th_id) [
  | none ↦ record s { bl_acts = insert_at th_id (some 1) s.bl_acts }
  | some n ↦ record s { bl_acts = insert_at th_id (some (inc64 n)) s.bl_acts }
]

unfoldable pub update_used_quota : ℕ → Bool → AttackThrottler → AttackThrottler
unfolding inc64
update_used_quota th_id increment s = elim (s.used_quota th_id) [
  | none ↦ if increment then record s { used_quota = insert_at th_id (some 1) s.used_quota } else s
  | some n ↦
      if increment
      then record s { used_quota = insert_at th_id (some (inc64 n)) s.used_quota }
      else record s {
        used_quota = insert_at th_id (some (if n == 0 then 0 else n - 1)) s.used_quota;
      }
]

-- The quota is computed with floating-point numbers: whether so many requests in flight reach the
-- quota of a thread with so many listed activations is a parameter. The source reads the count of a
-- thread that has none as well, and replaces what it computed from it.
unfoldable pub throttler_query : (ℕ → ℕ → Bool) → ℕ → AttackThrottler → Bool
throttler_query reaches_quota th_id s = elim (s.used_quota th_id) [
  | none ↦ false
  | some used ↦ reaches_quota (count_or_zero (s.bl_acts th_id)) used
]

unfoldable pub throttler_reset : AttackThrottler → AttackThrottler
throttler_reset s = record s { bl_acts = λ _. none; used_quota = λ _. none }

unfoldable pub throttler_validate : Bool → AttackThrottler → AttackThrottler
throttler_validate valid s = record s { valid = valid }
