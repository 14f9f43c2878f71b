-- ===== src/Base/Tables.antt =====
-- Finite maps as functions from numbers: `std::map::find` gives an option.
use Prim.Native.Nat.{ℕ}
use mathlib.Core.Path.{◌≡◌}
use mathlib.Core.Option.{Option, none, some}
use native.Mathlib.Omega.{arith}
use row_armor.Base.Tests.{◌==◌, if◌then◌else◌}

-- The table with another value at one key.
abbrev pub insert_at {ℓ} : {A : Type ℓ} → ℕ → A → (ℕ → A) → (ℕ → A)
insert_at k v table j = if j == k then v else table j

pub insert_at_self {ℓ} : {A : Type ℓ} (k : ℕ) (v : A) (table : ℕ → A) → insert_at k v table k ≡ v
insert_at_self k v table = ground arith

-- The count at a key, 0 where there is none.
abbrev pub count_or_zero : Option ℕ → ℕ
count_or_zero none = 0
count_or_zero (some n) = n
