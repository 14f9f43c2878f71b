-- ===== src/Base/Ranges.antt =====
-- A test of every number below a bound, which evaluation decides.
use Prim.Native.Nat.{ℕ, zero, suc, ◌<◌}
use mathlib.Core.Path.{◌≡◌}
use mathlib.Core.Bool.{Bool, true, ◌&&◌}
use native.Mathlib.Omega.{arith}

unfoldable pub each_below : (ℕ → Bool) → ℕ → Bool
each_below test zero = true
each_below test (suc last) = each_below test last && test last

pub each_below-lt :
    (test : ℕ → Bool) (bound k : ℕ) → k < bound → each_below test bound ≡ true → test k ≡ true
unfolding each_below
each_below-lt test zero k low all = absurd (omega arith)
each_below-lt test (suc last) k low all = ground (arith, each_below-lt test last k)
