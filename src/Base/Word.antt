-- ===== src/Base/Word.antt =====
-- Counters of 64 bits.
use Prim.Native.Nat.{ℕ, ◌+◌, ◌%◌, ◌^◌}

unfoldable pub inc64 : ℕ → ℕ
inc64 n = (n + 1) % 2 ^ 64
