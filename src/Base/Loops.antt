-- ===== src/Base/Loops.antt =====
-- The counted loop of the source, `for (k = first; k < first + rounds; k++)`, and how to prove what
-- it keeps.
use Prim.Native.Nat.{ℕ, zero, suc, ◌+◌, ◌≤◌, ◌<◌}
use mathlib.Core.Path.{◌≡◌}
use native.Mathlib.Omega.{arith}

abbrev pub for_range {ℓ} : {A : Type ℓ} → ℕ → ℕ → (ℕ → A → A) → A → A
for_range zero first step a = a
for_range (suc rounds) first step a =
    let next = step first a in for_range rounds (first + 1) step next

-- What a step keeps while the counter is in range holds at the end.
pub for_range_inv {ℓ ℓ'} :
    {A : Type ℓ} (Holds : ℕ → A → Type ℓ') (step : ℕ → A → A) (rounds first last : ℕ) (a : A)
    → ((k : ℕ) (b : A) → first ≤ k → k < last → Holds k b → Holds (k + 1) (step k b))
    → first + rounds ≡ last
    → Holds first a
    → Holds last (for_range rounds first step a)
for_range_inv Holds step zero first last a steps ends start =
    let at_end : first ≡ last = omega arith in rw (← at_end) start
for_range_inv Holds step (suc rounds) first last a steps ends start =
    let begun = steps first a (omega arith) (omega arith) start in
    for_range_inv Holds step rounds (first + 1) last (step first a)
      (λ k b low high. steps k b (omega arith) high) (omega arith) begun
