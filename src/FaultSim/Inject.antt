-- ===== src/FaultSim/Inject.antt =====
-- Error injection of reliability_eval/Fault_sim.cpp. The values that `rand()` will return are a
-- list, which the calls take from the front; `none` means that more values were asked for.
pub mod Count
pub mod Chipkill
use row_armor.Base.{
  ℕ, zero, suc, ◌+◌, ◌*◌, ◌/◌, ◌%◌, bit_xor, Bool, true, false, not, ◌==◌, if◌then◌else◌, List, [],
  ◌∷◌, Option, none, some, ◌≡◌, Option-cases, inl, inr, arith,
}
use row_armor.FaultSim.Config.{
  chip_num, ooc_chip_num, oecc_cw_len, ooc_oecc_cw_len, ReccType, recc_off, amdchipkill, qpc, ooc,
  FaultType, sbe, pin_1, sce, dbe, tbe, sce_sbe, sce_dbe, sce_sce, rank,
}
use row_armor.FaultSim.Grid.{Grid, cell, set_cell}

abbrev pub Rand : Type 0 → Type 0
Rand A = List ℕ → Option (A × List ℕ)

infixl 5 ◌>>=◌
abbrev pub ◌>>=◌ : {A B : Type 0} → Rand A → (A → Rand B) → Rand B
◌>>=◌ m f rs = elim (m rs) [ none ↦ none | some (a, rest) ↦ f a rest ]

-- Inversion of a successful chain.
pub >>=-eq-some :
    {A B : Type 0} (m : Rand A) (f : A → Rand B) (rs : List ℕ) {b : B} {rest : List ℕ}
    → (m >>= f) rs ≡ some (b, rest)
    → (a : A) × (mid : List ℕ) × (m rs ≡ some (a, mid)) × (f a mid ≡ some (b, rest))
>>=-eq-some m f rs h = elim (Option-cases (m rs)) [
  | inl e ↦ absurd (ground arith)
  | inr ((a, mid), e) ↦ (a, mid, e, ground arith)
]

abbrev pub pure : {A : Type 0} → A → Rand A
pure a rs = some (a, rs)

abbrev pub rand : Rand ℕ
rand [] = none
rand (r ∷ rs) = some (r, rs)

-- `n` rounds of a loop from `i` on, whose body draws random values.
unfoldable pub for_rand : ℕ → ℕ → (ℕ → Grid → Rand Grid) → Grid → Rand Grid
for_rand zero i body g = pure g
for_rand (suc n) i body g = body i g >>= for_rand n (i + 1) body

-- `if (rand()%2!=0) Chip_array[chip][pos] = 1`.
unfoldable pub maybe_set : ℕ → ℕ → Grid → Rand Grid
maybe_set chip pos g = do r ← rand; pure (if not (r % 2 == 0) then set_cell g chip pos 1 else g)

-- `if (rand()%2!=0) Chip_array[chip][pos] ^= 1`.
unfoldable pub maybe_flip : ℕ → ℕ → Grid → Rand Grid
maybe_flip chip pos g = do
  r ← rand
  pure (if not (r % 2 == 0) then set_cell g chip pos (bit_xor (cell g chip pos) 1) else g)

-- Single error: the chip is drawn too but for AMDCHIPKILL.
unfoldable pub error_injection_se : ℕ → Grid → ReccType → Rand Grid
error_injection_se fault_chip g ooc = do
  c ← rand
  b ← rand
  pure (set_cell g (c % ooc_chip_num) (b % ooc_oecc_cw_len) 1)
error_injection_se fault_chip g qpc = do
  c ← rand
  b ← rand
  pure (set_cell g (c % chip_num) (b % oecc_cw_len) 1)
error_injection_se fault_chip g amdchipkill = do
  b ← rand
  pure (set_cell g fault_chip (b % oecc_cw_len) 1)
error_injection_se fault_chip g recc_off = pure g

-- The `while (count<…)` loops: `left` cells that are not 1 are still to be set.
unfoldable pub inject_fresh : ℕ → ℕ → ℕ → Grid → Rand Grid
inject_fresh chips columns zero g rs = some (g, rs)
inject_fresh chips columns (suc left) g [] = none
inject_fresh chips columns (suc left) g (c ∷ []) = none
inject_fresh chips columns (suc left) g (c ∷ b ∷ rs) =
    let fresh = not (cell g (c % chips) (b % columns) == 1) in
    inject_fresh chips columns (if fresh then left else suc left)
      (if fresh then set_cell g (c % chips) (b % columns) 1 else g) rs

unfoldable pub error_injection_dbe : Grid → ReccType → Rand Grid
unfolding inject_fresh
error_injection_dbe g ooc = inject_fresh ooc_chip_num ooc_oecc_cw_len 2 g
error_injection_dbe g qpc = inject_fresh chip_num oecc_cw_len 2 g
error_injection_dbe g amdchipkill = inject_fresh chip_num oecc_cw_len 2 g
error_injection_dbe g recc_off = pure g

unfoldable pub error_injection_tbe : Grid → ReccType → Rand Grid
unfolding inject_fresh
error_injection_tbe g ooc = inject_fresh ooc_chip_num ooc_oecc_cw_len 3 g
error_injection_tbe g qpc = inject_fresh chip_num oecc_cw_len 3 g
error_injection_tbe g amdchipkill = inject_fresh chip_num oecc_cw_len 3 g
error_injection_tbe g recc_off = pure g

-- The function returns after its first loop; what stands below it, by `recc_type`, is never run.
unfoldable pub error_injection_chipkill : ℕ → Grid → ReccType → Rand Grid
error_injection_chipkill fault_chip g recc = for_rand oecc_cw_len 0 (maybe_flip fault_chip) g

unfoldable pub error_injection_pin : ℕ → Grid → ReccType → Rand Grid
error_injection_pin fault_pin g ooc =
    for_rand 8 0
      (λ i g.
        maybe_set (fault_pin / 4) (8 * (fault_pin % 4) + i) g
        >>= maybe_set (fault_pin / 4 + 10) (8 * (fault_pin % 4) + i))
      g
error_injection_pin fault_pin g qpc =
    for_rand 8 0
      (λ i g.
        maybe_set (fault_pin / 4) (8 * (fault_pin % 4) + i) g
        >>= maybe_set (fault_pin / 4) (32 + 8 * (fault_pin % 4) + i))
      g
error_injection_pin fault_pin g amdchipkill =
    for_rand 16 0 (λ i. maybe_set (fault_pin / 4) (4 * i + fault_pin % 4)) g
error_injection_pin fault_pin g recc_off = pure g

-- The nested loops of `error_injection_rank`.
unfoldable pub set_chips : ℕ → ℕ → Grid → Rand Grid
set_chips chips columns g = for_rand chips 0 (λ c. for_rand columns 0 (maybe_set c)) g

unfoldable pub error_injection_rank : Grid → ReccType → Rand Grid
unfolding set_chips
error_injection_rank g ooc = set_chips ooc_chip_num ooc_oecc_cw_len g
error_injection_rank g qpc = set_chips chip_num oecc_cw_len g
error_injection_rank g amdchipkill = set_chips chip_num oecc_cw_len g
error_injection_rank g recc_off = pure g

-- The `switch (fault_type)` of `main`, on the first drawn chips and the first drawn pin.
unfoldable pub inject : FaultType → ReccType → ℕ → ℕ → ℕ → ℕ → Grid → Rand Grid
unfolding error_injection_se error_injection_pin error_injection_chipkill error_injection_dbe
    error_injection_tbe error_injection_rank
inject sbe recc chip0 chip1 chip2 pin0 g = error_injection_se chip0 g recc
inject pin_1 recc chip0 chip1 chip2 pin0 g = error_injection_pin pin0 g recc
inject sce recc chip0 chip1 chip2 pin0 g = error_injection_chipkill chip0 g recc
inject dbe recc chip0 chip1 chip2 pin0 g = error_injection_dbe g recc
inject tbe recc chip0 chip1 chip2 pin0 g = error_injection_tbe g recc
inject sce_sbe recc chip0 chip1 chip2 pin0 g = do
  g1 ← error_injection_chipkill chip0 g recc
  error_injection_se chip1 g1 recc
inject sce_dbe recc chip0 chip1 chip2 pin0 g = do
  g1 ← error_injection_chipkill chip0 g recc
  g2 ← error_injection_se chip1 g1 recc
  error_injection_se chip2 g2 recc
inject sce_sce recc chip0 chip1 chip2 pin0 g = do
  g1 ← error_injection_chipkill chip0 g recc
  error_injection_chipkill chip1 g1 recc
inject rank recc chip0 chip1 chip2 pin0 g = error_injection_rank g recc
