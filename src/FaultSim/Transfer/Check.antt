-- ===== src/FaultSim/Transfer/Check.antt =====
-- `SDC_check` answers 1 exactly where a cell of its window is 1.
use row_armor.Base.{
  ℕ, zero, suc, ◌+◌, ◌*◌, ◌<◌, ◌≤◌, ◌≡◌, ◌≢◌, refl, ◌⊎◌, inl, inr, ◌==◌, Bool-cases, arith, subst,
  sym, ==_iff,
}
use native.Mathlib.Decide.{ℕ_discrete}
use row_armor.FaultSim.Config.{ReccType, recc_off, amdchipkill, qpc, ooc}
use row_armor.FaultSim.Grid.{Grid, cell}
use row_armor.FaultSim.Transfer.{scan_columns, scan_chips, sdc_check}

-- The window of a kind of code: its first column and the columns and chips in it.
abbrev pub window_start : ℕ → ReccType → ℕ
window_start bl ooc = 0
window_start bl qpc = 32 * bl
window_start bl amdchipkill = bl * 4
window_start bl recc_off = 0

abbrev pub window_columns : ReccType → ℕ
window_columns ooc = 32
window_columns qpc = 32
window_columns amdchipkill = 8
window_columns recc_off = 64

abbrev pub window_chips : ReccType → ℕ
window_chips ooc = 20
window_chips qpc = 10
window_chips amdchipkill = 10
window_chips recc_off = 10

-- Either a cell of the window is 1, or none is.
abbrev pub Answer : Grid → ℕ → ℕ → ℕ → ℕ → ℕ → Type 0
Answer g chip chips lo columns r =
    ((r ≡ 1)
      × ((c : ℕ) × (b : ℕ) × (chip ≤ c)
          × (c < chip + chips)
          × (lo ≤ b)
          × (b < lo + columns)
          × (cell g c b ≡ 1)))
    ⊎ ((r ≡ 0)
        × ((c b : ℕ) → chip ≤ c → c < chip + chips → lo ≤ b → b < lo + columns → cell g c b ≢ 1))

abbrev ColumnAnswer : Grid → ℕ → ℕ → ℕ → ℕ → Type 0
ColumnAnswer g c left pos r =
    ((r ≡ 1) × ((b : ℕ) × (pos ≤ b) × (b < pos + left) × (cell g c b ≡ 1)))
    ⊎ ((r ≡ 0) × ((b : ℕ) → pos ≤ b → b < pos + left → cell g c b ≢ 1))

next_column :
    (g : Grid) (c left pos r : ℕ)
    → cell g c pos ≢ 1
    → ColumnAnswer g c left (pos + 1) r
    → ColumnAnswer g c (suc left) pos r
next_column g c left pos r ne (inl (e, (b, p, q, h))) = inl (e, (b, omega arith, omega arith, h))
next_column g c left pos r ne (inr (e, none_there)) = inr (
  e,
  λ b p q. elim (ℕ_discrete b pos) [
    | yes same ↦ subst (λ k. cell g c k ≢ 1) (sym same) ne
    | no other ↦ none_there b (omega arith) (omega arith)
  ],
)

scan_columns_lem :
    (g : Grid) (c left pos : ℕ) → ColumnAnswer g c left pos (scan_columns g c left pos)
unfolding scan_columns
scan_columns_lem g c zero pos = inr (refl, λ b p q e. absurd (omega arith))
scan_columns_lem g c (suc left) pos = elim (Bool-cases (cell g c pos == 1)) [
  | inl hit ↦
      rw (hit, scan_columns) (inl (refl, (pos, omega arith, omega arith, (==_iff _ 1).0 hit)))
  | inr miss ↦
      rw (miss, scan_columns)
        (next_column g c left pos _ (ground arith) (scan_columns_lem g c left (pos + 1)))
]

next_chip :
    (g : Grid) (columns lo left chip r : ℕ)
    → ((b : ℕ) → lo ≤ b → b < lo + columns → cell g chip b ≢ 1)
    → Answer g (chip + 1) left lo columns r
    → Answer g chip (suc left) lo columns r
next_chip g columns lo left chip r ne (inl (e, (c, b, p, q, s, t, h))) =
    inl (e, (c, b, omega arith, omega arith, s, t, h))
next_chip g columns lo left chip r ne (inr (e, none_there)) = inr (
  e,
  λ c b p q s t. elim (ℕ_discrete c chip) [
    | yes same ↦ subst (λ k. cell g k b ≢ 1) (sym same) (ne b s t)
    | no other ↦ none_there c b (omega arith) (omega arith) s t
  ],
)

scan_chips-Answer :
    (g : Grid) (columns lo left chip : ℕ)
    → Answer g chip left lo columns (scan_chips g columns lo left chip)
unfolding scan_chips
scan_chips-Answer g columns lo zero chip = inr (refl, λ c b p q s t e. absurd (omega arith))
scan_chips-Answer g columns lo (suc left) chip = elim (scan_columns_lem g chip columns lo) [
  | inl (e, (b, p, q, h)) ↦
      rw (e, scan_chips) (inl (refl, (chip, b, omega arith, omega arith, p, q, h)))
  | inr (e, none_there) ↦
      rw (e, scan_chips)
        (next_chip g columns lo left chip _ none_there
          (scan_chips-Answer g columns lo left (chip + 1)))
]

-- `SDC_check` answers 1 if a cell of the window is 1, and 0 if none is.
pub sdc_check-Answer :
    (bl : ℕ) (g : Grid) (recc : ReccType)
    → Answer g 0
        (window_chips recc)
        (window_start bl recc)
        (window_columns recc)
        (sdc_check bl g recc)
unfolding sdc_check
sdc_check-Answer bl g ooc = scan_chips-Answer g 32 0 20 0
sdc_check-Answer bl g qpc = scan_chips-Answer g 32 (32 * bl) 10 0
sdc_check-Answer bl g amdchipkill = scan_chips-Answer g 8 (bl * 4) 10 0
sdc_check-Answer bl g recc_off = scan_chips-Answer g 64 0 10 0
