-- ===== src/FaultSim/Inject/Count.antt =====
-- How many cells the injection of two or three errors sets.
use row_armor.Base.{
  ℕ, zero, suc, ◌+◌, ◌%◌, ◌<◌, ◌≤◌, ◌≡◌, ◌≢◌, refl, ◌==◌, if◌then◌else◌, List, [], ◌∷◌, some,
  get_or, set, length, arith, Bool-cases, inl, inr, ◌⊎◌,
}
use row_armor.FaultSim.Config.{ReccType, recc_off, amdchipkill, qpc, ooc}
use row_armor.FaultSim.Grid.{Grid, cell, set_cell, IsGrid, set_cell-IsGrid, cell-set_cell}
use row_armor.FaultSim.Inject.{inject_fresh, error_injection_dbe, error_injection_tbe}

-- The chips and the columns that the code of a kind reads.
abbrev pub error_chips : ReccType → ℕ
error_chips ooc = 20
error_chips qpc = 10
error_chips amdchipkill = 10
error_chips recc_off = 10

abbrev pub error_columns : ReccType → ℕ
error_columns ooc = 32
error_columns qpc = 64
error_columns amdchipkill = 64
error_columns recc_off = 64

row_ones : List ℕ → ℕ
row_ones [] = 0
row_ones (x ∷ xs) = (if x == 1 then 1 else 0) + row_ones xs

-- The number of cells that are 1.
pub ones : Grid → ℕ
unfolding row_ones
ones [] = 0
ones (r ∷ rs) = row_ones r + ones rs

row_ones-set :
    (xs : List ℕ) (i : ℕ)
    → i < length xs
    → get_or xs i 0 ≢ 1
    → row_ones (set xs i 1) ≡ row_ones xs + 1
unfolding row_ones
row_ones-set [] i h ne = absurd (omega arith)
row_ones-set (x ∷ xs) zero h ne = ground arith
row_ones-set (x ∷ xs) (suc i) h ne = omega (arith, row_ones-set xs i (omega arith) ne)

ones-set :
    (g : Grid) (c : ℕ) (row : List ℕ)
    → c < length g
    → row_ones row ≡ row_ones (get_or g c []) + 1
    → ones (set g c row) ≡ ones g + 1
unfolding ones
ones-set [] c row h e = absurd (omega arith)
ones-set (r ∷ rs) zero row h e = omega arith
ones-set (r ∷ rs) (suc c) row h e = omega (arith, ones-set rs c row (omega arith) e)

ones-set_cell :
    (g : Grid) (c b : ℕ)
    → IsGrid g
    → c < 20
    → b < 64
    → cell g c b ≢ 1
    → ones (set_cell g c b 1) ≡ ones g + 1
ones-set_cell g c b v p q ne =
    ones-set g c _ (omega (arith, v.chips))
      (row_ones-set (get_or g c []) b (omega (arith, v.columns c p)) ne)

-- A run of the loop: it ends with `left` more cells at 1, in the chips and columns that it draws
-- from, and every other cell is as it was.
pub record IsInjected (chips columns left : ℕ) (g g' : Grid) : Type 0 where
  pub counted : ones g' ≡ ones g + left
  pub cells :
      (c b : ℕ) → (cell g' c b ≡ cell g c b) ⊎ ((cell g' c b ≡ 1) × (c < chips) × (b < columns))
  pub grid : IsGrid g'

module _ (chips columns : ℕ) (chips_pos : 0 < chips) (chips_le : chips ≤ 20)
    (columns_pos : 0 < columns) (columns_le : columns ≤ 64) where
  fresh-IsInjected :
      (left : ℕ) (g : Grid) (c b : ℕ) (g' : Grid)
      → IsGrid g
      → c < chips
      → b < columns
      → cell g c b ≢ 1
      → IsInjected chips columns left (set_cell g c b 1) g'
      → IsInjected chips columns (suc left) g g'
  fresh-IsInjected left g c b g' v p q ne r = record {
    counted = omega (arith, ones-set_cell g c b v (omega arith) (omega arith) ne, r.counted);
    cells =
        λ i j. ground (arith, r.cells i j, cell-set_cell g c b 1 i j v (omega arith) (omega arith));
    grid = r.grid;
  }

  inject_fresh-IsInjected :
      (left : ℕ) (g : Grid) (rs : List ℕ) (g' : Grid) (rest : List ℕ)
      → IsGrid g
      → inject_fresh chips columns left g rs ≡ some (g', rest)
      → IsInjected chips columns left g g'
  unfolding inject_fresh
  inject_fresh-IsInjected zero g rs g' rest v h =
      let same : g ≡ g' = ground arith in
      rw (← same) (record { counted = omega arith; cells = λ c b. inl refl; grid = v })
  inject_fresh-IsInjected (suc left) g [] g' rest v h = absurd (ground arith)
  inject_fresh-IsInjected (suc left) g (c ∷ []) g' rest v h = absurd (ground arith)
  inject_fresh-IsInjected (suc left) g (c ∷ b ∷ rs) g' rest v h =
      elim (Bool-cases (cell g (c % chips) (b % columns) == 1)) [
        | inl old ↦ inject_fresh-IsInjected (suc left) g rs g' rest v (rw (old, inject_fresh) at h)
        | inr fresh ↦
            fresh-IsInjected left g (c % chips) (b % columns) g' v (grind arith) (grind arith)
              (ground arith)
              (inject_fresh-IsInjected left _ rs g' rest (set_cell-IsGrid g _ _ 1 v)
                (rw (fresh, inject_fresh) at h))
      ]

-- Two errors: `error_injection_DBE` leaves exactly two more cells at 1, in the chips and columns
-- of the code, whatever cells the random values hit again.
pub error_injection_dbe-IsInjected :
    (recc : ReccType) (g : Grid) (rs : List ℕ) (g' : Grid) (rest : List ℕ)
    → recc ≢ recc_off
    → IsGrid g
    → error_injection_dbe g recc rs ≡ some (g', rest)
    → IsInjected (error_chips recc) (error_columns recc) 2 g g'
unfolding error_injection_dbe
error_injection_dbe-IsInjected ooc g rs g' rest n v h =
    inject_fresh-IsInjected 20 32 (omega arith) (omega arith) (omega arith) (omega arith) 2 g rs g'
      rest v h
error_injection_dbe-IsInjected qpc g rs g' rest n v h =
    inject_fresh-IsInjected 10 64 (omega arith) (omega arith) (omega arith) (omega arith) 2 g rs g'
      rest v h
error_injection_dbe-IsInjected amdchipkill g rs g' rest n v h =
    inject_fresh-IsInjected 10 64 (omega arith) (omega arith) (omega arith) (omega arith) 2 g rs g'
      rest v h
error_injection_dbe-IsInjected recc_off g rs g' rest n v h = absurd (n refl)

-- Three errors, by `error_injection_TBE`.
pub error_injection_tbe-IsInjected :
    (recc : ReccType) (g : Grid) (rs : List ℕ) (g' : Grid) (rest : List ℕ)
    → recc ≢ recc_off
    → IsGrid g
    → error_injection_tbe g recc rs ≡ some (g', rest)
    → IsInjected (error_chips recc) (error_columns recc) 3 g g'
unfolding error_injection_tbe
error_injection_tbe-IsInjected ooc g rs g' rest n v h =
    inject_fresh-IsInjected 20 32 (omega arith) (omega arith) (omega arith) (omega arith) 3 g rs g'
      rest v h
error_injection_tbe-IsInjected qpc g rs g' rest n v h =
    inject_fresh-IsInjected 10 64 (omega arith) (omega arith) (omega arith) (omega arith) 3 g rs g'
      rest v h
error_injection_tbe-IsInjected amdchipkill g rs g' rest n v h =
    inject_fresh-IsInjected 10 64 (omega arith) (omega arith) (omega arith) (omega arith) 3 g rs g'
      rest v h
error_injection_tbe-IsInjected recc_off g rs g' rest n v h = absurd (n refl)
