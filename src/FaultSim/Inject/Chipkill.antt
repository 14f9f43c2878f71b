-- ===== src/FaultSim/Inject/Chipkill.antt =====
-- What `error_injection_CHIPKILL` does to each cell.
use row_armor.Base.{
  ℕ, zero, suc, ◌+◌, ◌-◌, ◌%◌, ◌<◌, ◌≤◌, ◌≡◌, refl, bit_xor, not, ◌&&◌, ltb, leb, ◌==◌,
  if◌then◌else◌, List, [], ◌∷◌, some, get_or, length, arith, Bool-cases, inl, inr,
}
use row_armor.FaultSim.Config.{ReccType}
use row_armor.FaultSim.Grid.{Grid, cell, set_cell, IsGrid, set_cell-IsGrid, cell-set_cell}
use row_armor.FaultSim.Inject.{for_rand, maybe_flip, error_injection_chipkill}

abbrev pub drop : ℕ → List ℕ → List ℕ
drop zero xs = xs
drop (suc n) [] = []
drop (suc n) (x ∷ xs) = drop n xs

-- The columns `i` to `i + n - 1` of one chip are flipped where the random value is odd.
pub record IsFlipped (chip i n : ℕ) (rs : List ℕ) (g g' : Grid) : Type 0 where
  pub cells :
      (c b : ℕ)
      → cell g' c b ≡ (
          if chip == c && (leb i b && (ltb b (i + n) && not (get_or rs (b - i) 0 % 2 == 0)))
          then bit_xor (cell g c b) 1
          else cell g c b)
  pub grid : IsGrid g'

abbrev flip : ℕ → ℕ → ℕ → Grid → Grid
flip chip i r g = if not (r % 2 == 0) then set_cell g chip i (bit_xor (cell g chip i) 1) else g

flip-IsGrid : (chip i r : ℕ) (g : Grid) → IsGrid g → IsGrid (flip chip i r g)
flip-IsGrid chip i r g v = elim (Bool-cases (r % 2 == 0)) [
  | inl e ↦ rw e v
  | inr e ↦ rw e (set_cell-IsGrid g chip i _ v)
]

-- The value that column `b` takes, when the one for column `i` stands first.
value_first : (x : ℕ) (rs : List ℕ) (i b : ℕ) → b ≡ i → get_or (x ∷ rs) (b - i) 0 ≡ x
value_first x rs i b e = let z : b - i ≡ 0 = omega arith in rw z refl

value_later :
    (x : ℕ) (rs : List ℕ) (i b : ℕ) → i < b → get_or (x ∷ rs) (b - i) 0 ≡ get_or rs (b - (i + 1)) 0
value_later x rs i b h = let z : b - i ≡ suc (b - (i + 1)) = omega arith in rw z refl

-- The first round, and the rounds after it.
cell_flipped :
    (chip i n x : ℕ) (rs : List ℕ) (g g' : Grid) (c b : ℕ)
    → chip < 20
    → i < 64
    → IsGrid g
    → IsFlipped chip (i + 1) n rs (flip chip i x g) g'
    → cell g' c b ≡ (
        if chip == c && (leb i b && (ltb b (i + suc n) && not (get_or (x ∷ rs) (b - i) 0 % 2 == 0)))
        then bit_xor (cell g c b) 1
        else cell g c b)
cell_flipped chip i n x rs g g' c b p q v f = ground (
  arith,
  f.cells c b,
  cell-set_cell g chip i (bit_xor (cell g chip i) 1) c b v p q,
  value_first x rs i b,
  value_later x rs i b,
)

flip_rounds :
    (chip n i : ℕ) (rs : List ℕ) (g : Grid)
    → chip < 20
    → i + n ≤ 64
    → n ≤ length rs
    → IsGrid g
    → (g' : Grid) × (for_rand n i (maybe_flip chip) g rs ≡ some (g', drop n rs))
      × IsFlipped chip i n rs g g'
unfolding for_rand maybe_flip
flip_rounds chip zero i rs g p q r v = (g, refl, record { cells = λ c b. ground arith; grid = v })
flip_rounds chip (suc n) i [] g p q r v = absurd (omega arith)
flip_rounds chip (suc n) i (x ∷ rs) g p q r v =
    let g1 = flip chip i x g in
    let (g', e, f) =
      flip_rounds chip n (i + 1) rs g1 p (omega arith) (omega arith) (flip-IsGrid chip i x g v) in
    (
      g',
      e,
      record {
        cells = λ c b. cell_flipped chip i n x rs g g' c b p (omega arith) v f;
        grid = f.grid;
      },
    )

-- Whatever the code, the injection draws 64 values and flips in the one chip that is given the
-- columns whose value is odd. No other chip changes, not the second half of the chip under OOC.
pub error_injection_chipkill-IsFlipped :
    (chip : ℕ) (g : Grid) (recc : ReccType) (rs : List ℕ)
    → chip < 20
    → 64 ≤ length rs
    → IsGrid g
    → (g' : Grid) × (error_injection_chipkill chip g recc rs ≡ some (g', drop 64 rs))
      × IsFlipped chip 0 64 rs g g'
unfolding error_injection_chipkill
error_injection_chipkill-IsFlipped chip g recc rs p h v =
    flip_rounds chip 64 0 rs g p (omega arith) h v
