-- ===== src/FaultSim/Transfer/Cells.antt =====
-- The cells of a codeword that is loaded, and of the array after it is stored.
use row_armor.Base.{
  ℕ, ◌+◌, ◌-◌, ◌*◌, ◌<◌, ◌≤◌, ◌≡◌, ◌&&◌, ltb, leb, ◌==◌, if◌then◌else◌, List, get_or, set, length,
  length-set, length-replicate, get_or-set, replicate, arith, ◌⊎◌, inl, ap, ◌||◌,
}
use native.Mathlib.Decide.{dec_lt}
use row_armor.Base.Loops.{for_range_inv}
use row_armor.FaultSim.Grid.{Grid, cell, set_cell, IsGrid, set_cell-IsGrid, cell-set_cell}
use row_armor.FaultSim.Transfer.{load, load_chip, store, store_chip}

-- Positions of a block are numbered without overlap.
place_lt : (w n c t : ℕ) → c < n → t < w → c * w + t < n * w
place_lt w n c t p q = grind arith

mul-le_left : (w a b : ℕ) → a ≤ b → a * w ≤ b * w
mul-le_left w a b h = grind arith

place_inj : (w c t c' t' : ℕ) → t < w → t' < w → c * w + t ≡ c' * w + t' → (c ≡ c') × (t ≡ t')
place_inj w c t c' t' p q e = elim (dec_lt c c') [
  | yes below ↦
      let h : (c + 1) * w ≤ c' * w = mul-le_left w (c + 1) c' (omega arith) in absurd (omega arith)
  | no not_below ↦ elim (dec_lt c' c) [
    | yes above ↦
        let h : (c' + 1) * w ≤ c * w = mul-le_left w (c' + 1) c (omega arith) in
        absurd (omega arith)
    | no not_above ↦
        let same : c ≡ c' = omega arith in (same, omega (arith, ap (λ (k : ℕ). k * w) same))
  ]
]

module _ (junk width chips base : ℕ) (g : Grid) where
  -- What the codeword holds when chips below `chip`, and `t` cells of that one, are copied.
  record IsLoading (chip t : ℕ) (w : List ℕ) : Type 0 where
    size : length w ≡ chips * width
    cells :
        (c i : ℕ)
        → c < chips
        → i < width
        → (c < chip) ⊎ ((c ≡ chip) × (i < t))
        → get_or w (c * width + i) 0 ≡ cell g c (base + i)

  load_step-IsLoading :
      (chip t : ℕ) (w : List ℕ)
      → chip < chips
      → t < width
      → IsLoading chip t w
      → IsLoading chip (t + 1) (set w (chip * width + t) (cell g chip (base + t)))
  load_step-IsLoading chip t w p q v = record {
    size = rw length-set v.size;
    cells = λ c i a b d. ground (
      arith,
      get_or-set w (chip * width + t) (c * width + i) (cell g chip (base + t)) 0,
      place_lt width chips chip t p q,
      place_inj width chip t c i q b,
      v.cells c i a b,
      v.size,
    );
  }

  load_chip-IsLoading :
      (chip : ℕ) (w : List ℕ)
      → chip < chips
      → IsLoading chip 0 w
      → IsLoading (chip + 1) 0 (load_chip width base g chip w)
  unfolding load_chip
  load_chip-IsLoading chip w p v =
      let row =
        for_range_inv (λ t w. IsLoading chip t w)
          (λ t w. set w (chip * width + t) (cell g chip (base + t))) width 0 width w
          (λ t w _ q h. load_step-IsLoading chip t w p q h) (omega arith) v in
      record { size = row.size; cells = λ c i a b d. row.cells c i a b (ground arith) }

  -- Cell `t` of chip `c` in the block stands at its place in the codeword.
  pub load-cell :
      (c t : ℕ)
      → c < chips
      → t < width
      → get_or (load junk width chips base g) (c * width + t) 0 ≡ cell g c (base + t)
  unfolding load
  load-cell c t p q =
      let whole =
        for_range_inv (λ chip w. IsLoading chip 0 w) (load_chip width base g) chips 0 chips
          (replicate (chips * width) junk) (λ chip w _ h v. load_chip-IsLoading chip w h v)
          (omega arith)
          (record {
            size = length-replicate (chips * width) junk;
            cells = λ c i a b d. absurd (omega arith);
          }) in
      whole.cells c t p q (inl p)

  pub length-load : length (load junk width chips base g) ≡ chips * width
  unfolding load
  length-load =
      for_range_inv (λ chip w. length w ≡ chips * width) (load_chip width base g) chips 0 chips
        (replicate (chips * width) junk)
        (λ chip w _ _ v.
          unfold load_chip in
          for_range_inv (λ t w. length w ≡ chips * width)
            (λ t w. set w (chip * width + t) (cell g chip (base + t))) width 0 width w
            (λ t w _ _ h. rw length-set h) (omega arith) v)
        (omega arith) (length-replicate (chips * width) junk)

module _ (width chips base : ℕ) (codeword : List ℕ) (g : Grid) (chips_le : chips ≤ 20)
    (base_le : base + width ≤ 64) where
  -- The array when chips below `chip`, and `t` cells of that one, are stored.
  record IsStoring (chip t : ℕ) (g' : Grid) : Type 0 where
    grid : IsGrid g'
    cells :
        (c b : ℕ)
        → cell g' c b ≡ (
            if leb base b
              && (ltb b (base + width) && (ltb c chip || (c == chip && ltb b (base + t))))
            then get_or codeword (c * width + (b - base)) 0
            else cell g c b)

  store_cell :
      (chip t : ℕ) (g' : Grid)
      → chip < chips
      → t < width
      → IsStoring chip t g'
      → (c b : ℕ)
      → cell (set_cell g' chip (base + t) (get_or codeword (chip * width + t) 0)) c b ≡ (
          if leb base b
            && (ltb b (base + width) && (ltb c chip || (c == chip && ltb b (base + (t + 1)))))
          then get_or codeword (c * width + (b - base)) 0
          else cell g c b)
  store_cell chip t g' p q v c b =
      let offset : b ≡ base + t → b - base ≡ t = λ e. omega arith in
      ground (
        arith,
        cell-set_cell g' chip (base + t) (get_or codeword (chip * width + t) 0) c b v.grid
            (omega arith) (omega arith),
        v.cells c b,
        offset,
      )

  store_step-IsStoring :
      (chip t : ℕ) (g' : Grid)
      → chip < chips
      → t < width
      → IsStoring chip t g'
      → IsStoring chip (t + 1) (set_cell g' chip (base + t) (get_or codeword (chip * width + t) 0))
  store_step-IsStoring chip t g' p q v = record {
    grid = set_cell-IsGrid g' chip (base + t) _ v.grid;
    cells = λ c b. store_cell chip t g' p q v c b;
  }

  store_chip-IsStoring :
      (chip : ℕ) (g' : Grid)
      → chip < chips
      → IsStoring chip 0 g'
      → IsStoring (chip + 1) 0 (store_chip width base codeword chip g')
  unfolding store_chip
  store_chip-IsStoring chip g' p v =
      let row =
        for_range_inv (λ t g'. IsStoring chip t g')
          (λ t g'. set_cell g' chip (base + t) (get_or codeword (chip * width + t) 0)) width 0 width
          g' (λ t g' _ q h. store_step-IsStoring chip t g' p q h) (omega arith) v in
      record { grid = row.grid; cells = λ c b. ground (arith, row.cells c b) }

  store-IsStoring : IsGrid g → IsStoring chips 0 (store width chips base codeword g)
  unfolding store
  store-IsStoring v =
      for_range_inv (λ chip g'. IsStoring chip 0 g') (store_chip width base codeword) chips 0 chips
        g (λ chip g' _ h w. store_chip-IsStoring chip g' h w) (omega arith)
        (record { grid = v; cells = λ c b. ground arith })

  pub store-IsGrid : IsGrid g → IsGrid (store width chips base codeword g)
  store-IsGrid v = (store-IsStoring v).grid

  -- The cells of the block are those of the codeword, and the others are as they were.
  pub cell-store :
      IsGrid g
      → (c b : ℕ)
      → cell (store width chips base codeword g) c b ≡ (
          if leb base b && (ltb b (base + width) && ltb c chips)
          then get_or codeword (c * width + (b - base)) 0
          else cell g c b)
  cell-store v c b = ground (arith, (store-IsStoring v).cells c b)
