-- ===== src/FaultSim/Grid.antt =====
-- `Chip_array` of reliability_eval/Fault_sim.cpp: the cells of the chips, 1 where a bit is wrong.
use row_armor.Base.{
  ℕ, ◌≡◌, ◌<◌, refl, ap, ◌&&◌, ltb, ◌==◌, if◌then◌else◌, List, [], get_or, set, length, replicate,
  get_or-set, length-set, arith, get_or_above, get_or-replicate, get_or-replicate_lt, Bool-cases,
  inl, inr,
}
use row_armor.FaultSim.Config.{ooc_chip_num, oecc_cw_len}

abbrev pub Grid : Type 0
Grid = List (List ℕ)

abbrev pub cell : Grid → ℕ → ℕ → ℕ
cell g chip pos = get_or (get_or g chip []) pos 0

abbrev pub set_cell : Grid → ℕ → ℕ → ℕ → Grid
set_cell g chip pos v = set g chip (set (get_or g chip []) pos v)

-- The array after `memset`.
unfoldable pub blank : Grid
blank = replicate ooc_chip_num (replicate oecc_cw_len 0)

-- The array has the declared size.
pub record IsGrid (g : Grid) : Type 0 where
  pub chips : length g ≡ 20
  pub columns : (c : ℕ) → c < 20 → length (get_or g c []) ≡ 64

pub blank-IsGrid : IsGrid blank
unfolding blank
blank-IsGrid = record {
  chips = refl;
  columns = λ c h. ap length (get_or-replicate_lt 20 c (replicate 64 0) [] h);
}

pub cell-blank : (c b : ℕ) → cell blank c b ≡ 0
unfolding blank
cell-blank c b = elim (Bool-cases (ltb c 20)) [
  | inl e ↦
      rw (get_or-replicate_lt 20 c (replicate {A = ℕ} 64 0) [] (ground arith))
        (get_or-replicate 64 b 0)
  | inr e ↦ rw (get_or_above blank c [] (ground arith)) refl
]

pub set_cell-IsGrid : (g : Grid) (c b v : ℕ) → IsGrid g → IsGrid (set_cell g c b v)
set_cell-IsGrid g c b v h = record {
  chips = rw length-set h.chips;
  columns = λ k p. ground (
    arith,
    get_or-set g c k (set (get_or g c []) b v) [],
    length-set (get_or g c []) b v,
    h.columns k p,
    h.columns c,
  );
}

-- A write changes one cell.
pub cell-set_cell :
    (g : Grid) (c b v c' b' : ℕ)
    → IsGrid g
    → c < 20
    → b < 64
    → cell (set_cell g c b v) c' b' ≡ (if c == c' && b == b' then v else cell g c' b')
cell-set_cell g c b v c' b' h p q = ground (
  arith,
  get_or-set g c c' (set (get_or g c []) b v) [],
  get_or-set (get_or g c []) b b' v 0,
  h.chips,
  h.columns c p,
)
