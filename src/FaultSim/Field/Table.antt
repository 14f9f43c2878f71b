-- ===== src/FaultSim/Field/Table.antt =====
-- Row 0 of `primitive_poly`, as `main` leaves it: the powers of a root of x^8 + x^4 + x^3 + x^2 + 1.
-- The other modules take the row as an argument, with the laws of `IsPowerTable`.
use row_armor.Base.{
  ℕ, zero, suc, ◌+◌, ◌<◌, Bool-cases, ◌≡◌, refl, inl, inr, ◌⊎◌, Bool, true, ◌&&◌, ltb, ◌==◌, List,
  [], ◌∷◌, get_or, replicate, arith, if◌then◌else◌,
}
use row_armor.Base.Ranges.{each_below, each_below-lt}
use row_armor.Base.Int.{pos}
use row_armor.FaultSim.Field.{
  fill_powers, next_power, index_of, last_match, exponent_of, first_match,
}

unfoldable pub gf_row : List ℕ
gf_row = fill_powers 0x1d 8 255 0 1 (replicate 256 0)

-- What the decoders rely on. `exp` is the discrete logarithm.
pub record IsPowerTable (row : List ℕ) : Type 0 where
  pub exp : ℕ → ℕ
  pub exp_lt : (v : ℕ) → 0 < v → v < 256 → exp v < 255
  pub power_exp : (v : ℕ) → 0 < v → v < 256 → get_or row (exp v) 0 ≡ v
  pub exp_power : (i : ℕ) → i < 255 → exp (get_or row i 0) ≡ i
  pub power_pos : (i : ℕ) → i < 255 → 0 < get_or row i 0
  pub power_lt : (i : ℕ) → i < 255 → get_or row i 0 < 256
  pub exponent_of-exp : (v : ℕ) → v < 256 → exponent_of row v ≡ (if v == 0 then 255 else exp v)
  pub index_of-exp : (junk v : ℕ) → 0 < v → v < 256 → index_of row junk v ≡ pos (exp v)
  pub last_match-exp : (junk v : ℕ) → 0 < v → v < 256 → last_match 255 row 0 v junk ≡ exp v

-- What a local variable holds before the search matters only where nothing matches.
last_match_junk :
    (left : ℕ) (row : List ℕ) (i v p p' : ℕ)
    → ((last_match left row i v p ≡ p) × (last_match left row i v p' ≡ p'))
      ⊎ (last_match left row i v p ≡ last_match left row i v p')
unfolding last_match
last_match_junk zero row i v p p' = inl (refl, refl)
last_match_junk (suc left) [] i v p p' = inl (refl, refl)
last_match_junk (suc left) (x ∷ row) i v p p' = elim (Bool-cases (v == x)) [
  | inl hit ↦ inr (rw (hit, last_match))
  | inr miss ↦ rw (miss, last_match) (last_match_junk left row (i + 1) v p p')
]

-- One evaluation for each value below 256.
value_check : List ℕ → ℕ → Bool
value_check row v =
    let e = last_match 255 row 0 v 999 in
    let f = exponent_of row v in
    if v == 0 then f == 255 else ltb e 255 && (get_or row e 0 == v) && (f == e)

power_check : List ℕ → ℕ → Bool
power_check row i =
    let v = get_or row i 0 in ltb 0 v && ltb v 256 && (last_match 255 row 0 v 999 == i)

value_table : each_below (value_check gf_row) 256 ≡ true
unfolding each_below value_check gf_row fill_powers next_power exponent_of first_match last_match
value_table = refl

power_table : each_below (power_check gf_row) 255 ≡ true
unfolding each_below power_check gf_row fill_powers next_power last_match
power_table = refl

module _ (row : List ℕ) (values : each_below (value_check row) 256 ≡ true)
    (powers : each_below (power_check row) 255 ≡ true) where
  abbrev log : ℕ → ℕ
  log v = last_match 255 row 0 v 999

  value_lem :
      (v : ℕ)
      → 0 < v
      → v < 256
      → (log v < 255) × (get_or row (log v) 0 ≡ v) × (exponent_of row v ≡ log v)
  unfolding value_check
  value_lem v p h = let e = each_below-lt (value_check row) 256 v h values in ground arith

  power_lem :
      (i : ℕ) → i < 255 → (0 < get_or row i 0) × (get_or row i 0 < 256) × (log (get_or row i 0) ≡ i)
  unfolding power_check
  power_lem i h = let e = each_below-lt (power_check row) 255 i h powers in ground arith

  exponent_of_lem : (v : ℕ) → v < 256 → exponent_of row v ≡ (if v == 0 then 255 else log v)
  unfolding value_check
  exponent_of_lem v h = let e = each_below-lt (value_check row) 256 v h values in ground arith

  last_match_lem : (junk v : ℕ) → 0 < v → v < 256 → last_match 255 row 0 v junk ≡ log v
  last_match_lem junk v p h = ground (arith, value_lem v p h, last_match_junk 255 row 0 v 999 junk)

  index_of_lem : (junk v : ℕ) → 0 < v → v < 256 → index_of row junk v ≡ pos (log v)
  unfolding index_of
  index_of_lem junk v p h = ground (arith, last_match_lem junk v p h)

  IsPowerTable-checked : IsPowerTable row
  IsPowerTable-checked = record {
    exp = log;
    exp_lt = λ v p h. (value_lem v p h).0;
    power_exp = λ v p h. (value_lem v p h).1;
    exp_power = λ i h. (power_lem i h).2;
    power_pos = λ i h. (power_lem i h).0;
    power_lt = λ i h. (power_lem i h).1;
    exponent_of-exp = exponent_of_lem;
    index_of-exp = index_of_lem;
    last_match-exp = last_match_lem;
  }

pub gf_row-IsPowerTable : IsPowerTable gf_row
gf_row-IsPowerTable = IsPowerTable-checked gf_row value_table power_table
