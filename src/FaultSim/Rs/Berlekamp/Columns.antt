-- ===== src/FaultSim/Rs/Berlekamp/Columns.antt =====
-- Which columns of the table `elp` a round of the Reed-Solomon decoders' loop writes.
use row_armor.Base.{
  ℕ, ◌+◌, ◌-◌, ◌*◌, ◌<◌, ◌≤◌, ◌≡◌, ◌≢◌, refl, inl, inr, ltb, ◌==◌, ◌&&◌, List, [], get_or, length,
  get_or-set, get_or-set_ne, Bool-cases, arith, ◌∙◌, ap,
}
use row_armor.Base.Int.{ℤ, pos, is_minus_one}
use row_armor.Base.Loops.{for_range, for_range_inv}
use row_armor.FaultSim.Rs.Berlekamp.{
  Bm, int_at, elp_at, set_elp, choose_q, index_entry, keep_entry, shift_entry, add_entry, keep_row,
  raise_row, bm_step,
}
use row_armor.FaultSim.Rs.Berlekamp.Ends.{shift_column, HasDegrees}

-- Two tables agree in a column.
abbrev pub SameColumn : ℕ → List (List ℤ) → List (List ℤ) → Type 0
SameColumn c elp elp' = (r : ℕ) → elp_at elp' r c ≡ elp_at elp r c

elp_at-set_elp :
    (elp : List (List ℤ)) (u i c : ℕ) (v : ℤ) → i ≢ c → SameColumn c elp (set_elp elp u i v)
elp_at-set_elp elp u i c v away r = elim (Bool-cases (u == r && ltb u (length elp))) [
  | inl row ↦
      let here : u ≡ r = ground arith in
      rw (get_or-set elp u r, row)
        (get_or-set_ne (get_or elp u []) i c v (pos 0) away
          ∙ ap (λ x. get_or (get_or elp x []) c (pos 0)) here)
  | inr other ↦ rw (get_or-set elp u r, other) refl
]

SameColumn-set_elp :
    (elp elp' : List (List ℤ)) (u i c : ℕ) (v : ℤ)
    → i ≢ c
    → SameColumn c elp elp'
    → SameColumn c elp (set_elp elp' u i v)
SameColumn-set_elp elp elp' u i c v away same r = elp_at-set_elp elp' u i c v away r ∙ same r

-- A loop whose rounds keep a column keeps it.
SameColumn-loop :
    (step : ℕ → List (List ℤ) → List (List ℤ)) (rounds c : ℕ) (elp elp' : List (List ℤ))
    → ((i : ℕ) (e : List (List ℤ)) → i < rounds → SameColumn c elp e → SameColumn c elp (step i e))
    → SameColumn c elp elp'
    → SameColumn c elp (for_range rounds 0 step elp')
SameColumn-loop step rounds c elp elp' keeps start =
    for_range_inv (λ i e. SameColumn c elp e) step rounds 0 rounds elp'
      (λ i e _ below same. keeps i e below same) (omega arith) start

module _ (row : List ℕ) (junk : ℕ) (tt u c : ℕ) (b : Bm) (later : 0 < u) (top : u ≤ 2 * tt)
    (degrees : HasDegrees tt (u - 1) b) (right : 2 * tt ≤ c)
    (no_overrun : c ≡ 2 * tt → u ≡ 2 * tt → choose_q b.d b.u_lu u ≢ 0) where
  degree_lt : get_or b.l u 0 + 1 ≤ 2 * tt
  degree_lt = omega (arith, degrees.below u (omega arith))

  keep_row-SameColumn : SameColumn c b.elp (keep_row row junk u b).elp
  unfolding keep_row keep_entry index_entry
  keep_row-SameColumn =
      SameColumn-loop (keep_entry row junk u) (get_or b.l u 0 + 1) c b.elp b.elp
        (λ i e below same.
          let away : i ≢ c = λ h. omega (arith, degree_lt) in
          SameColumn-set_elp b.elp _ u i c _ away
            (SameColumn-set_elp b.elp e (u + 1) i c _ away same))
        (λ r. refl)

  shift_entry-SameColumn :
      (i : ℕ) (e : List (List ℤ))
      → i < get_or b.l (choose_q b.d b.u_lu u) 0 + 1
      → SameColumn c b.elp e
      → SameColumn c b.elp (shift_entry row junk b.d u (choose_q b.d b.u_lu u) i e)
  unfolding shift_entry
  shift_entry-SameColumn i e below same =
      let q = choose_q b.d b.u_lu u in
      elim (Bool-cases (is_minus_one (elp_at e q i))) [
        | inl none ↦ rw (shift_entry, none) same
        | inr some ↦
            rw (shift_entry, some) (SameColumn-set_elp b.elp e (u + 1) (i + u - q) c _ away same)
      ]
    where
      away : i + u - choose_q b.d b.u_lu u ≢ c
      away h = elim (shift_column row junk [] tt u i b later top degrees (omega arith)) [
        | inl inside ↦ omega arith
        | inr (last, zero_row, at) ↦ no_overrun (omega arith) last zero_row
      ]

  raise_row-SameColumn : SameColumn c b.elp (raise_row row junk (2 * tt) u b).elp
  unfolding raise_row add_entry index_entry
  raise_row-SameColumn =
      let q = choose_q b.d b.u_lu u in
      let cleared = for_range (2 * tt) 0 (λ i elp. set_elp elp (u + 1) i (pos 0)) b.elp in
      let shifted = for_range (get_or b.l q 0 + 1) 0 (shift_entry row junk b.d u q) cleared in
      SameColumn-loop (add_entry row junk u) (get_or b.l u 0 + 1) c b.elp shifted
        (λ i e below same.
          let away : i ≢ c = λ h. omega (arith, degree_lt) in
          SameColumn-set_elp b.elp _ u i c _ away
            (SameColumn-set_elp b.elp e (u + 1) i c _ away same))
        (SameColumn-loop (shift_entry row junk b.d u q) (get_or b.l q 0 + 1) c b.elp cleared
          shift_entry-SameColumn
          (SameColumn-loop _ (2 * tt) c b.elp b.elp
            (λ i e below same.
              SameColumn-set_elp b.elp e (u + 1) i c (pos 0) (λ h. omega arith) same)
            (λ r. refl)))

  -- The columns that a round of 1 … 2 * tt writes, in any row of the table, are below `2 * tt`, where
  -- the degrees of the earlier rows are in range: every other column `c` is as before the round, however
  -- long the rows are. The exception is the column `2 * tt` itself, one past the row, in the last
  -- round, if that goes back to row 0.
  pub bm_step-SameColumn : (s : List ℤ) → SameColumn c b.elp (bm_step row junk s (2 * tt) u b).elp
  unfolding bm_step
  bm_step-SameColumn s = elim (Bool-cases (is_minus_one (int_at b.d u))) [
    | inl e ↦ elim (Bool-cases (ltb u (2 * tt))) [
      | inl f ↦ rw (bm_step, e, f) keep_row-SameColumn
      | inr f ↦ rw (bm_step, e, f) keep_row-SameColumn
    ]
    | inr e ↦ elim (Bool-cases (ltb u (2 * tt))) [
      | inl f ↦ rw (bm_step, e, f) raise_row-SameColumn
      | inr f ↦ rw (bm_step, e, f) raise_row-SameColumn
    ]
  ]
