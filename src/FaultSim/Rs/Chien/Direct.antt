-- ===== src/FaultSim/Rs/Chien/Direct.antt =====
-- The registers of the root search against direct evaluation of the polynomial.
use mathlib.Core.List.{append-nil, append_assoc}
use row_armor.Base.{
  ℕ, zero, suc, ◌+◌, ◌-◌, ◌*◌, ◌%◌, ◌<◌, ◌≡◌, refl, bit_xor, Bool, ◌==◌, Bool-cases, inl, inr,
  if◌then◌else◌, List, [], ◌∷◌, ◌++◌, get_or, map, arith, ◌∙◌,
}
use row_armor.Base.Int.{ℤ, pos, negsuc, rem, ◌+ℤ◌}
use row_armor.Base.Xor.{xor-zero}
use row_armor.FaultSim.Rs.Chien.{Search, turn, chien_step, chien_rounds, chien}

-- An `int` in index form: -1, or an exponent.
abbrev pub IsIndex : ℤ → Type 0
IsIndex (pos n) = n < 255
IsIndex (negsuc n) = n ≡ 0

abbrev pub AllIndex : List ℤ → Type 0
AllIndex [] = Unit {0}
AllIndex (e ∷ rest) = IsIndex e × AllIndex rest

-- The term of degree `j` with the coefficient `e`, at the power `i` of the primitive element.
abbrev term_at : List ℕ → ℤ → ℕ → ℕ → ℕ
term_at row (pos n) j i = get_or row ((n + i * j) % 255) 0
term_at row (negsuc n) j i = 0

-- The sum of the terms of degree `j` and above, added to `q`.
pub value_at : List ℕ → List ℤ → ℕ → ℕ → ℕ → ℕ
value_at row [] j i q = q
value_at row (e ∷ rest) j i q = value_at row rest (j + 1) i (bit_xor q (term_at row e j i))

-- 1 + e_1 x + e_2 x^2 + … has a root at the power `i`.
pub is_root : List ℕ → List ℤ → ℕ → Bool
unfolding value_at
is_root row e i = value_at row e 1 i 1 == 0

-- The roots among `left` powers from `i` on.
pub roots : List ℕ → List ℤ → ℕ → ℕ → List ℕ
unfolding is_root
roots row e zero i = []
roots row e (suc left) i =
    let rest = roots row e left (i + 1) in if is_root row e i then i ∷ rest else rest

abbrev reg_at : ℤ → ℕ → ℕ → ℤ
reg_at (pos n) j i = pos ((n + i * j) % 255)
reg_at (negsuc n) j i = negsuc n

-- The registers from number `j` on, after `i` rounds.
regs_at : List ℤ → ℕ → ℕ → List ℤ
regs_at [] j i = []
regs_at (e ∷ rest) j i = reg_at e j i ∷ regs_at rest (j + 1) i

reg_at-start : (e : ℤ) (j : ℕ) → IsIndex e → reg_at e j 0 ≡ e
reg_at-start (pos n) j h = ground arith
reg_at-start (negsuc n) j h = refl

regs_at-start : (e : List ℤ) (j : ℕ) → AllIndex e → regs_at e j 0 ≡ e
unfolding regs_at
regs_at-start [] j h = refl
regs_at-start (e ∷ rest) j h = ground (arith, reg_at-start e j h.0, regs_at-start rest (j + 1) h.1)

-- A register moves from its place after `i` rounds to the one after `i + 1`.
reg_advance :
    (n j i : ℕ) → rem (pos ((n + i * j) % 255) +ℤ pos j) 255 ≡ pos ((n + (i + 1) * j) % 255)
reg_advance n j i =
    let e : ((n + i * j) % 255 + j) % 255 ≡ (n + (i + 1) * j) % 255 = omega arith in ground arith

turn-regs_at :
    (row : List ℕ) (e : List ℤ) (j i q : ℕ)
    → AllIndex e
    → turn row (regs_at e j i) j q ≡ (regs_at e j (i + 1), value_at row e j (i + 1) q)
unfolding turn regs_at value_at
turn-regs_at row [] j i q h = refl
turn-regs_at row (pos n ∷ rest) j i q h = rw (
  reg_advance n j i,
  turn-regs_at row rest (j + 1) i (bit_xor q (get_or row ((n + (i + 1) * j) % 255) 0)) h.1,
)
turn-regs_at row (negsuc n ∷ rest) j i q h =
    let z : n ≡ 0 = h.0 in rw z (rw (turn-regs_at row rest (j + 1) i q h.1, xor-zero))

module _ (row : List ℕ) (e : List ℤ) (h : AllIndex e) where
  -- The search after `i` rounds, with the roots found so far.
  abbrev search_at : ℕ → List ℕ → List ℕ → Search
  search_at i root loc = record { reg = regs_at e 1 i; root = root; loc = loc }

  abbrev mirror : ℕ → ℕ
  mirror i = 255 - i

  chien_step-search_at :
      (i : ℕ) (root loc : List ℕ)
      → chien_step row (i + 1) (search_at i root loc) ≡ (
          if is_root row e (i + 1)
          then search_at (i + 1) (root ++ (i + 1) ∷ []) (loc ++ (mirror (i + 1)) ∷ [])
          else search_at (i + 1) root loc)
  unfolding chien_step is_root
  chien_step-search_at i root loc = rw (turn-regs_at row e 1 i 1 h)

  loop-search_at :
      (left i : ℕ) (root loc : List ℕ)
      → chien_rounds row left (i + 1) (search_at i root loc)
        ≡ search_at
            (i + left)
            (root ++ roots row e left (i + 1))
            (loc ++ map mirror (roots row e left (i + 1)))
  unfolding chien_rounds roots
  loop-search_at zero i root loc =
      let end : i + 0 ≡ i = omega arith in rw (append-nil, append-nil, end)
  loop-search_at (suc left) i root loc =
      let shift : i + 1 + left ≡ i + suc left = omega arith in
      rw chien_step-search_at (elim (Bool-cases (is_root row e (i + 1))) [
        | inl hit ↦
            rw (hit, roots)
              (loop-search_at left (i + 1) (root ++ (i + 1) ∷ []) (loc ++ (mirror (i + 1)) ∷ [])
                ∙ rw shift (simp append_assoc))
        | inr miss ↦ rw (miss, roots) (loop-search_at left (i + 1) root loc ∙ rw shift)
      ])

  -- For coefficients in index form (0 to 254, or -1 for 0) the search finds exactly the powers
  -- 1 … 255 at which the polynomial is 0, in ascending order, and puts the mirrored exponents into
  -- `loc`.
  pub chien_direct :
      ((chien row e).root ≡ roots row e 255 1)
      × ((chien row e).loc ≡ map (λ i. 255 - i) (roots row e 255 1))
  unfolding chien
  chien_direct =
      let whole = rw (regs_at-start e 1 h) at (loop-search_at 255 0 [] []) in rw whole (refl, refl)
