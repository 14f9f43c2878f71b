-- ===== src/FaultSim/Rs/Decode/Wipe.antt =====
-- Which cells the last loop of the Reed-Solomon decoders clears.
use row_armor.Base.{
  ℕ, ◌+◌, ◌*◌, ◌/◌, ◌≡◌, ◌&&◌, ltb, leb, ◌==◌, if◌then◌else◌, List, get_or, set, get_or-set,
  get_or_above, arith,
}
use row_armor.Base.Loops.{for_range_inv}
use row_armor.FaultSim.Rs.Decode.{wipe, wipe_step, wipe_symbol}

module _ (k : ℕ) (codeword : List ℕ) where
  abbrev WipedTo : ℕ → List ℕ → Type 0
  WipedTo j w =
      (i : ℕ)
      → get_or w i 0 ≡ (if leb (k * 8) i && ltb i (k * 8 + j) then 0 else get_or codeword i 0)

  wipe_symbol-cell :
      (i : ℕ)
      → get_or (wipe_symbol k codeword) i 0 ≡ (if i / 8 == k then 0 else get_or codeword i 0)
  unfolding wipe_symbol
  wipe_symbol-cell i =
      let whole =
        for_range_inv WipedTo (λ j w. set w (k * 8 + j) 0) 8 0 8 codeword
          (λ j w _ _ p i.
            ground (arith, p i, get_or-set w (k * 8 + j) i 0 0, get_or_above w (k * 8 + j) 0))
          (omega arith) (λ i. ground arith) i in
      ground arith

module _ (recd codeword : List ℕ) where
  abbrev WipedBelow : ℕ → List ℕ → Type 0
  WipedBelow k w =
      (i : ℕ)
      → get_or w i 0
        ≡ (if ltb (i / 8) k && (get_or recd (i / 8) 0 == 0) then 0 else get_or codeword i 0)

  wipe_step-WipedBelow :
      (k : ℕ) (w : List ℕ) → WipedBelow k w → WipedBelow (k + 1) (wipe_step recd k w)
  unfolding wipe_step
  wipe_step-WipedBelow k w p i = ground (arith, p i, wipe_symbol-cell k w i)

  -- Exactly the cells of the symbols whose repaired value is 0 are cleared.
  pub wipe-cell : (symbols : ℕ) → WipedBelow symbols (wipe recd symbols codeword)
  unfolding wipe
  wipe-cell symbols =
      for_range_inv WipedBelow (wipe_step recd) symbols 0 symbols codeword
        (λ k w _ _ p. wipe_step-WipedBelow k w p) (omega arith) (λ i. ground arith)
