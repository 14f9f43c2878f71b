-- ===== src/FaultSim/Rs/Decode/Guards.antt =====
-- The tests of the Reed-Solomon decoders on the error locations.
use row_armor.Base.{
  ℕ, ◌<◌, ◌≤◌, ◌≡◌, ◌≢◌, refl, Bool, true, false, ◌&&◌, ltb, leb, ◌==◌, if◌then◌else◌, List, [],
  ◌∷◌, get_or, arith, length,
}
use row_armor.FaultSim.Config.{ne, ce, due}
use row_armor.FaultSim.Rs.Code.{Code}
use row_armor.FaultSim.Rs.Chien.{ce_cases, all_pass}
use row_armor.FaultSim.Rs.Decode.{Decoded}

abbrev pub All : (ℕ → Type 0) → List ℕ → Type 0
All P [] = Unit {0}
All P (x ∷ xs) = P x × All P xs

pub all_pass-All :
    (test : ℕ → Bool) (P : ℕ → Type 0)
    → ((x : ℕ) → test x ≡ true → P x)
    → (xs : List ℕ) → all_pass test xs ≡ true
    → All P xs
unfolding all_pass
all_pass-All test P f [] h = tt
all_pass-All test P f (x ∷ xs) h = (f x (ground arith), all_pass-All test P f xs (ground arith))

pub due-ne_ce : due ≢ ce
due-ne_ce e = cc

pub ne-ne_ce : ne ≢ ce
ne-ne_ce e = cc

pub if_ce :
    (b : Bool) (x y : Decoded)
    → y.result ≢ ce
    → (if b then x else y).result ≡ ce
    → (b ≡ true) × (x.result ≡ ce)
if_ce true x y no_ce h = (refl, h)
if_ce false x y no_ce h = absurd (no_ce h)

-- The locations that a code accepts for `l_u` errors.
pub record AreAccepted (code : Code) (l_u : ℕ) (loc : List ℕ) : Type 0 where
  pub count : length loc ≡ l_u
  pub within : l_u ≤ code.tt
  pub in_word : All (λ x. x < code.nn_short) loc
  pub one_chip : code.free < l_u → All (λ x. code.same_chip (get_or loc 0 0) x ≡ true) loc

pub ce_cases-AreAccepted :
    (code : Code) (l_u : ℕ) (loc : List ℕ)
    → leb l_u code.tt ≡ true
    → (length loc == l_u && ce_cases code l_u loc) ≡ true
    → AreAccepted code l_u loc
unfolding ce_cases
ce_cases-AreAccepted code l_u loc within h = record {
  count = ground arith;
  within = ground arith;
  in_word =
      all_pass-All (λ x. ltb x code.nn_short) (λ x. x < code.nn_short) (λ x e. ground arith) loc
        (ground arith);
  one_chip = λ more. all_pass-All (code.same_chip (get_or loc 0 0)) _ (λ x e. e) loc (ground arith);
}
