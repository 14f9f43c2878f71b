-- ===== src/McSim/Abacus/Bits.antt =====
-- The bank bits of class ABACuS.
use row_armor.Base.{
  ℕ, zero, suc, ◌+◌, ◌*◌, ◌/◌, ◌%◌, ◌^◌, ◌<◌, ◌≡◌, ◌==◌, ◌||◌, Bool, false, arith, refl,
}

-- `sav & (1ULL << i)`.
unfoldable pub test_bit : ℕ → ℕ → Bool
test_bit zero n = n % 2 == 1
test_bit (suc i) n = test_bit i (n / 2)

pow_suc : (i : ℕ) → 2 ^ suc i ≡ 2 * 2 ^ i
pow_suc i = grind arith

pub test_bit-zero : (i : ℕ) → test_bit i 0 ≡ false
unfolding test_bit
test_bit-zero zero = refl
test_bit-zero (suc i) = test_bit-zero i

pub test_bit-add :
    (i j n : ℕ) → test_bit j n ≡ false → test_bit i (n + 2 ^ j) ≡ ((i == j) || test_bit i n)
unfolding test_bit
test_bit-add zero zero n h = ground arith
test_bit-add zero (suc j) n h = let even = pow_suc j in ground arith
test_bit-add (suc i) zero n h =
    let same : (n + 1) / 2 ≡ n / 2 = ground arith in rw same (ground arith)
test_bit-add (suc i) (suc j) n h =
    let even = pow_suc j in
    let half : (n + 2 ^ suc j) / 2 ≡ n / 2 + 2 ^ j = omega arith in
    rw half (ground (arith, test_bit-add i j (n / 2) h))

pub add_bit-lt : (w j n : ℕ) → j < w → n < 2 ^ w → test_bit j n ≡ false → n + 2 ^ j < 2 ^ w
unfolding test_bit
add_bit-lt zero j n l small h = absurd (omega arith)
add_bit-lt (suc w) zero n l small h = let even = pow_suc w in ground arith
add_bit-lt (suc w) (suc j) n l small h =
    let even = pow_suc w in
    let even_j = pow_suc j in
    let half = add_bit-lt w j (n / 2) (omega arith) (omega arith) h in ground arith

pow_pos : (j : ℕ) → 0 < 2 ^ j
pow_pos zero = ground arith
pow_pos (suc j) = let even = pow_suc j in omega (arith, pow_pos j)

pub pow-lt : (i j : ℕ) → i < j → 2 ^ i < 2 ^ j
pow-lt i zero h = absurd (omega arith)
pow-lt zero (suc j) h = let even = pow_suc j in omega (arith, pow_pos j)
pow-lt (suc i) (suc j) h =
    let a = pow_suc i in let b = pow_suc j in let c = pow-lt i j (omega arith) in omega arith

pub test_bit-pow : (i j : ℕ) → test_bit i (2 ^ j) ≡ (i == j)
test_bit-pow i j = ground (arith, test_bit-add i j 0 (test_bit-zero j), test_bit-zero i)
