-- ===== src/Base/Powers.antt =====
-- Powers of two: quotients, remainders and exclusive or.
use Prim.Native.Nat.{ℕ, zero, suc, ◌+◌, ◌*◌, ◌/◌, ◌%◌, ◌<◌, ◌≤◌, ◌^◌, bit_xor}
use mathlib.Core.Path.{◌≡◌, ap, ap₂, sym, ◌∙◌}
use native.Mathlib.Omega.{arith}
use native.Mathlib.Nat.{
  pow-suc, mod-add-div', mod-eq_of_lt, mod-lt, add-mul-mod_self_right, mul-div-le,
}
use row_armor.Base.Xor.{xor_step}

pub quotient-le : (n m : ℕ) → 0 < m → n / m ≤ n
quotient-le n m pos = grind (arith, mul-div-le n m)

pub two_pow_pos : (k : ℕ) → 0 < 2 ^ k
two_pow_pos zero = omega arith
two_pow_pos (suc k) = omega (arith, pow-suc 2 k, two_pow_pos k)

pub pow_add : (j k : ℕ) → 2 ^ (j + k) ≡ 2 ^ j * 2 ^ k
pow_add zero k = let e : 0 + k ≡ k = omega arith in rw e (omega arith)
pow_add (suc j) k =
    let e : suc j + k ≡ suc (j + k) = omega arith in
    rw (e, pow-suc 2 (j + k), pow-suc 2 j, pow_add j k) (grind arith)

pub mod_double : (m n : ℕ) → 0 < m → n % (m * 2) ≡ (n / 2 % m) * 2 + n % 2
mod_double m n pos =
    let split : n ≡ ((n / 2 % m) * 2 + n % 2) + (n / 2 / m) * (m * 2) =
      grind (arith, mod-add-div' (n / 2) m) in
    let small : (n / 2 % m) * 2 + n % 2 < m * 2 = omega (arith, mod-lt (n / 2) pos) in
    ap (λ x. x % (m * 2)) split
    ∙ add-mul-mod_self_right ((n / 2 % m) * 2 + n % 2) (n / 2 / m) (m * 2)
    ∙ mod-eq_of_lt small

pub xor-mod : (k a b : ℕ) → bit_xor a b % 2 ^ k ≡ bit_xor (a % 2 ^ k) (b % 2 ^ k)
xor-mod zero a b =
    let ea : a % 1 ≡ 0 = omega arith in
    let eb : b % 1 ≡ 0 = omega arith in
    let el : bit_xor a b % 1 ≡ 0 = omega arith in el ∙ sym (ap₂ bit_xor ea eb)
xor-mod (suc k) a b =
    let pos = two_pow_pos k in
    let shift = pow-suc 2 k in
    let ea = mod_double (2 ^ k) a pos in
    let eb = mod_double (2 ^ k) b pos in
    let el = mod_double (2 ^ k) (bit_xor a b) pos in
    let ha : a % (2 ^ k * 2) / 2 ≡ a / 2 % 2 ^ k = omega arith in
    let hb : b % (2 ^ k * 2) / 2 ≡ b / 2 % 2 ^ k = omega arith in
    let hl : bit_xor a b / 2 ≡ bit_xor (a / 2) (b / 2) = omega (arith, xor_step a b) in
    let rest = xor-mod k (a / 2) (b / 2) in
    let both = a % (2 ^ k * 2) + b % (2 ^ k * 2) in
    let digits : both % 2 ≡ bit_xor a b % 2 = omega (arith, xor_step a b) in
    let step : bit_xor (a % (2 ^ k * 2)) (b % (2 ^ k * 2))
        ≡ bit_xor (a / 2 % 2 ^ k) (b / 2 % 2 ^ k) * 2 + both % 2 =
      xor_step (a % (2 ^ k * 2)) (b % (2 ^ k * 2))
      ∙ ap (λ x. x * 2 + both % 2) (ap₂ bit_xor ha hb) in
    rw shift (
      el
      ∙ ap (λ x. x % 2 ^ k * 2 + bit_xor a b % 2) hl
      ∙ ap₂ (λ x y. x * 2 + y) rest (sym digits)
      ∙ sym step)
