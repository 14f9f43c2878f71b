-- ===== src/McSim/Hash/Linear.antt =====
-- The hash functions of class H3 are linear over exclusive or, and have 30 bits.
use row_armor.Base.{
  ap₂, ℕ, zero, suc, ◌+◌, ◌/◌, ◌%◌, ◌^◌, ◌<◌, ◌≡◌, refl, ap, sym, ◌∙◌, bit_xor, ◌==◌, if◌then◌else◌,
  arith, true, false, Bool-cases, inl, inr,
}
use row_armor.Base.Xor.{xor_step, zero-xor, xor-zero, xor_assoc, xor_left_comm, xor_self, xor-lt}
use row_armor.McSim.Hash.{h3_entry, lookup_loop, lookup_hash}

-- The matrix times the vector of bits: the rows at the bits that are set, added up.
unfoldable pub product : ℕ → ℕ → ℕ → ℕ → ℕ
product zero hash_number i val = 0
product (suc rounds) hash_number i val =
    let rest = product rounds hash_number (i + 1) (val / 2) in
    if val % 2 == 1 then bit_xor (h3_entry i hash_number) rest else rest

product-zero : (rounds hash_number i : ℕ) → product rounds hash_number i 0 ≡ 0
unfolding product
product-zero zero hash_number i = refl
product-zero (suc rounds) hash_number i = product-zero rounds hash_number (i + 1)

pub lookup_loop-product :
    (rounds hash_number i val result : ℕ)
    → lookup_loop rounds hash_number i val result
      ≡ bit_xor result (product rounds hash_number i val)
unfolding lookup_loop product
lookup_loop-product zero hash_number i val result = sym (xor-zero result)
lookup_loop-product (suc rounds) hash_number i val result = elim (Bool-cases (val == 0)) [
  | inl none ↦
      let e : val ≡ 0 = ground arith in
      rw (e, product-zero rounds hash_number (i + 1)) (sym (xor-zero result))
  | inr some_bit ↦ elim (Bool-cases (val % 2 == 1)) [
    | inl odd ↦
        rw
          (
            some_bit,
            odd,
            lookup_loop-product rounds hash_number (i + 1) (val / 2)
                (bit_xor result (h3_entry i hash_number)),
          )
          (xor_assoc result (h3_entry i hash_number) (product rounds hash_number (i + 1) (val / 2)))
    | inr even ↦
        rw (some_bit, even) (lookup_loop-product rounds hash_number (i + 1) (val / 2) result)
  ]
]

xor-half : (a b : ℕ) → bit_xor a b / 2 ≡ bit_xor (a / 2) (b / 2)
xor-half a b = omega (arith, xor_step a b)

xor-odd : (a b : ℕ) → bit_xor a b % 2 ≡ (a + b) % 2
xor-odd a b = omega (arith, xor_step a b)

-- One row in both products cancels.
xor_cancel : (e p q : ℕ) → bit_xor (bit_xor e p) (bit_xor e q) ≡ bit_xor p q
xor_cancel e p q =
    rw (xor_assoc e p (bit_xor e q), xor_left_comm p e q, ← xor_assoc e e (bit_xor p q), xor_self e)
      (zero-xor (bit_xor p q))

product-xor :
    (rounds hash_number i a b : ℕ)
    → product rounds hash_number i (bit_xor a b)
      ≡ bit_xor (product rounds hash_number i a) (product rounds hash_number i b)
unfolding product
product-xor zero hash_number i a b = refl
product-xor (suc rounds) hash_number i a b =
    let e = h3_entry i hash_number in
    let p = product rounds hash_number (i + 1) (a / 2) in
    let q = product rounds hash_number (i + 1) (b / 2) in
    elim (Bool-cases (a % 2 == 1)) [
      | inl a_odd ↦ elim (Bool-cases (b % 2 == 1)) [
        | inl b_odd ↦
            let both : (bit_xor a b % 2 == 1) ≡ false = ground (arith, xor-odd a b) in
            rw
              (
                a_odd,
                b_odd,
                both,
                xor-half a b,
                product-xor rounds hash_number (i + 1) (a / 2) (b / 2),
              )
              (sym (xor_cancel e p q))
        | inr b_even ↦
            let one : (bit_xor a b % 2 == 1) ≡ true = ground (arith, xor-odd a b) in
            rw
              (
                a_odd,
                b_even,
                one,
                xor-half a b,
                product-xor rounds hash_number (i + 1) (a / 2) (b / 2),
              )
              (sym (xor_assoc e p q))
      ]
      | inr a_even ↦ elim (Bool-cases (b % 2 == 1)) [
        | inl b_odd ↦
            let one : (bit_xor a b % 2 == 1) ≡ true = ground (arith, xor-odd a b) in
            rw
              (
                a_even,
                b_odd,
                one,
                xor-half a b,
                product-xor rounds hash_number (i + 1) (a / 2) (b / 2),
              )
              (xor_left_comm e p q)
        | inr b_even ↦
            let none : (bit_xor a b % 2 == 1) ≡ false = ground (arith, xor-odd a b) in
            rw (a_even, b_even, none, xor-half a b)
              (product-xor rounds hash_number (i + 1) (a / 2) (b / 2))
      ]
    ]

lookup_hash_lem :
    (a hash_number : ℕ) → a < 2 ^ 64 → lookup_hash a hash_number ≡ product 64 hash_number 0 a
unfolding lookup_hash
lookup_hash_lem a hash_number a_lt =
    let small : a % 2 ^ 64 ≡ a = omega arith in
    ap (λ val. lookup_loop 64 hash_number 0 val 0) small
    ∙ lookup_loop-product 64 hash_number 0 a 0
    ∙ zero-xor (product 64 hash_number 0 a)

-- Each hash function of H3 is linear: the hash of an exclusive or of two addresses of 64 bits is the
-- exclusive or of their hashes.
pub lookup_hash-xor :
    (a b hash_number : ℕ)
    → a < 2 ^ 64
    → b < 2 ^ 64
    → lookup_hash (bit_xor a b) hash_number
      ≡ bit_xor (lookup_hash a hash_number) (lookup_hash b hash_number)
lookup_hash-xor a b hash_number a_lt b_lt =
    lookup_hash_lem (bit_xor a b) hash_number (xor-lt 64 a b a_lt b_lt)
    ∙ product-xor 64 hash_number 0 a b
    ∙ sym (ap₂ bit_xor (lookup_hash_lem a hash_number a_lt) (lookup_hash_lem b hash_number b_lt))
