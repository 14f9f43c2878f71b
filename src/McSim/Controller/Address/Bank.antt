-- ===== src/McSim/Controller/Address/Bank.antt =====
-- The bank of an address of class RowHammerGen is the one that it was made for.
use row_armor.Base.{
  ℕ, zero, suc, ◌+◌, ◌-◌, ◌*◌, ◌/◌, ◌%◌, ◌^◌, ◌<◌, ◌≤◌, ◌≡◌, ap, sym, ◌∙◌, ltb, bit_xor, true,
  false, arith, ◌==◌, Bool-cases, inl, inr,
}
use native.Mathlib.Nat.{
  pow-suc, mod-eq_of_lt, mod-lt, add-mul-mod_self_right, add-mul-div_right, div-eq_of_lt,
  div-div-eq-div-mul, mod-mod, mul-div_cancel, div-mul-le_self, mul-div-le, mul-le-mul_right,
  pow-le-pow_right,
}
use row_armor.Base.Powers.{quotient-le, two_pow_pos, pow_add, xor-mod}
use row_armor.Base.Xor.{xor_assoc, xor_self, xor-zero}
use row_armor.McSim.Controller.Address.{AddressMap, hammer_log2, sub32, make_address, get_bank_num}

hammer_log2-pow : (fuel k n : ℕ) → k < fuel → hammer_log2 fuel (2 ^ k) n ≡ n + k
unfolding hammer_log2
hammer_log2-pow zero k n h = absurd (omega arith)
hammer_log2-pow (suc fuel) zero n h = ground arith
hammer_log2-pow (suc fuel) (suc k) n h =
    let half : 2 ^ suc k / 2 ≡ 2 ^ k = omega (arith, pow-suc 2 k) in
    let more : ltb 1 (2 ^ suc k) ≡ true = ground (arith, pow-suc 2 k, two_pow_pos k) in
    rw (more, half, hammer_log2-pow fuel k (n + 1) (omega arith)) (omega arith)

module _ (low d bank_bit banks q : ℕ) (low_lt : low < d) (bank_lt : bank_bit < banks) where
  word : ℕ
  word = low + bank_bit * d + q * (banks * d)

  word-div : word / d ≡ bank_bit + q * banks
  unfolding word
  word-div =
      let grouped : low + bank_bit * d + q * (banks * d) ≡ low + (bank_bit + q * banks) * d =
        grind arith in
      ap (λ x. x / d) grouped
      ∙ add-mul-div_right low (bank_bit + q * banks) (omega arith)
      ∙ omega (arith, div-eq_of_lt low_lt)

  word-div_all : (m : ℕ) → word / (banks * d * m) ≡ q / m
  unfolding word
  word-div_all m =
      sym (div-div-eq-div-mul (low + bank_bit * d + q * (banks * d)) (banks * d) m)
      ∙ ap (λ x. x / m)
          (add-mul-div_right (low + bank_bit * d) q {z = banks * d} (grind (arith, below))
            ∙ omega (arith, div-eq_of_lt below))
    where
      below : low + bank_bit * d < banks * d
      below = grind (arith, mul-le-mul_right d bank_lt)

-- A map with 2 ^ b banks, two controllers, pages of 2 ^ page_bit bytes and 2 ^ slice pages in a row of
-- banks, where the bits of the pages from `high` on are mixed into the bank.
abbrev pub attack_map : ℕ → ℕ → ℕ → ℕ → AddressMap
attack_map page_bit slice b high = record {
  num_banks_per_rank = 2 ^ b;
  num_mcs = 2;
  bank_interleave_base_bit = page_bit + (slice + 1);
  mc_interleave_base_bit = page_bit;
  page_sz_base_bit = page_bit;
  interleave_xor_base_bit = page_bit + (b + (slice + 1) + (high - slice));
  num_ranks_per_mc = 1;
  rank_interleave_base_bit = 0;
  num_banks_per_rank_ab = 0;
  num_banks_with_agile_row = 0;
  reciprocal_of_agile_row_portion = 1;
  not_sharing_banks = false;
}

module _ (page_bit slice b high bank page : ℕ) (ordered : slice ≤ high)
    (narrow : b + slice + 1 ≤ 31) (page_lt : page < 2 ^ 32) (all_bits : page_bit + b + 34 ≤ 64)
    (high_lt : high < 64) (bank_lt : bank < 2 ^ b) where
  il : ℕ
  il = page / 2 ^ high

  abbrev bank_bits : ℕ
  bank_bits = bit_xor bank il % 2 ^ b

  abbrev low_bits : ℕ
  low_bits = il % 2 + page % 2 ^ slice * 2

  low-lt : low_bits < 2 ^ (slice + 1)
  low-lt = omega (arith, pow_add slice 1, mod-lt page (two_pow_pos slice))

  bank_bits-lt : bank_bits < 2 ^ b
  bank_bits-lt = mod-lt (bit_xor bank il) (two_pow_pos b)

  whole : ℕ
  whole = word low_bits (2 ^ (slice + 1)) bank_bits (2 ^ b) (page / 2 ^ slice) low-lt bank_bits-lt

  pow_small : (k : ℕ) → k ≤ 31 → 2 ^ k < 2 ^ 32
  pow_small k le = omega (arith, pow-le-pow_right {n = 2} (omega arith) le)

  il_fits : page / 2 ^ high % 2 ^ 32 ≡ il
  unfolding il
  il_fits =
      mod-eq_of_lt
        (omega (arith, mul-div-le page (2 ^ high), quotient-le page (2 ^ high) (two_pow_pos high)))

  slice_fits : 2 ^ slice % 2 ^ 32 ≡ 2 ^ slice
  slice_fits = mod-eq_of_lt (pow_small slice (omega arith))

  low_fits : page % 2 ^ slice * 2 % 2 ^ 32 ≡ page % 2 ^ slice * 2
  low_fits = mod-eq_of_lt (
      omega (
        arith,
        mod-lt page (two_pow_pos slice),
        pow_small (slice + 1) (omega arith),
        pow_add slice 1,
      ))

  banks_below : bank_bits * 2 ^ (slice + 1) + 2 ^ (slice + 1) ≤ 2 ^ 31
  banks_below =
      let raised = mul-le-mul_right (2 ^ (slice + 1)) bank_bits-lt in
      let shift = pow_add b (slice + 1) in
      let top = pow-le-pow_right {n = 2} (omega arith) (narrow_sum) in
      grind (arith, raised, shift, top)
    where
      narrow_sum : b + (slice + 1) ≤ 31
      narrow_sum = omega arith

  bank_fits : bank_bits * 2 ^ (slice + 1) % 2 ^ 32 ≡ bank_bits * 2 ^ (slice + 1)
  bank_fits = mod-eq_of_lt (omega (arith, banks_below))

  page_part : page / 2 ^ slice * (2 ^ b * 2 ^ (slice + 1)) ≤ page * (2 ^ b * 2)
  page_part =
      let rows = mul-le-mul_right (2 ^ b * 2) (div-mul-le_self page (2 ^ slice)) in
      let shift : 2 ^ (slice + 1) ≡ 2 ^ slice * 2 = omega (arith, pow_add slice 1) in
      let grouped : page / 2 ^ slice * (2 ^ b * (2 ^ slice * 2))
          ≡ page / 2 ^ slice * 2 ^ slice * (2 ^ b * 2) =
        grind arith in
      rw (shift, grouped) rows

  whole_lt : whole < 2 ^ (b + 34)
  unfolding whole word
  whole_lt =
      let pages = mul-le-mul_right (2 ^ b * 2) page_lt in
      let top : 2 ^ (b + 34) ≡ 2 ^ b * 2 ^ 34 = pow_add b 34 in
      let pos = two_pow_pos b in
      let first : low_bits + bank_bits * 2 ^ (slice + 1) < 2 ^ 31 =
        omega (arith, low-lt, banks_below) in
      omega (arith, page_part, pages, top, pos, first)

  whole_fits : whole * 2 ^ page_bit % 2 ^ 64 ≡ whole * 2 ^ page_bit
  whole_fits =
      let scaled = mul-le-mul_right (2 ^ page_bit) whole_lt in
      let joined : 2 ^ (b + 34) * 2 ^ page_bit ≡ 2 ^ (b + 34 + page_bit) =
        sym (pow_add (b + 34) page_bit) in
      let top : 2 ^ (b + 34 + page_bit) ≤ 2 ^ 64 = pow-le-pow_right {n = 2} (omega arith) enough in
      let pos = two_pow_pos page_bit in mod-eq_of_lt (grind (arith, scaled, joined, top, pos))
    where
      enough : b + 34 + page_bit ≤ 64
      enough = omega arith

  slice_is : sub32 (sub32 (page_bit + (slice + 1)) 1) page_bit ≡ slice
  unfolding sub32
  slice_is = omega arith

  high_is :
      sub32 (sub32 (sub32 (page_bit + (b + (slice + 1) + (high - slice))) 1) page_bit) b ≡ high
  unfolding sub32
  high_is = omega arith

  top_shift : 2 ^ (b + 1 + slice) ≡ 2 ^ b * 2 ^ (slice + 1)
  top_shift = let e : b + 1 + slice ≡ b + (slice + 1) = omega arith in rw e (pow_add b (slice + 1))

  make_address-word :
      make_address (attack_map page_bit slice b high) bank page ≡ whole * 2 ^ page_bit
  unfolding make_address whole word
  make_address-word =
      let banks : hammer_log2 32 (2 ^ b) 0 ≡ b =
        hammer_log2-pow 32 b 0 (omega arith) ∙ omega arith in
      let mcs : hammer_log2 32 2 0 ≡ 1 = hammer_log2-pow 32 1 0 (omega arith) in
      rw (banks, mcs, slice_is, high_is, il_fits, slice_fits, low_fits, bank_fits, top_shift)
        whole_fits

  -- The two shifts of the address in `get_bank_num`.
  bank_field :
      whole * 2 ^ page_bit / 2 ^ (page_bit + (slice + 1)) ≡ bank_bits + page / 2 ^ slice * 2 ^ b
  unfolding whole
  bank_field =
      ap (λ x. whole * 2 ^ page_bit / x) (pow_add page_bit (slice + 1))
      ∙ sym (div-div-eq-div-mul (whole * 2 ^ page_bit) (2 ^ page_bit) (2 ^ (slice + 1)))
      ∙ ap (λ x. x / 2 ^ (slice + 1)) (mul-div_cancel whole (two_pow_pos page_bit))
      ∙ word-div low_bits (2 ^ (slice + 1)) bank_bits (2 ^ b) (page / 2 ^ slice) low-lt bank_bits-lt

  xor_field : whole * 2 ^ page_bit / 2 ^ (page_bit + (b + (slice + 1) + (high - slice))) ≡ il
  unfolding whole il
  xor_field =
      let split : 2 ^ (b + (slice + 1) + (high - slice))
          ≡ 2 ^ b * 2 ^ (slice + 1) * 2 ^ (high - slice) =
        pow_add (b + (slice + 1)) (high - slice)
        ∙ ap (λ x. x * 2 ^ (high - slice)) (pow_add b (slice + 1)) in
      let back : 2 ^ slice * 2 ^ (high - slice) ≡ 2 ^ high =
        sym (pow_add slice (high - slice)) ∙ ap (λ x. 2 ^ x) rejoin in
      ap (λ x. whole * 2 ^ page_bit / x) (pow_add page_bit (b + (slice + 1) + (high - slice)))
      ∙ sym (
          div-div-eq-div-mul (whole * 2 ^ page_bit) (2 ^ page_bit)
            (2 ^ (b + (slice + 1) + (high - slice))))
      ∙ ap (λ x. x / 2 ^ (b + (slice + 1) + (high - slice)))
          (mul-div_cancel whole (two_pow_pos page_bit))
      ∙ ap (λ x. whole / x) split
      ∙ word-div_all low_bits (2 ^ (slice + 1)) bank_bits (2 ^ b) (page / 2 ^ slice) low-lt
          bank_bits-lt (2 ^ (high - slice))
      ∙ div-div-eq-div-mul page (2 ^ slice) (2 ^ (high - slice))
      ∙ ap (λ x. page / x) back
    where
      rejoin : slice + (high - slice) ≡ high
      rejoin = omega arith

  -- The mixed-in bits cancel.
  unmixed : bit_xor (bank_bits + page / 2 ^ slice * 2 ^ b) il % 2 ^ b ≡ bank
  unmixed =
      let own : bank % 2 ^ b ≡ bank = mod-eq_of_lt bank_lt in
      xor-mod b (bank_bits + page / 2 ^ slice * 2 ^ b) il
      ∙ ap (λ x. bit_xor x (il % 2 ^ b))
          (add-mul-mod_self_right bank_bits (page / 2 ^ slice) (2 ^ b)
            ∙ mod-mod (bit_xor bank il) (2 ^ b)
            ∙ xor-mod b bank il)
      ∙ xor_assoc (bank % 2 ^ b) (il % 2 ^ b) (il % 2 ^ b)
      ∙ ap (bit_xor (bank % 2 ^ b)) (xor_self (il % 2 ^ b))
      ∙ xor-zero (bank % 2 ^ b)
      ∙ own

-- Without agile rows and where the threads share the banks, the bank is the two fields mixed.
get_bank_num-shared :
    (page_bit slice b high addr th_id : ℕ)
    → b ≤ 31
    → let p = attack_map page_bit slice b high in
      get_bank_num p addr th_id
      ≡ bit_xor (addr / 2 ^ p.bank_interleave_base_bit) (addr / 2 ^ p.interleave_xor_base_bit)
        % 2 ^ b
unfolding get_bank_num
get_bank_num-shared page_bit slice b high addr th_id b_le =
    let p = attack_map page_bit slice b high in
    let mixed =
      bit_xor (addr / 2 ^ p.bank_interleave_base_bit) (addr / 2 ^ p.interleave_xor_base_bit) in
    let below = mod-lt mixed (two_pow_pos b) in
    let wide = pow-le-pow_right {n = 2} (omega arith) b_le in
    let kept : (mixed % 2 ^ b + 0) % 2 ^ 32 ≡ mixed % 2 ^ b = omega (arith, below, wide) in
    elim (Bool-cases (addr / 2 ^ 63 == 0)) [ inl plain ↦ rw plain kept | inr agile ↦ rw agile kept ]

-- An address that the attacker makes for a bank and a page lies in that bank, for the memory
-- controller: the bits of the page that are mixed into the bank cancel. The banks are a power of two
-- and shared by the threads, no row is agile, there are two controllers, the fields of the map lie
-- side by side, the bits that are mixed in are not below the slice, page, bank field and address
-- fit in 32, 31 and 64 bits, and every shift is by fewer than 64.
pub get_bank_num-make_address :
    (page_bit slice b high bank page th_id : ℕ)
    → slice ≤ high
    → b + slice + 1 ≤ 31
    → page < 2 ^ 32
    → page_bit + b + 34 ≤ 64
    → page_bit + b + high < 63
    → bank < 2 ^ b
    → get_bank_num
        (attack_map page_bit slice b high)
        (make_address (attack_map page_bit slice b high) bank page)
        th_id
      ≡ bank
get_bank_num-make_address page_bit slice b high bank page th_id ordered narrow page_lt all_bits
      shifts bank_lt =
    let high_lt : high < 64 = omega arith in
    get_bank_num-shared page_bit slice b high
      (make_address (attack_map page_bit slice b high) bank page) th_id (omega arith)
    ∙ rw
        (
          make_address-word page_bit slice b high bank page ordered narrow page_lt all_bits high_lt
              bank_lt,
          bank_field page_bit slice b high bank page ordered narrow page_lt all_bits high_lt
              bank_lt,
          xor_field page_bit slice b high bank page ordered narrow page_lt all_bits high_lt bank_lt,
        )
        (unmixed page_bit slice b high bank page ordered narrow page_lt all_bits high_lt bank_lt)
