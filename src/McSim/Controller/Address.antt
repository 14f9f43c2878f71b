-- ===== src/McSim/Controller/Address.antt =====
-- The addresses of class RowHammerGen, and the bank that the memory controller takes from an address.
pub mod Bank
use row_armor.Base.{
  ℕ, zero, suc, ◌+◌, ◌-◌, ◌*◌, ◌/◌, ◌%◌, ◌^◌, ltb, ◌==◌, ◌&&◌, not, if◌then◌else◌, bit_xor, Bool,
  true, false,
}

pub record AddressMap : Type 0 where
  pub num_banks_per_rank : ℕ
  pub num_mcs : ℕ
  pub num_ranks_per_mc : ℕ
  pub rank_interleave_base_bit : ℕ
  pub bank_interleave_base_bit : ℕ
  pub mc_interleave_base_bit : ℕ
  pub page_sz_base_bit : ℕ
  pub interleave_xor_base_bit : ℕ
  pub num_banks_per_rank_ab : ℕ
  pub num_banks_with_agile_row : ℕ
  pub reciprocal_of_agile_row_portion : ℕ
  pub not_sharing_banks : Bool

-- `RowHammerGen::log2`, on fuel: 32 rounds are enough for 32 bits.
unfoldable pub hammer_log2 : ℕ → ℕ → ℕ → ℕ
hammer_log2 zero num log2 = log2
hammer_log2 (suc fuel) num log2 =
    let rest = hammer_log2 fuel (num / 2) (log2 + 1) in if ltb 1 num then rest else log2

-- Subtraction of 32 bits.
unfoldable pub sub32 : ℕ → ℕ → ℕ
sub32 m n = (m + 2 ^ 32 - n % 2 ^ 32) % 2 ^ 32

-- Shifts by 64 bits or more, which C++ leaves undefined, shift every bit out here.
unfoldable pub make_address : AddressMap → ℕ → ℕ → ℕ
unfolding hammer_log2 sub32
make_address p bank page =
    let banks_bit = hammer_log2 32 p.num_banks_per_rank 0 in
    let mcs_bit = hammer_log2 32 p.num_mcs 0 in
    let slice_bit = sub32 (sub32 p.bank_interleave_base_bit 1) p.mc_interleave_base_bit in
    let slice = page % (2 ^ slice_bit % 2 ^ 32) in
    let temp =
      sub32 (sub32 (sub32 p.interleave_xor_base_bit 1) p.mc_interleave_base_bit) banks_bit in
    let interleave = page / 2 ^ temp % 2 ^ 32 in
    let mc_bit = interleave % p.num_mcs in
    let bank_bit = bit_xor bank interleave % p.num_banks_per_rank in
    ((mc_bit
        + slice * 2 % 2 ^ 32
        + bank_bit * 2 ^ (slice_bit + mcs_bit) % 2 ^ 32
        + page / 2 ^ slice_bit * 2 ^ (banks_bit + mcs_bit + slice_bit))
      * 2 ^ p.page_sz_base_bit)
    % 2 ^ 64

-- Addresses with the highest bit set are of agile rows.
unfoldable pub get_bank_num : AddressMap → ℕ → ℕ → ℕ
get_bank_num p addr th_id =
    let agile = not (addr / 2 ^ 63 == 0) in
    let has_ab = agile && not (p.num_banks_per_rank_ab == 0) in
    let all_agile = agile && (p.reciprocal_of_agile_row_portion == 0) in
    let banks =
      if has_ab
      then p.num_banks_per_rank_ab
      else (if all_agile then p.num_banks_with_agile_row else p.num_banks_per_rank) in
    let mixed =
      bit_xor (addr / 2 ^ p.bank_interleave_base_bit) (addr / 2 ^ p.interleave_xor_base_bit) in
    let first = if has_ab then (if all_agile then 0 else p.num_banks_per_rank) else 0 in
    let bank_num = (mixed % banks + first) % 2 ^ 32 in
    if p.not_sharing_banks then (bank_num + banks * th_id) % 2 ^ 32 else bank_num

unfoldable pub get_rank_num : AddressMap → ℕ → ℕ
get_rank_num p addr =
    bit_xor (addr / 2 ^ p.rank_interleave_base_bit) (addr / 2 ^ p.interleave_xor_base_bit)
    % p.num_ranks_per_mc
