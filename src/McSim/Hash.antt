-- ===== src/McSim/Hash.antt =====
-- Class H3 of perf_simulation/McSim/PTSHash.cc: sixteen linear hash functions.
pub mod Matrix
pub mod Linear
pub mod Bounds
use row_armor.Base.{ℕ, zero, suc, ◌+◌, ◌/◌, ◌%◌, ◌^◌, bit_xor, ◌==◌, if◌then◌else◌, get_or, []}
use row_armor.McSim.Hash.Matrix.{h3_matrix}

unfoldable pub h3_entry : ℕ → ℕ → ℕ
unfolding h3_matrix
h3_entry i hash_number = get_or (get_or h3_matrix i []) hash_number 0

-- The loop of `lookup_hash`, which ends early once no bit of `val` is left, on fuel: 64 rounds.
unfoldable pub lookup_loop : ℕ → ℕ → ℕ → ℕ → ℕ → ℕ
unfolding h3_entry
lookup_loop zero hash_number i val result = result
lookup_loop (suc rounds) hash_number i val result =
    let next = if val % 2 == 1 then bit_xor result (h3_entry i hash_number) else result in
    let rest = lookup_loop rounds hash_number (i + 1) (val / 2) next in
    if val == 0 then result else rest

-- `bits` with all 64 bits keeps the address.
unfoldable pub lookup_hash : ℕ → ℕ → ℕ
unfolding lookup_loop
lookup_hash address hash_number = lookup_loop 64 hash_number 0 (address % 2 ^ 64) 0
