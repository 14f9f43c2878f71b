-- ===== src/McSim/Controller/Hammer.antt =====
-- Class RowHammerGen: the reads of an attacker, who goes round in a list of rows.
use row_armor.Base.{
  ℕ, zero, suc, ◌+◌, ◌%◌, ◌^◌, ◌<◌, ◌≤◌, ◌≡◌, refl, ltb, leb, if◌then◌else◌, List, [], ◌∷◌, length,
  get_or, Option, none, some, true, arith, Bool-cases, inl, inr, ap, sym,
}
use native.Mathlib.Nat.{mod-lt, mod_self, mod-eq_of_lt, mod-add-mod}

pub record RowHammerGen : Type 0 where
  pub attacker_thread_number : ℕ
  pub num_attack_rows_per_thread : ℕ
  pub attacker_max_req_count : ℕ
  pub attacker_req_count : ℕ
  pub address_list : List ℕ
  pub curr_idx : ℕ

unfoldable pub hammer_start : ℕ → ℕ → ℕ → RowHammerGen
hammer_start th_num num max_req_count = record {
  attacker_thread_number = th_num;
  num_attack_rows_per_thread = num;
  attacker_max_req_count = max_req_count;
  attacker_req_count = 0;
  address_list = [];
  curr_idx = 0;
}

-- The read request: the thread and the address. Where the list is shorter than the number of rows
-- the source reads past its end, `none`.
unfoldable pub make_event : RowHammerGen → Option (RowHammerGen × ℕ × ℕ)
make_event s =
    let idx = if leb s.num_attack_rows_per_thread s.curr_idx then 0 else s.curr_idx in
    if ltb idx (length s.address_list)
    then some (
      record s { curr_idx = (idx + 1) % 2 ^ 32 },
      s.attacker_thread_number,
      get_or s.address_list idx 0,
    )
    else none

-- The requests of so many calls, the addresses alone.
unfoldable pub make_events : ℕ → RowHammerGen → Option (List ℕ)
unfolding make_event
make_events zero s = some []
make_events (suc n) s = elim (make_event s) [
  | none ↦ none
  | some r ↦ elim (make_events n r.0) [ none ↦ none | some addresses ↦ some (r.2 ∷ addresses) ]
]

-- The rows one after the other, from the k-th on, round and round.
unfoldable pub rounds_from : List ℕ → ℕ → ℕ → ℕ → List ℕ
rounds_from rows num k zero = []
rounds_from rows num k (suc n) = get_or rows (k % num) 0 ∷ rounds_from rows num (k + 1) n

module _ (num : ℕ) (some_row : 0 < num) where
  wrap_idx :
      (k idx : ℕ) → idx ≤ num → k % num ≡ idx % num → (if leb num idx then 0 else idx) ≡ k % num
  wrap_idx k idx le same = elim (Bool-cases (leb num idx)) [
    | inl past ↦
        let e : idx ≡ num = ground arith in
        rw past (omega (arith, mod_self num, same, ap (λ i. i % num) e))
    | inr inside ↦ rw inside (omega (arith, mod-eq_of_lt {n = idx} {m = num} (ground arith), same))
  ]

  make_events-cyclic :
      (n k : ℕ) (s : RowHammerGen)
      → s.num_attack_rows_per_thread ≡ num
      → num ≤ length s.address_list
      → num + 1 < 2 ^ 32
      → s.curr_idx ≤ num
      → k % num ≡ s.curr_idx % num
      → make_events n s ≡ some (rounds_from s.address_list num k n)
  unfolding make_events make_event rounds_from
  make_events-cyclic zero k s is_num long small le same = refl
  make_events-cyclic (suc n) k s is_num long small le same =
      let idx : (if leb s.num_attack_rows_per_thread s.curr_idx then 0 else s.curr_idx) ≡ k % num =
        rw is_num (wrap_idx k s.curr_idx le same) in
      let below : ltb (k % num) (length s.address_list) ≡ true =
        ground (arith, mod-lt k some_row) in
      let next : (k % num + 1) % 2 ^ 32 ≡ k % num + 1 = omega (arith, mod-lt k some_row) in
      let later =
        make_events-cyclic n (k + 1) (record s { curr_idx = k % num + 1 }) is_num long small
          (omega (arith, mod-lt k some_row)) (sym (mod-add-mod k num 1)) in
      rw (make_events, make_event, idx, below, next, later) refl

-- The attacker goes round: from the constructor on and with the rows filled in, the k-th read is of
-- row k modulo the number of rows, and there is one for each call. There is at least one row, at
-- most 2 ^ 32 - 2, and the list has them all.
pub make_events-rounds :
    (th_num num max_req_count n : ℕ) (rows : List ℕ)
    → 0 < num
    → num ≤ length rows
    → num + 1 < 2 ^ 32
    → make_events n (record (hammer_start th_num num max_req_count) { address_list = rows })
      ≡ some (rounds_from rows num 0 n)
unfolding hammer_start
make_events-rounds th_num num max_req_count n rows some_row long small =
    make_events-cyclic num some_row n 0
      (record (hammer_start th_num num max_req_count) { address_list = rows }) refl long small
      (omega arith) refl
