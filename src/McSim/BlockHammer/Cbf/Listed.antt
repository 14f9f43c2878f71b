-- ===== src/McSim/BlockHammer/Cbf/Listed.antt =====
-- A row that is activated often enough is on the blacklist of the counting Bloom filter.
use row_armor.Base.{
  ℕ, ◌+◌, ◌^◌, ◌<◌, ◌≤◌, ◌≡◌, refl, ap, sym, ◌∙◌, ◌==◌, if◌then◌else◌, List, length, get_or,
  get_or-set, length-set, length-replicate, get_or-replicate, Bool, arith,
}
use native.Mathlib.Decide.{ℕ_discrete}
use native.Mathlib.Nat.{mod-lt}
use row_armor.Base.Loops.{for_range, for_range_inv}
use row_armor.Base.Word.{inc64}
use row_armor.McSim.BlockHammer.Cbf.{
  RowBlockerCbf, cbf_start, not_listed, lower, slot, count_slot, cbf_update, cbf_query, cbf_reset,
  validate,
}

module _ (lookup_hash : ℕ → ℕ → ℕ) (a blist_th cnt_size hashes : ℕ) (some_slot : 0 < cnt_size) where
  -- The filter counted `n` activations of the row `a`, and no slot more than `total`.
  pub record Counts (n total : ℕ) (s : RowBlockerCbf) : Type 0 where
    pub th_is : s.blist_th ≡ blist_th
    pub size_is : s.cnt_size ≡ cnt_size
    pub hashes_is : s.tot_num_hashes ≡ hashes
    pub len : length s.cnt_table ≡ cnt_size
    pub enough : (i : ℕ) → i < hashes → n ≤ get_or s.cnt_table (slot lookup_hash s a i) 0
    pub bounded : (k : ℕ) → get_or s.cnt_table k 0 ≤ total

  -- A loop that takes minimums of numbers from `n` on ends with a number from `n` on.
  query_loop :
      (n : ℕ) (s : RowBlockerCbf)
      → n ≤ not_listed
      → ((i : ℕ) → i < hashes → n ≤ get_or s.cnt_table (slot lookup_hash s a i) 0)
      → n
        ≤ for_range hashes 0 (λ i. lower (get_or s.cnt_table (slot lookup_hash s a i) 0)) not_listed
  query_loop n s small high =
      for_range_inv (λ i m. n ≤ m) (λ i. lower (get_or s.cnt_table (slot lookup_hash s a i) 0))
        hashes 0 hashes not_listed (λ k b low lt at_least. ground (arith, high k lt)) (omega arith)
        small

  pub Counts-query :
      (n total : ℕ) (s : RowBlockerCbf)
      → n < 2 ^ 64
      → blist_th ≤ n
      → Counts n total s
      → cbf_query lookup_hash a s ≡ a
  unfolding cbf_query
  Counts-query n total s small often t =
      let high = query_loop n s (omega arith) t.enough in rw (t.hashes_is, t.th_is) (ground arith)

  -- What the loop in `update` keeps: no slot goes down, and those of the row go up.
  record IsCounting (row n total : ℕ) (s : RowBlockerCbf) (k : ℕ) (r : List ℕ × ℕ) : Type 0 where
    len : length r.0 ≡ cnt_size
    grown : (j : ℕ) → get_or s.cnt_table j 0 ≤ get_or r.0 j 0
    bounded : (j : ℕ) → get_or r.0 j 0 ≤ total + k
    counted : row ≡ a → (i : ℕ) → i < k → n + 1 ≤ get_or r.0 (slot lookup_hash s a i) 0
    least : row ≡ a → n + 1 ≤ r.1

  module _ (row n total : ℕ) (s : RowBlockerCbf) (t : Counts n total s)
      (small : total + hashes < 2 ^ 64) (n_small : n + 1 < 2 ^ 64) where
    slot_lt : (r i : ℕ) → slot lookup_hash s r i < cnt_size
    unfolding slot
    slot_lt r i = rw t.size_is (mod-lt (lookup_hash r i) some_slot)

    count_slot-IsCounting :
        (k : ℕ) (r : List ℕ × ℕ)
        → k < hashes
        → IsCounting row n total s k r
        → IsCounting row n total s (k + 1) (count_slot (slot lookup_hash s row k) r)
    unfolding count_slot inc64
    count_slot-IsCounting k r lt c = record {
      len = length-set r.0 idx (inc64 (get_or r.0 idx 0)) ∙ c.len;
      grown = λ j. ground (arith, at j, c.grown j);
      bounded = λ j. ground (arith, at j, c.bounded j);
      counted = λ same i i_lt. elim (ℕ_discrete i k) [
        | yes last ↦ rw last (ground (arith, at (slot lookup_hash s a k), own same))
        | no before ↦ ground (arith, at (slot lookup_hash s a i), c.counted same i)
      ];
      least = λ same. ground (arith, own same, c.least same);
    }
      where
        idx : ℕ
        idx = slot lookup_hash s row k

        next : inc64 (get_or r.0 idx 0) ≡ get_or r.0 idx 0 + 1
        next = omega (arith, c.bounded idx)

        at :
            (j : ℕ)
            → get_or (count_slot idx r).0 j 0
              ≡ (if idx == j then get_or r.0 j 0 + 1 else get_or r.0 j 0)
        at j =
            ground
              (arith, get_or-set r.0 idx j (inc64 (get_or r.0 idx 0)) 0, slot_lt row k, c.len, next)

        own : row ≡ a → (slot lookup_hash s a k ≡ idx) × (n + 1 ≤ inc64 (get_or r.0 idx 0))
        own same =
            let here : slot lookup_hash s a k ≡ idx = ap (λ r. slot lookup_hash s r k) (sym same) in
            let high : n ≤ get_or r.0 idx 0 =
              rw (← here) (omega (arith, t.enough k lt, c.grown (slot lookup_hash s a k))) in
            (here, omega (arith, next))

    enough :
        (r : List ℕ × ℕ)
        → IsCounting row n total s hashes r
        → (i : ℕ) → i < hashes
        → (if row == a then n + 1 else n) ≤ get_or r.0 (slot lookup_hash s a i) 0
    enough r c i i_lt =
        let idx = slot lookup_hash s a i in
        elim (ℕ_discrete row a) [
          | yes same ↦ ground (arith, c.counted same i i_lt)
          | no away ↦ ground (arith, c.grown idx, t.enough i i_lt)
        ]

    pub cbf_update-Counts :
        let r = cbf_update lookup_hash row s in
        Counts (if row == a then n + 1 else n) (total + hashes) r.0
        × (row ≡ a → blist_th ≤ n + 1 → r.1 ≡ a)
    unfolding cbf_update slot
    cbf_update-Counts =
        let r =
          for_range hashes 0 (λ i. count_slot (slot lookup_hash s row i))
            (s.cnt_table, not_listed) in
        let c : IsCounting row n total s hashes r =
          for_range_inv (IsCounting row n total s) (λ i. count_slot (slot lookup_hash s row i))
            hashes 0 hashes (s.cnt_table, not_listed) (λ k b low lt. count_slot-IsCounting k b lt)
            (omega arith)
            (record {
              len = t.len;
              grown = λ j. omega arith;
              bounded = λ j. omega (arith, t.bounded j);
              counted = λ same i i_lt. absurd (omega arith);
              least = λ same. omega arith;
            }) in
        rw (t.hashes_is, t.th_is)
          (
            record {
              th_is = refl;
              size_is = t.size_is;
              hashes_is = refl;
              len = c.len;
              enough = λ i i_lt. enough r c i i_lt;
              bounded = c.bounded;
            },
            λ same often. ground (arith, c.least),
          )

  pub cbf_start-Counts : Counts 0 0 (cbf_start blist_th cnt_size hashes)
  unfolding cbf_start
  cbf_start-Counts = record {
    th_is = refl;
    size_is = refl;
    hashes_is = refl;
    len = length-replicate cnt_size 0;
    enough = λ i i_lt. omega arith;
    bounded = λ k. omega (arith, get_or-replicate {A = ℕ} cnt_size k 0);
  }

  pub cbf_reset-Counts :
      (n total : ℕ) (s : RowBlockerCbf) → Counts n total s → Counts 0 total (cbf_reset s)
  unfolding cbf_reset
  cbf_reset-Counts n total s t = record {
    th_is = t.th_is;
    size_is = t.size_is;
    hashes_is = t.hashes_is;
    len = length-replicate (length s.cnt_table) 0 ∙ t.len;
    enough = λ i i_lt. omega arith;
    bounded = λ k. omega (arith, get_or-replicate {A = ℕ} (length s.cnt_table) k 0);
  }

  pub validate-Counts :
      (n total : ℕ) (valid : Bool) (s : RowBlockerCbf)
      → Counts n total s
      → Counts n total (validate valid s)
  unfolding validate slot
  validate-Counts n total valid s t = record {
    th_is = t.th_is;
    size_is = t.size_is;
    hashes_is = t.hashes_is;
    len = t.len;
    enough = t.enough;
    bounded = t.bounded;
  }
