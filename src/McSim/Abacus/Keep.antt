-- ===== src/McSim/Abacus/Keep.antt =====
-- What the entries of class ABACuS say of the activations of one row in one bank.
use row_armor.Base.{
  ℕ, ◌+◌, ◌%◌, ◌^◌, ◌<◌, ◌≤◌, ◌≡◌, ◌≢◌, ◌⊎◌, inl, inr, refl, ap, sym, ◌∙◌, length, set, get_or-set,
  length-set, length-replicate, get_or-replicate, replicate, arith, ◌==◌, ◌&&◌, if◌then◌else◌, List,
  Bool, true, false, Bool-cases,
}
use native.Mathlib.Decide.{ℕ_discrete}
use row_armor.Base.Word.{inc64}
use row_armor.McSim.Abacus.{AbacusEntry, reset_entry, entry_at, counted_entry}
use row_armor.McSim.Abacus.Bits.{test_bit, test_bit-add, test_bit-pow, add_bit-lt, pow-lt}

-- Whether the counter is ahead of the bank: its bit is not set.
abbrev pub spare : Bool → ℕ
spare true = 0
spare false = 1

-- The activations of the row `a` in the bank `b` after one of `row` in `bank`.
abbrev pub count_if : ℕ → ℕ → ℕ → ℕ → ℕ → ℕ
count_if a b row bank c = if (row == a) && (bank == b) then c + 1 else c

pub counted_entry_lem :
    (b bank c : ℕ) (e : AbacusEntry)
    → bank < 64
    → e.sav < 2 ^ 64
    → e.rac + 1 < 2 ^ 64
    → let e' = counted_entry bank e in
      (e'.row_id ≡ e.row_id)
      × (e.rac ≤ e'.rac)
      × (e'.rac ≤ e.rac + 1)
      × (e'.sav < 2 ^ 64)
      × (c + spare (test_bit b e.sav) ≤ e.rac
          → (if bank == b then c + 1 else c) + spare (test_bit b e'.sav) ≤ e'.rac)
unfolding counted_entry inc64
counted_entry_lem b bank c e bank_lt sav_lt rac_lt =
    let one_lt = pow-lt bank 64 bank_lt in
    let one : 2 ^ bank % 2 ^ 64 ≡ 2 ^ bank = omega arith in
    elim (Bool-cases (test_bit bank e.sav)) [
      | inl set_bit ↦
          rw (counted_entry, set_bit, one)
            (
              refl,
              ground arith,
              ground arith,
              omega arith,
              λ h. ground (arith, test_bit-pow b bank),
            )
      | inr clear ↦
          let fits = add_bit-lt 64 bank e.sav bank_lt sav_lt clear in
          let sum : (e.sav + 2 ^ bank) % 2 ^ 64 ≡ e.sav + 2 ^ bank = omega arith in
          rw (counted_entry, clear, one, sum)
            (
              refl,
              omega arith,
              omega arith,
              fits,
              λ h. ground (arith, test_bit-add b bank e.sav clear),
            )
    ]

module _ (a b prt rct size : ℕ) (real : a ≢ 0) where
  -- Of `c` activations since the last refresh; `sp` is the spillover counter.
  pub record Keeps (c sp : ℕ) (es : List AbacusEntry) : Type 0 where
    pub len : length es ≡ size
    pub spill : sp < rct
    pub each : (k : ℕ) → k < size → ((entry_at es k).rac < prt) × ((entry_at es k).sav < 2 ^ 64)
    pub alone :
        (j k : ℕ)
        → j < size
        → k < size
        → (entry_at es j).row_id ≡ a
        → (entry_at es k).row_id ≡ a
        → j ≡ k
    pub seen :
        (k : ℕ)
        → k < size
        → (entry_at es k).row_id ≡ a
        → c + spare (test_bit b (entry_at es k).sav) ≤ (entry_at es k).rac
    pub unseen : ((k : ℕ) → k < size → (entry_at es k).row_id ≢ a) → c ≤ sp
    pub low :
        ((k : ℕ) → k < size → sp ≤ (entry_at es k).rac)
        ⊎ ((c ≡ 0) × ((k : ℕ) → k < size → (entry_at es k).row_id ≡ 0))

  pub reset-Keeps : (sp : ℕ) → sp < rct → 0 < prt → Keeps 0 sp (replicate size reset_entry)
  unfolding reset_entry
  reset-Keeps sp spill pos = record {
    len = length-replicate size reset_entry;
    spill = spill;
    each = λ k k_lt. ground (arith, get_or-replicate size k reset_entry);
    alone = λ j k p q x y.
        absurd (real (sym x ∙ ap (λ e. e.row_id) (get_or-replicate size j reset_entry)));
    seen =
        λ k p x. absurd (real (sym x ∙ ap (λ e. e.row_id) (get_or-replicate size k reset_entry)));
    unseen = λ none. omega arith;
    low = inr (refl, λ k p. ap (λ e. e.row_id) (get_or-replicate size k reset_entry));
  }

  module _ (c sp : ℕ) (es : List AbacusEntry) (t : Keeps c sp es) (d : ℕ) (d_lt : d < size)
      (e : AbacusEntry) (rac_lt : e.rac < prt) (sav_lt : e.sav < 2 ^ 64) (c' : ℕ) where
    entry_at-set : (k : ℕ) → entry_at (set es d e) k ≡ (if d == k then e else entry_at es k)
    entry_at-set k = ground (arith, get_or-set es d k e reset_entry, t.len)

    pub set-Keeps :
        (e.row_id ≡ a
          → ((k : ℕ) → k < size → k ≢ d → (entry_at es k).row_id ≢ a)
            × (c' + spare (test_bit b e.sav) ≤ e.rac))
        → (e.row_id ≢ a → (c' ≤ c) × ((entry_at es d).row_id ≡ a → c' ≤ sp))
        → (((k : ℕ) → k < size → sp ≤ (entry_at es k).rac) × (sp ≤ e.rac))
          ⊎ ((c' ≡ 0) × (e.row_id ≡ 0) × ((k : ℕ) → k < size → (entry_at es k).row_id ≡ 0))
        → Keeps c' sp (set es d e)
    set-Keeps own other low = record {
      len = length-set es d e ∙ t.len;
      spill = t.spill;
      each = λ k k_lt. ground (arith, entry_at-set k, t.each k k_lt);
      alone = λ j k p q x y.
          ground (arith, entry_at-set j, entry_at-set k, t.alone j k p q, others j p, others k q);
      seen = λ k p x. ground (arith, entry_at-set k, others k p, other, t.seen k p);
      unseen = λ none.
          let away : e.row_id ≢ a = λ x. none d d_lt (ground (arith, entry_at-set d)) in
          let (less, gone) = other away in
          elim (ℕ_discrete (entry_at es d).row_id a) [
            | yes tracked ↦ gone tracked
            | no apart ↦
                let untracked = t.unseen (λ k p x. elim (ℕ_discrete d k) [
                  | yes same ↦ apart (ap (λ y. (entry_at es y).row_id) same ∙ x)
                  | no ne ↦ none k p (ground (arith, entry_at-set k))
                ]) in
                omega arith
          ];
      low = elim low [
        | inl (all, new) ↦ inl (λ k p. ground (arith, entry_at-set k, all k p))
        | inr (c_zero, new, all) ↦ inr (c_zero, λ k p. ground (arith, entry_at-set k, all k p))
      ];
    }
      where
        others : (k : ℕ) → k < size → k ≢ d → e.row_id ≡ a → (entry_at es k).row_id ≢ a
        others k p ne same = (own same).0 k p ne
