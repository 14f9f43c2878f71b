-- ===== src/McSim/Graphene/Count.antt =====
-- What the table of class Graphene knows of one row, kept by each activation.
pub mod Find
use row_armor.Base.{
  ℕ, zero, suc, ◌+◌, ◌*◌, ◌-◌, ◌^◌, ◌%◌, ◌<◌, ◌≤◌, ◌≡◌, ◌≢◌, ◌⊎◌, inl, inr, refl, length, set,
  length-set, get_or-set, arith, ◌==◌, if◌then◌else◌, ltb, ◌&&◌, Bool-cases, sym, ap, ◌∙◌,
}
use native.Mathlib.Decide.{ℕ_discrete}
use row_armor.McSim.Graphene.{
  GrapheneEntry, Table, entry_at, empty_entry, swap_up, find_entry, increment_count, counted_table,
  sort_up, count_row,
}
use row_armor.McSim.Graphene.Sort.{
  IsSorted, IsSortedBut, entry_at-swap_up, length-swap_up, sort_up_inv,
}
use row_armor.McSim.Graphene.Sum.{
  count_sum, count_sum-set, count_sum-swap_up, count-le-count_sum, least-le-count_sum,
}

-- Of `total` activations in a table of `size` entries `n` were of the row `a`. If an entry is the
-- row's, it is the only one, and its count is at least `n` and below `limit`; if none is, every
-- count is at least `n`.
pub record Tracks (a limit size n total : ℕ) (es : Table) : Type 0 where
  pub len : length es ≡ size
  pub sum : count_sum es ≡ total
  pub alone :
      (j k : ℕ)
      → j < size
      → k < size
      → (entry_at es j).address ≡ a
      → (entry_at es k).address ≡ a
      → j ≡ k
  pub seen :
      (k : ℕ)
      → k < size
      → (entry_at es k).address ≡ a
      → (n ≤ (entry_at es k).count) × ((entry_at es k).count < limit)
  pub unseen :
      ((k : ℕ) → k < size → (entry_at es k).address ≢ a)
      → (k : ℕ) → k < size
      → n ≤ (entry_at es k).count

module _ (a limit size n total : ℕ) where
  -- Where a swap takes an entry from.
  source : ℕ → ℕ → ℕ
  source i k = if k == i then suc i else if k == suc i then i else k

  entry_at-source :
      (es : Table) (i k : ℕ)
      → suc i < length es
      → entry_at (swap_up es i) k ≡ entry_at es (source i k)
  unfolding source
  entry_at-source es i k h = ground (arith, entry_at-swap_up es i k h)

  source-lt : (i k : ℕ) → suc i < size → k < size → source i k < size
  unfolding source
  source-lt i k h p = ground arith

  source_twice : (i k : ℕ) → source i (source i k) ≡ k
  unfolding source
  source_twice i k = ground arith

  pub swap_up-Tracks :
      (i : ℕ) (es : Table)
      → suc i < length es
      → Tracks a limit size n total es
      → Tracks a limit size n total (swap_up es i)
  swap_up-Tracks i es h t = record {
    len = omega (arith, length-swap_up es i, t.len);
    sum = omega (arith, count_sum-swap_up es i h, t.sum);
    alone = λ j k p q e f.
        let same : source i j ≡ source i k =
          t.alone (source i j) (source i k) (source-lt i j fits p) (source-lt i k fits q)
            (sym (ap (λ x. x.address) (entry_at-source es i j h)) ∙ e)
            (sym (ap (λ x. x.address) (entry_at-source es i k h)) ∙ f) in
        sym (source_twice i j) ∙ ap (source i) same ∙ source_twice i k;
    seen = λ k p e. rw (entry_at-source es i k h) (
        t.seen (source i k) (source-lt i k fits p)
          (sym (ap (λ x. x.address) (entry_at-source es i k h)) ∙ e));
    unseen = λ none k p. rw (entry_at-source es i k h) (
        t.unseen (λ m q e. none (source i m) (source-lt i m fits q) (back m ∙ e)) (source i k)
          (source-lt i k fits p));
  }
    where
      fits : suc i < size
      fits = omega (arith, t.len)

      back : (m : ℕ) → (entry_at (swap_up es i) (source i m)).address ≡ (entry_at es m).address
      back m =
          ap (λ x. x.address) (entry_at-source es i (source i m) h)
          ∙ ap (λ x. (entry_at es x).address) (source_twice i m)

  module _ (es : Table) (t : Tracks a limit size n total es) (d : ℕ) (d_lt : d < size)
      (e : GrapheneEntry) (more : e.count ≡ (entry_at es d).count + 1) where
    entry_at-set : (k : ℕ) → entry_at (set es d e) k ≡ (if d == k then e else entry_at es k)
    entry_at-set k = ground (arith, get_or-set es d k e empty_entry, t.len)

    set-sum : count_sum (set es d e) ≡ total + 1
    set-sum = omega (arith, count_sum-set es d e (omega (arith, t.len)), t.sum)

    -- An activation of the row itself.
    pub set_own-Tracks :
        e.address ≡ a
        → ((k : ℕ) → k < size → k ≢ d → (entry_at es k).address ≢ a)
        → n ≤ (entry_at es d).count
        → e.count < limit
        → Tracks a limit size (n + 1) (total + 1) (set es d e)
    set_own-Tracks own others low high = record {
      len = length-set es d e ∙ t.len;
      sum = set-sum;
      alone = λ j k p q x y. ground (arith, entry_at-set j, entry_at-set k, others j p, others k q);
      seen = λ k p x. ground (arith, entry_at-set k, others k p);
      unseen = λ none k p. absurd (none d d_lt (ground (arith, entry_at-set d)));
    }

    -- An activation of another row.
    pub set_other-Tracks :
        e.address ≢ a
        → ((entry_at es d).address ≡ a
            → (k : ℕ) → k < size
            → (entry_at es d).count ≤ (entry_at es k).count)
        → Tracks a limit size n (total + 1) (set es d e)
    set_other-Tracks other least = record {
      len = length-set es d e ∙ t.len;
      sum = set-sum;
      alone = λ j k p q x y. ground (arith, entry_at-set j, entry_at-set k, t.alone j k p q);
      seen = λ k p x. ground (arith, entry_at-set k, t.seen k p);
      unseen = λ none k p. ground (arith, entry_at-set k, all_low none k p, all_low none d d_lt);
    }
      where
        all_low :
            ((k : ℕ) → k < size → (entry_at (set es d e) k).address ≢ a)
            → (k : ℕ) → k < size
            → n ≤ (entry_at es k).count
        all_low none k p = elim (ℕ_discrete (entry_at es d).address a) [
          | yes own ↦ omega (arith, t.seen d d_lt own, least own k p)
          | no away ↦
              t.unseen
                (λ m q x. elim (ℕ_discrete d m) [
                  | yes same ↦ away (ap (λ y. (entry_at es y).address) same ∙ x)
                  | no apart ↦ none m q (ground (arith, entry_at-set m))
                ])
                k p
        ]
