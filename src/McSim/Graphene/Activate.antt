-- ===== src/McSim/Graphene/Activate.antt =====
-- One activation counts on the table of class Graphene.
use row_armor.Base.{
  ℕ, suc, ◌+◌, ◌*◌, ◌-◌, ◌^◌, ◌<◌, ◌≤◌, ◌≡◌, ◌≢◌, ◌⊎◌, inl, inr, refl, length, set, length-set,
  get_or-set, arith, ◌==◌, if◌then◌else◌, sym, ap, ◌∙◌, true, false, subst,
}
use native.Mathlib.Decide.{ℕ_discrete, dec_lt}
use row_armor.McSim.Graphene.{
  GrapheneEntry, Table, entry_at, empty_entry, swap_up, find_entry, increment_count, counted_table,
  sort_up, count_row,
}
use row_armor.McSim.Graphene.Sort.{IsSorted, IsSortedBut, entry_at-swap_up, sort_up_inv}
use row_armor.McSim.Graphene.Sum.{count_sum, count-le-count_sum, least-le-count_sum}
use row_armor.McSim.Graphene.Count.{Tracks, swap_up-Tracks, set_own-Tracks, set_other-Tracks}
use row_armor.McSim.Graphene.Count.Find.{find_entry_lem}

==_self : (k : ℕ) → (k == k) ≡ true
==_self k = ground arith

swap_up-top :
    (es : Table) (i : ℕ) → suc i < length es → entry_at (swap_up es i) i ≡ entry_at es (suc i)
swap_up-top es i h = ground (arith, entry_at-swap_up es i i h)

-- The number of activations of `a` after one more, of `addr`.
abbrev pub seen_after : ℕ → ℕ → ℕ → ℕ
seen_after a addr n = if addr == a then n + 1 else n

-- The row `a` reaches the limit, or the table goes on to track it.
abbrev pub Outcome : ℕ → ℕ → ℕ → ℕ → ℕ → ℕ → Table → ℕ → Type 0
Outcome a limit size n total addr es count =
    ((addr ≡ a) × (count ≡ limit)) ⊎ Tracks a limit size (seen_after a addr n) (total + 1) es

module _ (a limit size n total : ℕ) (es : Table) (t : Tracks a limit size n total es)
    (sorted : IsSorted es) (some_entry : 0 < size) (few : total < limit * size)
    (small : total + 1 < 2 ^ 64) (addr : ℕ) where
  -- The entry that is counted on stands at `d`, with the address of the row.
  record IsCounted (d : ℕ) (es' : Table) : Type 0 where
    inside : d < size
    len : length es' ≡ size
    row : (entry_at es' d).address ≡ addr
    sorted' : IsSortedBut d es'
    outcome : Outcome a limit size n total addr es' (entry_at es' d).count

  counted-IsSortedBut :
      (d : ℕ) (e : GrapheneEntry)
      → d < size
      → (entry_at es d).count ≤ e.count
      → IsSortedBut d (set es d e)
  counted-IsSortedBut d e d_lt grown j k jk k_lt apart = ground (
    arith,
    get_or-set es d j e empty_entry,
    get_or-set es d k e empty_entry,
    length-set es d e,
    sorted j k jk,
  )

  -- The entry at `d` gets the address and counts one more.
  bump : ℕ → GrapheneEntry
  bump d = record { address = addr; count = (entry_at es d).count + 1 }

  least_last : (k : ℕ) → k < size → (entry_at es (size - 1)).count ≤ (entry_at es k).count
  least_last k k_lt = elim (dec_lt k (size - 1)) [
    | yes below ↦ sorted k (size - 1) below (omega (arith, t.len))
    | no last ↦ let same : k ≡ size - 1 = omega arith in rw same (omega arith)
  ]

  -- The last count is below the limit, as so few activations do not fill the table.
  last_low : (entry_at es (size - 1)).count < limit
  last_low = elim (dec_lt (entry_at es (size - 1)).count limit) [
    | yes low ↦ low
    | no high ↦
        let filled : (entry_at es (size - 1)).count * length es ≤ count_sum es =
          least-le-count_sum es (entry_at es (size - 1)).count
            (λ i p. least_last i (omega (arith, t.len))) in
        absurd (grind (arith, t.len, t.sum, filled))
  ]

  bump-IsCounted :
      (d : ℕ)
      → d < size
      → ((k : ℕ) → k < size → k ≢ d → addr ≡ a → (entry_at es k).address ≢ a)
      → (addr ≡ a → (n ≤ (entry_at es d).count) × ((entry_at es d).count < limit))
      → (addr ≢ a
          → (entry_at es d).address ≡ a
          → (k : ℕ) → k < size
          → (entry_at es d).count ≤ (entry_at es k).count)
      → IsCounted d (set es d (bump d))
  unfolding bump
  bump-IsCounted d d_lt others own least = record {
    inside = d_lt;
    len = length-set es d (bump d) ∙ t.len;
    row = ap (λ x. x.address) at_d;
    sorted' = counted-IsSortedBut d (bump d) d_lt (omega arith);
    outcome = rw at_d (elim (ℕ_discrete addr a) [
      | yes same ↦ elim (ℕ_discrete ((entry_at es d).count + 1) limit) [
        | yes full ↦ inl (same, full)
        | no more ↦ inr (
            rw (own_count same) (
              set_own-Tracks a limit size n total es t d d_lt (bump d) refl same
                (λ k p q. others k p q same) (own same).0 (own_low same more)))
      ]
      | no away ↦ inr (
          rw (other_count away)
            (set_other-Tracks a limit size n total es t d d_lt (bump d) refl away (least away)))
    ]);
  }
    where
      at_d : entry_at (set es d (bump d)) d ≡ bump d
      at_d = ground (arith, get_or-set es d d (bump d) empty_entry, t.len)

      own_count : addr ≡ a → seen_after a addr n ≡ n + 1
      own_count same = ground arith

      other_count : addr ≢ a → seen_after a addr n ≡ n
      other_count away = ground arith

      own_low : addr ≡ a → (entry_at es d).count + 1 ≢ limit → (entry_at es d).count + 1 < limit
      own_low same more = omega (arith, own same)

  increment_lem :
      (d : ℕ) (e : GrapheneEntry)
      → d < size
      → e.address ≡ addr
      → e.count ≡ (entry_at es d).count
      → increment_count e ≡ bump d
  unfolding increment_count bump
  increment_lem d e d_lt own same =
      let bound = count-le-count_sum es d (omega (arith, t.len)) in ground (arith, t.sum)

  counted_table-IsCounted : IsCounted (counted_table es addr).1 (counted_table es addr).0
  unfolding counted_table
  counted_table-IsCounted = elim (find_entry_lem es addr) [
    | inl (inside, own) ↦
        let i = find_entry es addr in
        let miss : (i == length es) ≡ false = ground arith in
        let i_lt : i < size = omega (arith, t.len) in
        rw (miss, increment_lem i (entry_at es i) i_lt own refl)
          (bump-IsCounted i i_lt (λ k p q same x. q (t.alone k i p i_lt x (own ∙ same)))
            (λ same. t.seen i i_lt (own ∙ same)) (λ away x. absurd (away (sym own ∙ x))))
    | inr (missing, none) ↦
        let last = size - 1 in
        let all_others : addr ≡ a → (k : ℕ) → k < size → (entry_at es k).address ≢ a =
          λ same k p x. none k (omega (arith, t.len)) (x ∙ sym same) in
        rw
          (
            missing,
            ==_self (length es),
            t.len,
            increment_lem last (record (entry_at es last) { address = addr }) (omega arith) refl
                refl,
          )
          (bump-IsCounted last (omega arith) (λ k p q same. all_others same k p)
            (λ same. (t.unseen (all_others same) last (omega arith), last_low))
            (λ away x k p. least_last k p))
  ]

  -- What the loop that sorts keeps of the entry that it moves.
  abbrev IsMoving : ℕ → ℕ → Table → Type 0
  IsMoving count i es' =
      ((entry_at es' i).count ≡ count) × Outcome a limit size n total addr es' count

  IsMoving-swap_up :
      {count : ℕ} (i : ℕ) (es' : Table)
      → suc i < length es'
      → IsMoving count (suc i) es'
      → IsMoving count i (swap_up es' i)
  IsMoving-swap_up i es' h (same, inl full) =
      (ap (λ x. x.count) (swap_up-top es' i h) ∙ same, inl full)
  IsMoving-swap_up i es' h (same, inr tracked) = (
    ap (λ x. x.count) (swap_up-top es' i h) ∙ same,
    inr (swap_up-Tracks a limit size (seen_after a addr n) (total + 1) i es' h tracked),
  )

  -- After an activation the table is in order, and the row is tracked unless it reached the limit.
  pub count_row-Outcome :
      let r = count_row es addr in Outcome a limit size n total addr r.0 r.1 × IsSorted r.0
  unfolding count_row
  count_row-Outcome =
      let (es1, d) = counted_table es addr in
      let counted = counted_table-IsCounted in
      let (kept, in_order, inside) =
        sort_up_inv (IsMoving (entry_at es1 d).count) IsMoving-swap_up d es1
          (omega (arith, counted.inside, counted.len)) counted.sorted' (refl, counted.outcome) in
      (subst (Outcome a limit size n total addr (sort_up d es1).0) (sym kept.0) kept.1, in_order)
