-- ===== src/McSim/Hydra/Guarantee.antt =====
-- How often class Hydra lets a row be activated without a refresh.
use row_armor.Base.{
  ℕ, ◌+◌, ◌/◌, ◌%◌, ◌^◌, ◌<◌, ◌≤◌, ◌≡◌, ◌≢◌, ltb, leb, ◌==◌, if◌then◌else◌, List, [], ◌∷◌, none,
  some, arith, Bool-cases, Option-cases, inl, inr, ap, sym, ◌∙◌,
}
use native.Mathlib.Decide.{ℕ_discrete}
use row_armor.Base.Word.{inc64}
use row_armor.Base.Tables.{count_or_zero}
use row_armor.McSim.Hydra.{
  HydraConfig, Hydra, row_of, get_gct_idx, hydra_activate_row, count_group, hydra_activate,
  hydra_start, hydra_reset,
}
use row_armor.McSim.Hydra.Update.{IsUpdated, hydra_activate_row-IsUpdated}

-- The activations of a row since its neighbours were last refreshed, after one more activation.
abbrev pub unrefreshed_after : ℕ → ℕ → ℕ → ℕ → ℕ
unrefreshed_after row row' answer c = if row' == row then (if leb 2 answer then 0 else c + 1) else c

-- The same, after some activations.
unfoldable pub unrefreshed : HydraConfig → ℕ → List ℕ → ℕ → Hydra → ℕ
unfolding hydra_activate
unrefreshed p row [] c s = c
unrefreshed p row (address ∷ rest) c s =
    let (s', answer) = hydra_activate p address s in
    unrefreshed p row rest (unrefreshed_after row (row_of p address) answer c) s'

module _ (p : HydraConfig) (row : ℕ) (counts : 0 < p.hydra_gct_threshold)
    (ordered : p.hydra_gct_threshold < p.hydra_rct_threshold)
    (small : p.hydra_rct_threshold < 2 ^ 64) where
  abbrev group : ℕ
  group = row / 2 ^ p.group_base_bit % p.hydra_gct_num_entries

  -- What the two tables say of a row that was activated `c` times since its last refresh.
  record Covers (c : ℕ) (s : Hydra) : Type 0 where
    group_low : count_or_zero (s.gct group) ≤ p.hydra_gct_threshold
    by_group : s.rct row ≡ none → c ≤ count_or_zero (s.gct group)
    by_row :
        (x : ℕ)
        → s.rct row ≡ some x
        → (c ≤ x + 1)
          × (x < p.hydra_rct_threshold)
          × (p.hydra_gct_threshold ≤ count_or_zero (s.gct group))

  Covers-le : (c : ℕ) (s : Hydra) → Covers c s → c ≤ p.hydra_rct_threshold
  Covers-le c s v = elim (Option-cases (s.rct row)) [
    | inl e ↦ omega (arith, v.by_group e, v.group_low)
    | inr (x, e) ↦ omega (arith, v.by_row x e)
  ]

  count_group-Covers :
      (g n c c' : ℕ) (s : Hydra)
      → Covers c s
      → (g ≢ group → c' ≤ c)
      → (g ≡ group → (c' ≤ c + 1) × (n ≡ count_or_zero (s.gct g) + 1) × (n ≤ p.hydra_gct_threshold))
      → Covers c' (count_group g n s)
  unfolding count_group
  count_group-Covers g n c c' s v other own = elim (ℕ_discrete g group) [
    | yes same ↦
        let (grown, next, low) = own same in
        record {
          group_low = ground (arith, same);
          by_group = λ e. ground (arith, v.by_group e, same);
          by_row = λ x e. absurd (ground (arith, v.by_row x e, same));
        }
    | no apart ↦
        let kept : count_or_zero ((count_group g n s).gct group) ≡ count_or_zero (s.gct group) =
          ground arith in
        let less = other apart in
        record {
          group_low = rw kept v.group_low;
          by_group = λ e. omega (arith, kept, v.by_group e);
          by_row = λ x e. omega (arith, kept, v.by_row x e);
        }
  ]

  row-Covers :
      (x c c' : ℕ) (s s' : Hydra)
      → Covers c s
      → p.hydra_gct_threshold ≤ count_or_zero (s.gct group)
      → s'.gct ≡ s.gct
      → s'.rct row ≡ some x
      → x < p.hydra_rct_threshold
      → c' ≤ x + 1
      → Covers c' s'
  row-Covers x c c' s s' v full tables e x_lt low =
      let same : s'.gct group ≡ s.gct group = ap (λ f. f group) tables in
      record {
        group_low = rw same v.group_low;
        by_group = λ none. absurd (ground arith);
        by_row = λ y e'. let xy : x ≡ y = ground arith in rw (same, ← xy) (low, x_lt, full);
      }

  IsUpdated-Covers :
      (r answer c : ℕ) (s s' : Hydra)
      → Covers c s
      → (r ≡ row → p.hydra_gct_threshold ≤ count_or_zero (s.gct group))
      → IsUpdated p row small r s s' answer
      → Covers (unrefreshed_after row r answer c) s'
  IsUpdated-Covers r answer c s s' v full (tables, other, first, more) = elim (ℕ_discrete r row) [
    | no apart ↦
        let same : s'.gct group ≡ s.gct group = ap (λ f. f group) tables in
        let same_c : unrefreshed_after row r answer c ≡ c = ground arith in
        record {
          group_low = rw same v.group_low;
          by_group = λ e. rw (same, same_c) (v.by_group (sym (other apart) ∙ e));
          by_row = λ x e. rw (same, same_c) (v.by_row x (sym (other apart) ∙ e));
        }
    | yes own ↦ elim (Option-cases (s.rct row)) [
      | inl e ↦
          row-Covers p.hydra_gct_threshold c (unrefreshed_after row r answer c) s s' v (full own)
            tables (first own e) ordered (ground (arith, own, v.by_group e, v.group_low))
      | inr (x, e) ↦
          let (low, x_lt, _) = v.by_row x e in
          elim (more own x e x_lt) [
            | inl (two, cleared) ↦
                row-Covers 0 c (unrefreshed_after row r answer c) s s' v (full own) tables cleared
                  (omega arith) (ground (arith, own))
            | inr (next_lt, next) ↦
                row-Covers (x + 1) c (unrefreshed_after row r answer c) s s' v (full own) tables
                  next next_lt (ground (arith, own))
          ]
    ]
  ]

  abbrev group_of : ℕ → ℕ
  group_of address = get_gct_idx p address % p.hydra_gct_num_entries

  group_of-own : (address : ℕ) → row_of p address ≡ row → group_of address ≡ group
  unfolding get_gct_idx
  group_of-own address own = ap (λ r. r / 2 ^ p.group_base_bit % p.hydra_gct_num_entries) own

  hydra_activate-Covers :
      (address c : ℕ) (s : Hydra)
      → Covers c s
      → let r = hydra_activate p address s in
        Covers (unrefreshed_after row (row_of p address) r.1 c) r.0
  unfolding hydra_activate get_gct_idx inc64
  hydra_activate-Covers address c s v = elim (Option-cases (s.gct (group_of address))) [
    | inl e ↦
        rw (hydra_activate, e)
          (count_group-Covers (group_of address) 1 c (unrefreshed_after row (row_of p address) 0 c)
            s v (λ apart. ground (arith, group_of-own address))
            (λ own. (ground arith, ground (arith, e), counts)))
    | inr (x, e) ↦ elim (Bool-cases (ltb x p.hydra_gct_threshold)) [
      | inl below ↦
          rw (hydra_activate, e, below)
            (count_group-Covers (group_of address) (inc64 x) c
              (unrefreshed_after row (row_of p address) 0 c) s v
              (λ apart. ground (arith, group_of-own address))
              (λ own. (ground arith, ground (arith, e), ground arith)))
      | inr full ↦
          rw (hydra_activate, e, full)
            (IsUpdated-Covers (row_of p address) (hydra_activate_row p address s).1 c s
              (hydra_activate_row p address s).0 v
              (λ own. ground (arith, group_of-own address own, e))
              (hydra_activate_row-IsUpdated p row small address s))
    ]
  ]

  unrefreshed-le :
      (addresses : List ℕ) (c : ℕ) (s : Hydra)
      → Covers c s
      → unrefreshed p row addresses c s ≤ p.hydra_rct_threshold
  unfolding unrefreshed
  unrefreshed-le [] c s v = Covers-le c s v
  unrefreshed-le (address ∷ rest) c s v =
      unrefreshed-le rest
        (unrefreshed_after row (row_of p address) (hydra_activate p address s).1 c)
        (hydra_activate p address s).0 (hydra_activate-Covers address c s v)

  hydra_start-Covers : Covers 0 (hydra_start p)
  unfolding hydra_start
  hydra_start-Covers = record {
    group_low = ground arith;
    by_group = λ e. omega arith;
    by_row = λ x e. absurd (ground arith);
  }

  hydra_reset-Covers : (s : Hydra) → Covers 0 (hydra_reset p s)
  unfolding hydra_reset
  hydra_reset-Covers s = record {
    group_low = ground arith;
    by_group = λ e. omega arith;
    by_row = λ x e. absurd (ground arith);
  }

-- Hydra's guarantee: from the constructor on, and from a reset on, whatever addresses are
-- activated, no row is activated more often than the threshold of the row counters without a
-- refresh of its neighbours in between. The group threshold is positive and below that threshold,
-- which fits in 64 bits.
pub hydra_guarantee :
    (p : HydraConfig) (row : ℕ) (s : Hydra) (addresses : List ℕ)
    → 0 < p.hydra_gct_threshold
    → p.hydra_gct_threshold < p.hydra_rct_threshold
    → p.hydra_rct_threshold < 2 ^ 64
    → (unrefreshed p row addresses 0 (hydra_start p) ≤ p.hydra_rct_threshold)
      × (unrefreshed p row addresses 0 (hydra_reset p s) ≤ p.hydra_rct_threshold)
hydra_guarantee p row s addresses counts ordered small = (
  unrefreshed-le p row counts ordered small addresses 0 (hydra_start p)
      (hydra_start-Covers p row counts ordered small),
  unrefreshed-le p row counts ordered small addresses 0 (hydra_reset p s)
      (hydra_reset-Covers p row counts ordered small s),
)
