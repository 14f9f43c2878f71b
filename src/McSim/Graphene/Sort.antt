-- ===== src/McSim/Graphene/Sort.antt =====
-- The loop of class Graphene that keeps the counters in order.
use row_armor.Base.{
  ℕ, zero, suc, ◌<◌, ◌≤◌, ◌≡◌, ◌≢◌, leb, ◌==◌, Bool-cases, inl, inr, length, get_or-set, length-set,
  set, arith, ◌∙◌, if◌then◌else◌,
}
use row_armor.McSim.Graphene.{Table, entry_at, empty_entry, swap_up, sort_up}

-- The counts fall along the table, but for the entry at `i`, which may be too large for its place.
abbrev pub IsSortedBut : ℕ → Table → Type 0
IsSortedBut i es =
    (j k : ℕ) → j < k → k < length es → k ≢ i → (entry_at es k).count ≤ (entry_at es j).count

abbrev pub IsSorted : Table → Type 0
IsSorted es = (j k : ℕ) → j < k → k < length es → (entry_at es k).count ≤ (entry_at es j).count

pub entry_at-swap_up :
    (es : Table) (i k : ℕ)
    → suc i < length es
    → entry_at (swap_up es i) k ≡ (
        if k == i then entry_at es (suc i) else if k == suc i then entry_at es i else entry_at es k)
unfolding swap_up
entry_at-swap_up es i k h = ground (
  arith,
  get_or-set (set es (suc i) (entry_at es i)) i k (entry_at es (suc i)) empty_entry,
  get_or-set es (suc i) k (entry_at es i) empty_entry,
  length-set es (suc i) (entry_at es i),
)

pub length-swap_up : (es : Table) (i : ℕ) → length (swap_up es i) ≡ length es
unfolding swap_up
length-swap_up es i =
    length-set (set es (suc i) (entry_at es i)) i (entry_at es (suc i))
    ∙ length-set es (suc i) (entry_at es i)

swap_up-IsSortedBut :
    (es : Table) (i : ℕ)
    → suc i < length es
    → IsSortedBut (suc i) es
    → (entry_at es i).count < (entry_at es (suc i)).count
    → IsSortedBut i (swap_up es i)
swap_up-IsSortedBut es i h sorted more j k jk kn ki = ground (
  arith,
  entry_at-swap_up es i k h,
  entry_at-swap_up es i j h,
  length-swap_up es i,
  sorted j i,
  sorted j k,
  sorted i k,
  sorted (suc i) k,
)

-- What the loop keeps, if each of its swaps does, holds in the end, when the table is in order; the
-- entry that was moved is at the place that is given back.
pub sort_up_inv {ℓ} :
    (P : ℕ → Table → Type ℓ)
    → ((i : ℕ) (es : Table) → suc i < length es → P (suc i) es → P i (swap_up es i))
    → (i : ℕ) (es : Table) → i < length es
    → IsSortedBut i es
    → P i es
    → P (sort_up i es).1 (sort_up i es).0
      × IsSorted (sort_up i es).0
      × ((sort_up i es).1 < length (sort_up i es).0)
unfolding sort_up
sort_up_inv P keep zero es h sorted p = (p, λ j k jk kn. sorted j k jk kn (omega arith), h)
sort_up_inv P keep (suc i) es h sorted p =
    elim (Bool-cases (leb (entry_at es (suc i)).count (entry_at es i).count)) [
      | inl stays ↦ rw stays (p, in_order (ground arith), h)
      | inr moves ↦ rw moves (
          sort_up_inv P keep i (swap_up es i) (omega (arith, length-swap_up es i))
            (swap_up-IsSortedBut es i h sorted (ground arith)) (keep i es h p))
    ]
  where
    in_order : (entry_at es (suc i)).count ≤ (entry_at es i).count → IsSorted es
    in_order low j k jk kn = ground (arith, sorted j k jk kn, sorted j i)
