-- ===== src/McSim/Graphene/Sum.antt =====
-- The sum of the counters of class Graphene.
use row_armor.Base.{
  ℕ, zero, suc, ◌+◌, ◌*◌, ◌<◌, ◌≤◌, ◌≡◌, refl, [], ◌∷◌, length, set, length-set, get_or-set, arith,
}
use row_armor.McSim.Graphene.{GrapheneEntry, Table, entry_at, empty_entry, swap_up, flush}

pub count_sum : Table → ℕ
count_sum [] = 0
count_sum (e ∷ es) = e.count + count_sum es

pub count_sum-set :
    (es : Table) (i : ℕ) (e : GrapheneEntry)
    → i < length es
    → count_sum (set es i e) + (entry_at es i).count ≡ count_sum es + e.count
unfolding count_sum
count_sum-set [] i e h = absurd (omega arith)
count_sum-set (x ∷ es) zero e h = omega arith
count_sum-set (x ∷ es) (suc i) e h = omega (arith, count_sum-set es i e (omega arith))

pub count_sum-swap_up :
    (es : Table) (i : ℕ) → suc i < length es → count_sum (swap_up es i) ≡ count_sum es
unfolding swap_up
count_sum-swap_up es i h = ground (
  arith,
  count_sum-set (set es (suc i) (entry_at es i)) i (entry_at es (suc i)),
  count_sum-set es (suc i) (entry_at es i) h,
  length-set es (suc i) (entry_at es i),
  get_or-set es (suc i) i (entry_at es i) empty_entry,
)

pub count-le-count_sum : (es : Table) (i : ℕ) → i < length es → (entry_at es i).count ≤ count_sum es
unfolding count_sum
count-le-count_sum [] i h = absurd (omega arith)
count-le-count_sum (x ∷ es) zero h = omega arith
count-le-count_sum (x ∷ es) (suc i) h = omega (arith, count-le-count_sum es i (omega arith))

-- A count that none is below, as often as there are entries.
pub least-le-count_sum :
    (es : Table) (least : ℕ)
    → ((i : ℕ) → i < length es → least ≤ (entry_at es i).count)
    → least * length es ≤ count_sum es
unfolding count_sum
least-le-count_sum [] least h = grind arith
least-le-count_sum (x ∷ es) least h =
    grind (arith, h 0 (omega arith), least-le-count_sum es least (λ i p. h (suc i) (omega arith)))

pub count_sum-flush : (size : ℕ) → count_sum (flush size) ≡ 0
unfolding count_sum flush
count_sum-flush zero = refl
count_sum-flush (suc size) = omega (arith, count_sum-flush size)
