-- ===== src/McSim/Graphene/Guarantee.antt =====
-- What the table of class Graphene guarantees: no row is activated too often without an answer.
use row_armor.Base.{
  ℕ, ◌+◌, ◌*◌, ◌^◌, ◌<◌, ◌≤◌, ◌≡◌, ◌≢◌, ◌⊎◌, inl, inr, length, length-replicate, get_or-replicate,
  arith, ◌==◌, ◌&&◌, if◌then◌else◌, List, [], ◌∷◌, sym, ap, ◌∙◌,
}
use native.Mathlib.Decide.{dec_lt}
use native.Mathlib.Nat.{mod_self}
use row_armor.McSim.Graphene.{
  Table, find_entry, entry_at, empty_entry, count_row, flush, graphene_activate, update_hrt,
}
use row_armor.McSim.Graphene.Sort.{IsSorted}
use row_armor.McSim.Graphene.Sum.{count_sum, count_sum-flush, least-le-count_sum}
use row_armor.McSim.Graphene.Count.{Tracks}
use row_armor.McSim.Graphene.Count.Find.{find_entry_lem}
use row_armor.McSim.Graphene.Activate.{seen_after, count_row-Outcome}

-- How often the row `a` is activated.
abbrev pub activations : ℕ → List ℕ → ℕ
activations a [] = 0
activations a (addr ∷ rows) = (if addr == a then 1 else 0) + activations a rows

-- How often activations of the row `a` are answered by 1.
unfoldable pub refreshes : ℕ → ℕ → Table → List ℕ → ℕ
unfolding graphene_activate
refreshes threshold a es [] = 0
refreshes threshold a es (addr ∷ rows) =
    let (es', answer) = graphene_activate threshold es addr in
    (if addr == a then answer else 0) + refreshes threshold a es' rows

-- How often activations of the row `a` are answered by a swap.
unfoldable pub swaps : ℕ → ℕ → Table → List ℕ → ℕ
unfolding update_hrt
swaps threshold a es [] = 0
swaps threshold a es (addr ∷ rows) =
    let (es', answer) = update_hrt threshold es addr in
    (if (addr == a) && answer then 1 else 0) + swaps threshold a es' rows

flush-Tracks : (a limit size : ℕ) → a ≢ 2 ^ 62 → 0 < limit → Tracks a limit size 0 0 (flush size)
unfolding flush
flush-Tracks a limit size other limit_pos = record {
  len = length-replicate size empty_entry;
  sum = unfold flush in count_sum-flush size;
  alone = λ j k p q x y. absurd (away j x);
  seen = λ k p x. absurd (away k x);
  unseen = λ none k p. omega arith;
}
  where
    away : (k : ℕ) → (entry_at (flush size) k).address ≢ a
    away k x = other (sym x ∙ ap (λ y. y.address) (get_or-replicate size k empty_entry))

flush-IsSorted : (size : ℕ) → IsSorted (flush size)
unfolding flush
flush-IsSorted size j k jk h =
    rw (get_or-replicate size j empty_entry, get_or-replicate size k empty_entry) (omega arith)

-- A tracked row has been activated fewer times than the limit.
Tracks-lt :
    (a limit size n total : ℕ) (es : Table)
    → Tracks a limit size n total es
    → total < limit * size
    → n < limit
Tracks-lt a limit size n total es t few = elim (find_entry_lem es a) [
  | inl (inside, own) ↦ omega (arith, t.seen (find_entry es a) (omega (arith, t.len)) own)
  | inr (missing, none) ↦
      let low : n * length es ≤ count_sum es =
        least-le-count_sum es n
          (λ i p. t.unseen (λ k q. none k (omega (arith, t.len))) i (omega (arith, t.len))) in
      elim (dec_lt n limit) [
        | yes below ↦ below
        | no high ↦ absurd (grind (arith, t.len, t.sum, low))
      ]
]

module _ (a limit size : ℕ) (some_entry : 0 < size) (limit_pos : 0 < limit) where
  -- The answers of a table that tracks the row, whatever is activated next.
  record IsWatched (n total : ℕ) (es : Table) (rows : List ℕ) : Type 0 where
    tracks : Tracks a limit size n total es
    sorted : IsSorted es
    few : total + length rows < limit * size
    small : total + length rows < 2 ^ 64
    often : limit ≤ n + activations a rows

  after-IsWatched :
      (n total addr : ℕ) (es : Table) (rows : List ℕ)
      → IsWatched n total es (addr ∷ rows)
      → let r = count_row es addr in
        ((addr ≡ a) × (r.1 ≡ limit)) ⊎ IsWatched (seen_after a addr n) (total + 1) r.0 rows
  after-IsWatched n total addr es rows w =
      let (outcome, in_order) =
        count_row-Outcome a limit size n total es w.tracks w.sorted some_entry
          (omega (arith, w.few)) (omega (arith, w.small)) addr in
      elim outcome [
        | inl full ↦ inl full
        | inr tracked ↦ inr (record {
          tracks = tracked;
          sorted = in_order;
          few = omega (arith, w.few);
          small = omega (arith, w.small);
          often = ground (arith, w.often);
        })
      ]

  refreshes_pos :
      (n total : ℕ) (es : Table) (rows : List ℕ)
      → IsWatched n total es rows
      → 0 < refreshes limit a es rows
  unfolding refreshes
  refreshes_pos n total es [] w =
      absurd
        (omega (arith, w.often, Tracks-lt a limit size n total es w.tracks (omega (arith, w.few))))
  refreshes_pos n total es (addr ∷ rows) w = elim (after-IsWatched n total addr es rows w) [
    | inl (same, full) ↦ ground (arith, mod_self limit)
    | inr next ↦
        let later =
          refreshes_pos (seen_after a addr n) (total + 1) (count_row es addr).0 rows next in
        omega arith
  ]

  swaps_pos :
      (n total : ℕ) (es : Table) (rows : List ℕ)
      → IsWatched n total es rows
      → 0 < swaps limit a es rows
  unfolding swaps
  swaps_pos n total es [] w =
      absurd
        (omega (arith, w.often, Tracks-lt a limit size n total es w.tracks (omega (arith, w.few))))
  swaps_pos n total es (addr ∷ rows) w = elim (after-IsWatched n total addr es rows w) [
    | inl (same, full) ↦ ground (arith, mod_self limit)
    | inr next ↦
        let later = swaps_pos (seen_after a addr n) (total + 1) (count_row es addr).0 rows next in
        omega arith
  ]

  start-IsWatched :
      (rows : List ℕ)
      → a ≢ 2 ^ 62
      → length rows < limit * size
      → length rows < 2 ^ 64
      → limit ≤ activations a rows
      → IsWatched 0 0 (flush size) rows
  start-IsWatched rows other few small often = record {
    tracks = flush-Tracks a limit size other limit_pos;
    sorted = flush-IsSorted size;
    few = omega arith;
    small = omega arith;
    often = omega arith;
  }

-- Graphene's guarantee: from a flush on, while fewer rows are activated than the threshold times
-- the number of entries (and fewer than 2 ^ 64), no row but the address of an empty entry is
-- activated as often as the threshold without one of its activations asking for a refresh.
pub graphene_guarantee :
    (a threshold size : ℕ) (rows : List ℕ)
    → 0 < size
    → 0 < threshold
    → a ≢ 2 ^ 62
    → length rows < threshold * size
    → length rows < 2 ^ 64
    → threshold ≤ activations a rows
    → 0 < refreshes threshold a (flush size) rows
graphene_guarantee a threshold size rows some_entry pos other few small often =
    refreshes_pos a threshold size some_entry pos 0 0 (flush size) rows
      (start-IsWatched a threshold size some_entry pos rows other few small often)

-- The same for row swaps: a row that is activated as often as the threshold is swapped.
pub rrs_guarantee :
    (a threshold size : ℕ) (rows : List ℕ)
    → 0 < size
    → 0 < threshold
    → a ≢ 2 ^ 62
    → length rows < threshold * size
    → length rows < 2 ^ 64
    → threshold ≤ activations a rows
    → 0 < swaps threshold a (flush size) rows
rrs_guarantee a threshold size rows some_entry pos other few small often =
    swaps_pos a threshold size some_entry pos 0 0 (flush size) rows
      (start-IsWatched a threshold size some_entry pos rows other few small often)
