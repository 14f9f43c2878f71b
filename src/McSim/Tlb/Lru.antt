-- ===== src/McSim/Tlb/Lru.antt =====
-- Class TLBL1 implements a table of pages with the policy least recently used.
use Prim.{Unit}
use row_armor.Base.{
  ap₂, ℕ, ◌+◌, ◌<◌, ◌≤◌, ◌≡◌, refl, ap, ◌∙◌, if◌then◌else◌, List, [], ◌∷◌, arith, Option-cases, inl,
  inr,
}
use row_armor.McSim.Tlb.{Tlb, tlb_start, tlb_access}
use row_armor.McSim.Tlb.Lookup.{IsOrdered, pages}
use row_armor.McSim.Tlb.Access.{holds, touch, IsTlb, Refines, hit-Refines, miss-Refines}

-- The accesses with their times, and the answers that they get.
unfoldable pub tlb_run : ℕ → List (ℕ × ℕ) → Tlb → List ℕ
unfolding tlb_access
tlb_run num_entries [] s = []
tlb_run num_entries ((time, page) ∷ rest) s =
    let (s', answer) = tlb_access num_entries time page s in answer ∷ tlb_run num_entries rest s'

-- The answers of the specification.
unfoldable pub lru_run : ℕ → List (ℕ × ℕ) → List ℕ → List ℕ
unfolding touch
lru_run num_entries [] qs = []
lru_run num_entries ((time, page) ∷ rest) qs =
    (if holds page qs then 0 else 1) ∷ lru_run num_entries rest (touch num_entries page qs)

abbrev pub AreTimes : ℕ → List (ℕ × ℕ) → Type 0
AreTimes now [] = Unit
AreTimes now ((time, page) ∷ rest) = (now ≤ time) × AreTimes (time + 1) rest

IsTlb-later :
    (now later : ℕ) (s : Tlb)
    → now ≤ later
    → IsTlb now s.entries s.lru
    → IsTlb later s.entries s.lru
IsTlb-later now later s le t = record { ordered = raise 0 s.lru t.ordered; agree = t.agree }
  where
    raise : (low : ℕ) (lru : List (ℕ × ℕ)) → IsOrdered low now lru → IsOrdered low later lru
    raise low [] h = omega arith
    raise low ((u, q) ∷ lru) (first, alone, h) = (first, alone, raise (u + 1) lru h)

tlb_run-refines :
    (num_entries now : ℕ) (accesses : List (ℕ × ℕ)) (s : Tlb)
    → AreTimes now accesses
    → IsTlb now s.entries s.lru
    → tlb_run num_entries accesses s ≡ lru_run num_entries accesses (pages s.lru)
unfolding tlb_run lru_run
tlb_run-refines num_entries now [] s times t = refl
tlb_run-refines num_entries now ((time, page) ∷ rest) s (le, times) t =
    let s' = (tlb_access num_entries time page s).0 in
    let fitting = IsTlb-later now time s le t in
    let step : Refines num_entries time page s.lru (tlb_access num_entries time page s) =
      elim (Option-cases (s.entries page)) [
        | inl e ↦ miss-Refines num_entries time page s fitting e
        | inr (last, e) ↦ hit-Refines num_entries time page last s fitting e
      ] in
    ap₂ (λ x xs. x ∷ xs) step.answer
      (tlb_run-refines num_entries (time + 1) rest s' times step.fits
        ∙ ap (lru_run num_entries rest) step.order)

-- The translation buffer, two maps by page and by time, refines a plain list with the policy least
-- recently used: from the constructor on, for accesses at times that go up, one at each time, it hits
-- and misses exactly where the list of the last pages does. There is at least one entry, as the
-- source's eviction needs one.
pub tlb_run-lru :
    (num_entries : ℕ) (accesses : List (ℕ × ℕ))
    → 0 < num_entries
    → AreTimes 0 accesses
    → tlb_run num_entries accesses tlb_start ≡ lru_run num_entries accesses []
unfolding tlb_start
tlb_run-lru num_entries accesses some_entry times =
    tlb_run-refines num_entries 0 accesses tlb_start times
      (record { ordered = omega arith; agree = λ p. refl })
