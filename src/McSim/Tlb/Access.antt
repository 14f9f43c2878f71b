-- ===== src/McSim/Tlb/Access.antt =====
-- One access to the entries of class TLBL1 against a list of pages.
use row_armor.Base.{
  subst, ℕ, ◌+◌, ◌≡◌, ◌≢◌, ◌⊎◌, refl, ap, sym, ◌∙◌, leb, ◌==◌, ◌||◌, if◌then◌else◌, List, [], ◌∷◌,
  ◌++◌, length, Option, none, some, Bool, true, false, arith, Bool-cases, inl, inr,
}
use row_armor.Base.Word.{inc64}
use row_armor.Base.Tables.{insert_at}
use row_armor.McSim.Tlb.{Tlb, tlb_access, evict, insert_time, erase_time}
use row_armor.McSim.Tlb.Lookup.{
  find_page, IsOrdered, IsOrdered-weaken, insert_time-last, find_page-append, IsOrdered-append,
  find_page-erase_time, IsOrdered-erase_time, pages, pages-append, length-pages, without,
  pages-erase_time,
}

-- The specification: the pages in the table, the one that was used longest ago first.
unfoldable pub holds : ℕ → List ℕ → Bool
holds page [] = false
holds page (q ∷ qs) = (page == q) || holds page qs

abbrev pub drop_oldest : List ℕ → List ℕ
drop_oldest [] = []
drop_oldest (q ∷ qs) = qs

unfoldable pub touch : ℕ → ℕ → List ℕ → List ℕ
unfolding holds
touch num_entries page qs =
    if holds page qs
    then without page qs ++ page ∷ []
    else (if leb num_entries (length qs) then drop_oldest qs else qs) ++ page ∷ []

-- The two maps agree, and all times are before `now`.
pub record IsTlb (now : ℕ) (entries : ℕ → Option ℕ) (lru : List (ℕ × ℕ)) : Type 0 where
  pub ordered : IsOrdered 0 now lru
  pub agree : (p : ℕ) → entries p ≡ find_page p lru

holds_missing :
    (page : ℕ) (lru : List (ℕ × ℕ)) → find_page page lru ≡ none → holds page (pages lru) ≡ false
unfolding holds
holds_missing page [] h = refl
holds_missing page ((u, q) ∷ lru) h = ground (arith, holds_missing page lru)

holds_found :
    (page u : ℕ) (lru : List (ℕ × ℕ)) → find_page page lru ≡ some u → holds page (pages lru) ≡ true
unfolding holds
holds_found page u [] h = absurd (ground arith)
holds_found page u ((v, q) ∷ lru) h = ground (arith, holds_found page u lru)

-- One access: the table does what the specification says, and misses where the page is not held.
pub record Refines (num_entries now page : ℕ) (lru : List (ℕ × ℕ)) (r : Tlb × ℕ) : Type 0 where
  pub fits : IsTlb (now + 1) r.0.entries r.0.lru
  pub order : pages r.0.lru ≡ touch num_entries page (pages lru)
  pub answer : r.1 ≡ (if holds page (pages lru) then 0 else 1)

-- The new entry at the end of the times.
entered-IsTlb :
    (now page : ℕ) (entries : ℕ → Option ℕ) (lru : List (ℕ × ℕ))
    → IsOrdered 0 now lru
    → find_page page lru ≡ none
    → ((p : ℕ) → p ≢ page → entries p ≡ find_page p lru)
    → IsTlb (now + 1) (insert_at page (some now) entries) (insert_time now page lru)
entered-IsTlb now page entries lru ordered new agree =
    rw (insert_time-last now page 0 lru ordered) (record {
      ordered = IsOrdered-append page now 0 (now + 1) lru ordered (omega arith) new;
      agree = λ p. ground (arith, find_page-append p page now lru new, agree p);
    })

pages-insert_time :
    (now page : ℕ) (lru : List (ℕ × ℕ))
    → IsOrdered 0 now lru
    → pages (insert_time now page lru) ≡ pages lru ++ page ∷ []
pages-insert_time now page lru ordered =
    ap pages (insert_time-last now page 0 lru ordered) ∙ pages-append lru ((now, page) ∷ [])

pub hit-Refines :
    (num_entries now page last : ℕ) (s : Tlb)
    → IsTlb now s.entries s.lru
    → s.entries page ≡ some last
    → Refines num_entries now page s.lru (tlb_access num_entries now page s)
unfolding tlb_access touch
hit-Refines num_entries now page last s t e =
    let found : find_page page s.lru ≡ some last = sym (t.agree page) ∙ e in
    let kept = IsOrdered-erase_time page last 0 now s.lru t.ordered found in
    let held = holds_found page last s.lru found in
    rw (tlb_access, e)
      (record {
        fits =
            entered-IsTlb now page s.entries (erase_time last s.lru) kept
              (find_page-erase_time page page last 0 now s.lru t.ordered found ∙ ground arith)
              (λ p ne.
                ground
                  (arith, t.agree p, find_page-erase_time p page last 0 now s.lru t.ordered found));
        order =
            pages-insert_time now page (erase_time last s.lru) kept
            ∙ rw (touch, held)
                (ap (λ qs. qs ++ page ∷ [])
                  (pages-erase_time page last 0 now s.lru t.ordered found));
        answer = rw held refl;
      })

List-cases : {A : Type 0} (xs : List A) → (xs ≡ []) ⊎ ((x : A) × (ys : List A) × (xs ≡ x ∷ ys))
List-cases [] = inl refl
List-cases (x ∷ xs) = inr (x, xs, refl)

-- What is left after an eviction.
pub record IsEvicted (now page : ℕ) (lru : List (ℕ × ℕ)) (s : Tlb) : Type 0 where
  pub fits : IsTlb now s.entries s.lru
  pub order : pages s.lru ≡ drop_oldest (pages lru)
  missing : s.entries page ≡ none

evict-IsEvicted :
    (now page : ℕ) (s : Tlb)
    → IsTlb now s.entries s.lru
    → s.entries page ≡ none
    → IsEvicted now page s.lru (evict s)
unfolding evict
evict-IsEvicted now page s t e = elim (List-cases s.lru) [
  | inl none_left ↦
      rw (evict, none_left) (record { fits = t; order = ap pages none_left; missing = e })
  | inr ((u, q), lru, oldest) ↦
      let (ordered, agree) = old u q lru oldest in
      let (first, alone, later) = ordered in
      rw (evict, oldest)
        (record {
          fits = record {
            ordered = IsOrdered-weaken 0 (u + 1) now lru (omega arith) later;
            agree = λ p. elim (Bool-cases (p == q)) [
              | inl own ↦ let e' : p ≡ q = ground arith in rw (own, e') (sym alone)
              | inr other ↦ ground (arith, agree p)
            ];
          };
          order = refl;
          missing = ground arith;
        })
]
  where
    old :
        (u q : ℕ) (lru : List (ℕ × ℕ))
        → s.lru ≡ (u, q) ∷ lru
        → IsOrdered 0 now ((u, q) ∷ lru) × ((p : ℕ) → s.entries p ≡ find_page p ((u, q) ∷ lru))
    old u q lru oldest =
        (subst (λ l. IsOrdered 0 now l) oldest t.ordered, λ p. t.agree p ∙ ap (find_page p) oldest)

pub miss-Refines :
    (num_entries now page : ℕ) (s : Tlb)
    → IsTlb now s.entries s.lru
    → s.entries page ≡ none
    → Refines num_entries now page s.lru (tlb_access num_entries now page s)
unfolding tlb_access touch
miss-Refines num_entries now page s t e =
    let absent : find_page page s.lru ≡ none = sym (t.agree page) ∙ e in
    let not_held = holds_missing page s.lru absent in
    let s2 : Tlb = record s { num_access = inc64 s.num_access; num_miss = inc64 s.num_miss } in
    elim (Bool-cases (leb num_entries (length s.lru))) [
      | inl full ↦
          let v = evict-IsEvicted now page s2 t e in
          let full' : leb num_entries (length (pages s.lru)) ≡ true =
            rw (length-pages s.lru) full in
          let v_fits = v.fits in
          rw (tlb_access, e, full)
            (record {
              fits =
                  entered-IsTlb now page (evict s2).entries (evict s2).lru v_fits.ordered
                    (sym (v_fits.agree page) ∙ v.missing) (λ p ne. v_fits.agree p);
              order =
                  pages-insert_time now page (evict s2).lru v_fits.ordered
                  ∙ rw (touch, not_held, full') (ap (λ qs. qs ++ page ∷ []) v.order);
              answer = rw not_held refl;
            })
      | inr room ↦
          let room' : leb num_entries (length (pages s.lru)) ≡ false =
            rw (length-pages s.lru) room in
          rw (tlb_access, e, room)
            (record {
              fits = entered-IsTlb now page s.entries s.lru t.ordered absent (λ p ne. t.agree p);
              order = pages-insert_time now page s.lru t.ordered ∙ rw (touch, not_held, room') refl;
              answer = rw not_held refl;
            })
    ]
