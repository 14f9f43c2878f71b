-- ===== src/McSim/Tlb/Lookup.antt =====
-- The two maps of class TLBL1 fit together.
use row_armor.Base.{
  ℕ, suc, ◌+◌, ◌<◌, ◌≤◌, ◌≡◌, refl, ap, ◌∙◌, ltb, ◌==◌, if◌then◌else◌, List, [], ◌∷◌, ◌++◌, length,
  Option, none, some, true, false, arith, Bool-cases, inl, inr,
}
use row_armor.McSim.Tlb.{insert_time, erase_time}

abbrev pub find_page : ℕ → List (ℕ × ℕ) → Option ℕ
find_page page [] = none
find_page page ((u, q) ∷ lru) = if page == q then some u else find_page page lru

-- The times go up from `low` on and stay below `high`, and no page is there twice.
abbrev pub IsOrdered : ℕ → ℕ → List (ℕ × ℕ) → Type 0
IsOrdered low high [] = low ≤ high
IsOrdered low high ((u, q) ∷ lru) =
    (low ≤ u) × (find_page q lru ≡ none) × IsOrdered (u + 1) high lru

pub IsOrdered-le : (low high : ℕ) (lru : List (ℕ × ℕ)) → IsOrdered low high lru → low ≤ high
IsOrdered-le low high [] h = h
IsOrdered-le low high ((u, q) ∷ lru) (le, _, h) = omega (arith, IsOrdered-le (u + 1) high lru h)

pub IsOrdered-weaken :
    (low low' high : ℕ) (lru : List (ℕ × ℕ))
    → low ≤ low'
    → IsOrdered low' high lru
    → IsOrdered low high lru
IsOrdered-weaken low low' high [] le h = omega arith
IsOrdered-weaken low low' high ((u, q) ∷ lru) le (first, alone, h) = (omega arith, alone, h)

pub find_page-le :
    (page u low high : ℕ) (lru : List (ℕ × ℕ))
    → IsOrdered low high lru
    → find_page page lru ≡ some u
    → low ≤ u
find_page-le page u low high [] h e = absurd (ground arith)
find_page-le page u low high ((v, q) ∷ lru) (first, _, h) e = elim (Bool-cases (page == q)) [
  | inl same ↦ ground arith
  | inr apart ↦ let later = find_page-le page u (v + 1) high lru h (ground arith) in omega arith
]

-- Where all times are earlier, the new entry is the last.
pub insert_time-last :
    (time page low : ℕ) (lru : List (ℕ × ℕ))
    → IsOrdered low time lru
    → insert_time time page lru ≡ lru ++ (time, page) ∷ []
unfolding insert_time
insert_time-last time page low [] h = refl
insert_time-last time page low ((u, q) ∷ lru) (first, alone, h) =
    let bound = IsOrdered-le (u + 1) time lru h in
    let later : ltb time u ≡ false = ground arith in
    let other : (time == u) ≡ false = ground arith in
    rw (later, other) (ap (λ l. (u, q) ∷ l) (insert_time-last time page (u + 1) lru h))

pub find_page-append :
    (p page time : ℕ) (lru : List (ℕ × ℕ))
    → find_page page lru ≡ none
    → find_page p (lru ++ (time, page) ∷ []) ≡ (if p == page then some time else find_page p lru)
find_page-append p page time [] h = refl
find_page-append p page time ((u, q) ∷ lru) h = ground (arith, find_page-append p page time lru)

pub IsOrdered-append :
    (page time low high : ℕ) (lru : List (ℕ × ℕ))
    → IsOrdered low time lru
    → time < high
    → find_page page lru ≡ none
    → IsOrdered low high (lru ++ (time, page) ∷ [])
IsOrdered-append page time low high [] h lt new = (h, refl, omega arith)
IsOrdered-append page time low high ((u, q) ∷ lru) (first, alone, h) lt new = (
  first,
  ground (arith, find_page-append q page time lru),
  IsOrdered-append page time (u + 1) high lru h lt (ground arith),
)

-- The entry that goes is the page's alone.
pub find_page-erase_time :
    (p page last low high : ℕ) (lru : List (ℕ × ℕ))
    → IsOrdered low high lru
    → find_page page lru ≡ some last
    → find_page p (erase_time last lru) ≡ (if p == page then none else find_page p lru)
unfolding erase_time
find_page-erase_time p page last low high [] h e = absurd (ground arith)
find_page-erase_time p page last low high ((u, q) ∷ lru) (first, alone, h) e =
    elim (Bool-cases (page == q)) [
      | inl same ↦
          let here : (last == u) ≡ true = ground arith in
          rw here (elim (Bool-cases (p == q)) [
            | inl own ↦ let e' : p ≡ q = ground arith in rw e' (ground arith)
            | inr other ↦ ground arith
          ])
      | inr apart ↦
          let deeper : find_page page lru ≡ some last = ground arith in
          let later = find_page-le page last (u + 1) high lru h deeper in
          let not_here : (last == u) ≡ false = ground arith in
          rw not_here (ground (arith, find_page-erase_time p page last (u + 1) high lru h deeper))
    ]

pub IsOrdered-erase_time :
    (page last low high : ℕ) (lru : List (ℕ × ℕ))
    → IsOrdered low high lru
    → find_page page lru ≡ some last
    → IsOrdered low high (erase_time last lru)
unfolding erase_time
IsOrdered-erase_time page last low high [] h e = h
IsOrdered-erase_time page last low high ((u, q) ∷ lru) (first, alone, h) e =
    elim (Bool-cases (page == q)) [
      | inl same ↦
          let here : (last == u) ≡ true = ground arith in
          rw here (IsOrdered-weaken low (u + 1) high lru (omega arith) h)
      | inr apart ↦
          let deeper : find_page page lru ≡ some last = ground arith in
          let later = find_page-le page last (u + 1) high lru h deeper in
          let not_here : (last == u) ≡ false = ground arith in
          rw not_here (
            first,
            find_page-erase_time q page last (u + 1) high lru h deeper ∙ ground arith,
            IsOrdered-erase_time page last (u + 1) high lru h deeper,
          )
    ]

-- The pages, the one that was used longest ago first.
abbrev pub pages : List (ℕ × ℕ) → List ℕ
pages [] = []
pages ((u, q) ∷ lru) = q ∷ pages lru

pub pages-append : (xs ys : List (ℕ × ℕ)) → pages (xs ++ ys) ≡ pages xs ++ pages ys
pages-append [] ys = refl
pages-append ((u, q) ∷ xs) ys = ap (λ l. q ∷ l) (pages-append xs ys)

pub length-pages : (xs : List (ℕ × ℕ)) → length (pages xs) ≡ length xs
length-pages [] = refl
length-pages ((u, q) ∷ xs) = ap suc (length-pages xs)

unfoldable pub without : ℕ → List ℕ → List ℕ
without page [] = []
without page (q ∷ qs) = if page == q then qs else q ∷ without page qs

pub pages-erase_time :
    (page last low high : ℕ) (lru : List (ℕ × ℕ))
    → IsOrdered low high lru
    → find_page page lru ≡ some last
    → pages (erase_time last lru) ≡ without page (pages lru)
unfolding erase_time without
pages-erase_time page last low high [] h e = refl
pages-erase_time page last low high ((u, q) ∷ lru) (first, alone, h) e =
    elim (Bool-cases (page == q)) [
      | inl same ↦ let here : (last == u) ≡ true = ground arith in rw (here, same) refl
      | inr apart ↦
          let deeper : find_page page lru ≡ some last = ground arith in
          let later = find_page-le page last (u + 1) high lru h deeper in
          let not_here : (last == u) ≡ false = ground arith in
          rw (not_here, apart)
            (ap (λ l. q ∷ l) (pages-erase_time page last (u + 1) high lru h deeper))
    ]
