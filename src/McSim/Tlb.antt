-- ===== src/McSim/Tlb.antt =====
-- Class TLBL1 of perf_simulation/McSim/PTSTLB.cc: the entries of a translation buffer. The queues and
-- the times of the replies are not modelled.
pub mod Lookup
pub mod Access
pub mod Lru
use row_armor.Base.{
  ℕ, ◌+◌, ◌/◌, ◌^◌, ltb, leb, ◌==◌, if◌then◌else◌, List, [], ◌∷◌, length, Option, none, some, Bool,
  true, false,
}
use row_armor.Base.Word.{inc64}
use row_armor.Base.Tables.{insert_at, count_or_zero}

-- `entries` gives the time of a page's last use, `lru` the page by that time, in the order of times.
pub record Tlb : Type 0 where
  pub entries : ℕ → Option ℕ
  pub lru : List (ℕ × ℕ)
  pub num_access : ℕ
  pub num_miss : ℕ

unfoldable pub tlb_start : Tlb
tlb_start = record { entries = λ _. none; lru = []; num_access = 0; num_miss = 0 }

-- `map::insert`, which changes nothing where the key is there.
unfoldable pub insert_time : ℕ → ℕ → List (ℕ × ℕ) → List (ℕ × ℕ)
insert_time time page [] = (time, page) ∷ []
insert_time time page ((u, q) ∷ lru) =
    if ltb time u
    then (time, page) ∷ (u, q) ∷ lru
    else (if time == u then (u, q) ∷ lru else (u, q) ∷ insert_time time page lru)

-- `map::erase` of a key.
unfoldable pub erase_time : ℕ → List (ℕ × ℕ) → List (ℕ × ℕ)
erase_time time [] = []
erase_time time ((u, q) ∷ lru) = if time == u then lru else (u, q) ∷ erase_time time lru

-- The eviction of the oldest entry; the source reads past the end where there is none.
unfoldable pub evict : Tlb → Tlb
evict s = elim s.lru [
  | [] ↦ s
  | (u, q) ∷ lru ↦ record s { entries = insert_at q none s.entries; lru = lru }
]

-- One round of the loop in `process_event`: a request for the page at the time. 1 is a miss.
unfoldable pub tlb_access : ℕ → ℕ → ℕ → Tlb → Tlb × ℕ
unfolding inc64 evict insert_time erase_time
tlb_access num_entries curr_time page s =
    let s1 = record s { num_access = inc64 s.num_access } in
    elim (s.entries page) [
      | none ↦
          let s2 = record s1 { num_miss = inc64 s.num_miss } in
          let s3 = if leb num_entries (length s.lru) then evict s2 else s2 in
          (
            record s3 {
              entries = insert_at page (some curr_time) s3.entries;
              lru = insert_time curr_time page s3.lru;
            },
            1,
          )
      | some last ↦ (
        record s1 {
          entries = insert_at page (some curr_time) s.entries;
          lru = insert_time curr_time page (erase_time last s.lru);
        },
        0,
      )
    ]
