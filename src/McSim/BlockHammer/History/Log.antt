-- ===== src/McSim/BlockHammer/History/Log.antt =====
-- The history of class RowBlockerHB against a log of all activations.
use row_armor.Base.{
  ℕ, ◌≤◌, ◌<◌, ◌≡◌, refl, ap, ◌∙◌, ltb, leb, List, [], ◌∷◌, true, false, arith, Bool-cases, inl,
  inr,
}
use row_armor.McSim.BlockHammer.History.{
  HistoryEntry, expire, insert_entry, is_recent, hb_update, hb_query,
}

expire-expire :
    (low high : ℕ) (es : List HistoryEntry)
    → low ≤ high
    → expire high (expire low es) ≡ expire high es
unfolding expire
expire-expire low high [] h = refl
expire-expire low high (e ∷ es) h = elim (Bool-cases (ltb e.time low)) [
  | inl old ↦
      let older : ltb e.time high ≡ true = ground arith in
      rw (old, older) (expire-expire low high es h)
  | inr new ↦ rw new refl
]

-- An entry that goes before all that are kept is dropped as these are looked up.
expire-insert_old :
    (low high : ℕ) (e : HistoryEntry) (es : List HistoryEntry)
    → e.time < low
    → low ≤ high
    → expire high (insert_entry e (expire low es)) ≡ expire high es
unfolding expire insert_entry
expire-insert_old low high e [] old h =
    let older : ltb e.time high ≡ true = ground arith in rw older refl
expire-insert_old low high e (f ∷ es) old h = elim (Bool-cases (ltb f.time low)) [
  | inl gone ↦
      let older : ltb f.time high ≡ true = ground arith in
      rw (gone, older) (expire-insert_old low high e es old h)
  | inr kept ↦
      let first : leb f.time e.time ≡ false = ground arith in
      let older : ltb e.time high ≡ true = ground arith in rw (kept, first, older) refl
]

pub expire-insert_entry :
    (low high : ℕ) (e : HistoryEntry) (es : List HistoryEntry)
    → low ≤ high
    → expire high (insert_entry e (expire low es)) ≡ expire high (insert_entry e es)
unfolding expire insert_entry
expire-insert_entry low high e [] h = refl
expire-insert_entry low high e (f ∷ es) h = elim (Bool-cases (ltb f.time low)) [
  | inl gone ↦
      let older : ltb f.time high ≡ true = ground arith in
      elim (Bool-cases (leb f.time e.time)) [
        | inl before ↦ rw (gone, before, older) (expire-insert_entry low high e es h)
        | inr after ↦
            let old : ltb e.time high ≡ true = ground arith in
            rw (gone, after, old, older) (expire-insert_old low high e es (ground arith) h)
      ]
  | inr kept ↦ rw kept refl
]

-- The activations of one bank in the order of their times, those of one time in the order of the
-- calls, and none forgotten.
abbrev pub logged : ℕ → List (ℕ × ℕ) → List HistoryEntry → List HistoryEntry
logged bank [] log = log
logged bank ((row, time) ∷ calls) log =
    logged bank calls (insert_entry (record { time = time; bank_num = bank; page_num = row }) log)

module _ (lower_bound : ℕ → ℕ) (bank : ℕ) where
  abbrev pub updated : List (ℕ × ℕ) → List HistoryEntry → List HistoryEntry
  updated [] es = es
  updated ((row, time) ∷ calls) es = updated calls (hb_update lower_bound row bank time es).0

  -- The bounds of the calls do not go down, from `low` to `high`.
  abbrev pub IsRising : ℕ → List (ℕ × ℕ) → ℕ → Type 0
  IsRising low [] high = low ≤ high
  IsRising low ((row, time) ∷ calls) high =
      (low ≤ lower_bound time) × IsRising (lower_bound time) calls high

  IsRising-le : (low high : ℕ) (calls : List (ℕ × ℕ)) → IsRising low calls high → low ≤ high
  IsRising-le low high [] h = h
  IsRising-le low high ((row, time) ∷ calls) (first, h) =
      omega (arith, IsRising-le (lower_bound time) high calls h)

  expire-updated :
      (calls : List (ℕ × ℕ)) (low high : ℕ) (es log : List HistoryEntry)
      → IsRising low calls high
      → ((bound : ℕ) → low ≤ bound → expire bound es ≡ expire bound log)
      → expire high (updated calls es) ≡ expire high (logged bank calls log)
  unfolding hb_update
  expire-updated [] low high es log h same = same high h
  expire-updated ((row, time) ∷ calls) low high es log (first, h) same =
      expire-updated calls (lower_bound time) high (hb_update lower_bound row bank time es).0
        (insert_entry (record { time = time; bank_num = bank; page_num = row }) log) h
        (λ bound le.
          let e : HistoryEntry = record { time = time; bank_num = bank; page_num = row } in
          ap (λ kept. expire bound (insert_entry e kept)) (same (lower_bound time) first)
          ∙ expire-insert_entry (lower_bound time) bound e log le)

-- The history is as good as a log that forgets nothing: after any calls of `update` in a bank, whose
-- lower bounds do not go down, `query` answers whether the log has an activation of the row that is
-- not older than the query's lower bound.
pub hb_query-log :
    (lower_bound : ℕ → ℕ) (row bank curr_time : ℕ) (calls : List (ℕ × ℕ))
    → IsRising lower_bound bank 0 calls (lower_bound curr_time)
    → (hb_query lower_bound row bank curr_time (updated lower_bound bank calls [])).1
      ≡ is_recent row bank (expire (lower_bound curr_time) (logged bank calls []))
unfolding hb_query
hb_query-log lower_bound row bank curr_time calls rising = ap (is_recent row bank) (
    expire-updated lower_bound bank calls 0 (lower_bound curr_time) [] [] rising (λ bound le. refl))
