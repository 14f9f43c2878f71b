-- ===== src/McSim/BlockHammer/History/Recent.antt =====
-- The history of class RowBlockerHB against the list of all activations.
use row_armor.Base.{
  ℕ, ◌≤◌, ◌≡◌, ◌↔◌, ◌⊎◌, refl, ltb, leb, ◌==◌, ◌&&◌, List, [], ◌∷◌, true, arith, Bool-cases, inl,
  inr,
}
use row_armor.McSim.BlockHammer.History.{HistoryEntry, expire, insert_entry, is_recent, hb_query}
use row_armor.McSim.BlockHammer.History.Log.{logged, updated, IsRising, hb_query-log}

-- A call of `update` for the row at a time that is not below the bound.
abbrev pub WasActivated : ℕ → ℕ → List (ℕ × ℕ) → Type 0
WasActivated row bound [] = ⊥
WasActivated row bound ((page, time) ∷ calls) =
    ((page ≡ row) × (bound ≤ time)) ⊎ WasActivated row bound calls

-- The times do not go down, and start at `low` or above.
abbrev IsOrdered : ℕ → List HistoryEntry → Type 0
IsOrdered low [] = Unit {0}
IsOrdered low (e ∷ es) = (low ≤ e.time) × IsOrdered e.time es

insert_entry-IsOrdered :
    (low : ℕ) (e : HistoryEntry) (es : List HistoryEntry)
    → low ≤ e.time
    → IsOrdered low es
    → IsOrdered low (insert_entry e es)
unfolding insert_entry
insert_entry-IsOrdered low e [] le h = (le, tt)
insert_entry-IsOrdered low e (f ∷ es) le h = elim (Bool-cases (leb f.time e.time)) [
  | inl before ↦ rw before (h.0, insert_entry-IsOrdered f.time e es (ground arith) h.1)
  | inr after ↦ rw after (le, (ground arith, h.1))
]

module _ (row bank : ℕ) where
  -- The entry is one of the row, and its time is not below the bound.
  abbrev IsFresh : ℕ → HistoryEntry → Type 0
  IsFresh bound e = (e.bank_num ≡ bank) × (e.page_num ≡ row) × (bound ≤ e.time)

  abbrev HasFresh : ℕ → List HistoryEntry → Type 0
  HasFresh bound [] = ⊥
  HasFresh bound (e ∷ es) = IsFresh bound e ⊎ HasFresh bound es

  is_recent-HasFresh :
      (bound low : ℕ) (es : List HistoryEntry)
      → bound ≤ low
      → IsOrdered low es
      → (is_recent row bank es ≡ true) ↔ HasFresh bound es
  unfolding is_recent
  is_recent-HasFresh bound low [] le h = (λ e. absurd (ground arith), λ empty. absurd empty)
  is_recent-HasFresh bound low (e ∷ es) le (first, h) =
      let rest = is_recent-HasFresh bound e.time es (omega arith) h in
      elim (Bool-cases ((e.bank_num == bank) && (e.page_num == row))) [
        | inl this ↦ rw this (λ _. inl (ground arith, ground arith, omega arith), λ _. refl)
        | inr other ↦ rw other (
          λ found. inr (rest.0 found),
          λ has. elim has [ inl fresh ↦ ground arith | inr later ↦ rest.1 later ],
        )
      ]

  expire-HasFresh :
      (bound low : ℕ) (es : List HistoryEntry)
      → IsOrdered low es
      → (is_recent row bank (expire bound es) ≡ true) ↔ HasFresh bound es
  unfolding expire is_recent
  expire-HasFresh bound low [] h = (λ e. absurd (ground arith), λ empty. absurd empty)
  expire-HasFresh bound low (e ∷ es) (first, h) = elim (Bool-cases (ltb e.time bound)) [
    | inl old ↦
        let rest = expire-HasFresh bound e.time es h in
        rw (old, expire)
          (
            λ found. inr (rest.0 found),
            λ has. elim has [ inl fresh ↦ ground arith | inr later ↦ rest.1 later ],
          )
    | inr new ↦
        rw (new, expire) (is_recent-HasFresh bound e.time (e ∷ es) (ground arith) (omega arith, h))
  ]

  insert_entry-HasFresh :
      (bound : ℕ) (e : HistoryEntry) (es : List HistoryEntry)
      → HasFresh bound (insert_entry e es) ↔ (IsFresh bound e ⊎ HasFresh bound es)
  unfolding insert_entry
  insert_entry-HasFresh bound e [] = (λ h. h, λ h. h)
  insert_entry-HasFresh bound e (f ∷ es) = elim (Bool-cases (leb f.time e.time)) [
    | inl before ↦
        let rest = insert_entry-HasFresh bound e es in
        rw before (
          λ h. elim h [
            | inl this ↦ inr (inl this)
            | inr later ↦ elim (rest.0 later) [ inl new ↦ inl new | inr old ↦ inr (inr old) ]
          ],
          λ h. elim h [
            | inl new ↦ inr (rest.1 (inl new))
            | inr old ↦ elim old [ inl this ↦ inl this | inr later ↦ inr (rest.1 (inr later)) ]
          ],
        )
    | inr after ↦ rw after (λ h. h, λ h. h)
  ]

logged-IsOrdered :
    (bank : ℕ) (calls : List (ℕ × ℕ)) (log : List HistoryEntry)
    → IsOrdered 0 log
    → IsOrdered 0 (logged bank calls log)
logged-IsOrdered bank [] log h = h
logged-IsOrdered bank ((row, time) ∷ calls) log h =
    let e : HistoryEntry = record { time = time; bank_num = bank; page_num = row } in
    logged-IsOrdered bank calls (insert_entry e log)
      (insert_entry-IsOrdered 0 e log (omega arith) h)

logged-HasFresh :
    (row bank bound : ℕ) (calls : List (ℕ × ℕ)) (log : List HistoryEntry)
    → HasFresh row bank bound (logged bank calls log)
      ↔ (WasActivated row bound calls ⊎ HasFresh row bank bound log)
logged-HasFresh row bank bound [] log =
    (λ h. inr h, λ h. elim h [ inl empty ↦ absurd empty | inr old ↦ old ])
logged-HasFresh row bank bound ((page, time) ∷ calls) log =
    let e : HistoryEntry = record { time = time; bank_num = bank; page_num = page } in
    let rest = logged-HasFresh row bank bound calls (insert_entry e log) in
    let one = insert_entry-HasFresh row bank bound e log in
    (
      λ h. elim (rest.0 h) [
        | inl later ↦ inl (inr later)
        | inr held ↦ elim (one.0 held) [
          | inl (same_bank, same, at) ↦ inl (inl (same, at))
          | inr old ↦ inr old
        ]
      ],
      λ h. elim h [
        | inl called ↦ elim called [
          | inl (same, at) ↦ rest.1 (inr (one.1 (inl (refl, same, at))))
          | inr later ↦ rest.1 (inl later)
        ]
        | inr old ↦ rest.1 (inr (one.1 (inr old)))
      ],
    )

-- After any calls of `update` in a bank, with rows and times, whose lower bounds do not go down,
-- `query` answers `true` exactly if one of the calls was for the row at a time that is not below the
-- lower bound of the query, which is not below those of the calls.
pub hb_query-WasActivated :
    (lower_bound : ℕ → ℕ) (row bank curr_time : ℕ) (calls : List (ℕ × ℕ))
    → IsRising lower_bound bank 0 calls (lower_bound curr_time)
    → ((hb_query lower_bound row bank curr_time (updated lower_bound bank calls [])).1 ≡ true)
      ↔ WasActivated row (lower_bound curr_time) calls
hb_query-WasActivated lower_bound row bank curr_time calls rising =
    let bound = lower_bound curr_time in
    let fresh =
      expire-HasFresh row bank bound 0 (logged bank calls []) (logged-IsOrdered bank calls [] tt) in
    let all = logged-HasFresh row bank bound calls [] in
    rw (hb_query-log lower_bound row bank curr_time calls rising) (
      λ found. elim (all.0 (fresh.0 found)) [ inl called ↦ called | inr empty ↦ absurd empty ],
      λ called. fresh.1 (all.1 (inl called)),
    )
