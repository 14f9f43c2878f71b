-- ===== src/McSim/BlockHammer/History/Entries.antt =====
-- One entry in the history of class RowBlockerHB.
use row_armor.Base.{
  ℕ, ◌≤◌, ◌≡◌, ◌⊎◌, inl, inr, refl, ltb, leb, List, [], ◌∷◌, true, false, arith, Bool-cases,
}
use row_armor.McSim.BlockHammer.History.{HistoryEntry, expire, insert_entry, is_recent}

-- The history has an activation of the row at that time.
abbrev pub HasEntry : ℕ → ℕ → ℕ → List HistoryEntry → Type 0
HasEntry bank a since [] = ⊥
HasEntry bank a since (e ∷ es) =
    ((e.bank_num ≡ bank) × (e.page_num ≡ a) × (e.time ≡ since)) ⊎ HasEntry bank a since es

pub expire-HasEntry :
    (bound bank a since : ℕ) (es : List HistoryEntry)
    → bound ≤ since
    → HasEntry bank a since es
    → HasEntry bank a since (expire bound es)
unfolding expire
expire-HasEntry bound bank a since [] le h = h
expire-HasEntry bound bank a since (e ∷ es) le (inl (same_bank, same, at)) =
    let kept : ltb e.time bound ≡ false = ground arith in rw kept (inl (same_bank, same, at))
expire-HasEntry bound bank a since (e ∷ es) le (inr h) = elim (Bool-cases (ltb e.time bound)) [
  | inl old ↦ rw old (expire-HasEntry bound bank a since es le h)
  | inr new ↦ rw new (inr h)
]

pub insert_entry-HasEntry_new :
    (bank a since : ℕ) (es : List HistoryEntry)
    → HasEntry bank a since
        (insert_entry (record { time = since; bank_num = bank; page_num = a }) es)
unfolding insert_entry
insert_entry-HasEntry_new bank a since [] = inl (refl, refl, refl)
insert_entry-HasEntry_new bank a since (e ∷ es) = elim (Bool-cases (leb e.time since)) [
  | inl before ↦ rw before (inr (insert_entry-HasEntry_new bank a since es))
  | inr after ↦ rw after (inl (refl, refl, refl))
]

pub insert_entry-HasEntry :
    (bank a since : ℕ) (e : HistoryEntry) (es : List HistoryEntry)
    → HasEntry bank a since es
    → HasEntry bank a since (insert_entry e es)
unfolding insert_entry
insert_entry-HasEntry bank a since e [] h = inr h
insert_entry-HasEntry bank a since e (f ∷ es) h = elim (Bool-cases (leb f.time e.time)) [
  | inl before ↦ elim h [
    | inl this ↦ rw before (inl this)
    | inr later ↦ rw before (inr (insert_entry-HasEntry bank a since e es later))
  ]
  | inr after ↦ rw after (inr h)
]

pub is_recent-HasEntry :
    (bank a since : ℕ) (es : List HistoryEntry)
    → HasEntry bank a since es
    → is_recent a bank es ≡ true
unfolding is_recent
is_recent-HasEntry bank a since [] h = absurd h
is_recent-HasEntry bank a since (e ∷ es) (inl (same_bank, same, at)) = ground arith
is_recent-HasEntry bank a since (e ∷ es) (inr h) =
    ground (arith, is_recent-HasEntry bank a since es h)
