-- ===== src/McSim/BlockHammer/Guarantee.antt =====
-- Class BlockHammer holds back a row that is activated too often.
use row_armor.Base.{
  ℕ, ◌+◌, ◌*◌, ◌^◌, ◌<◌, ◌≤◌, ◌≡◌, inl, inr, refl, ap, ◌∙◌, ◌==◌, not, List, [], ◌∷◌, length, some,
  Bool, true, false, arith, Bool-cases,
}
use row_armor.McSim.BlockHammer.{BankBlocker, blocker_start, query_rowblocker}
use row_armor.McSim.BlockHammer.Cbf.{cbf_start, validate}
use row_armor.McSim.BlockHammer.Cbf.Listed.{Counts, Counts-query, cbf_start-Counts, validate-Counts}
use row_armor.McSim.BlockHammer.History.{expire, hb_query}
use row_armor.McSim.BlockHammer.Window.{
  BlockerEvent, activated, asked, half_done, Window, window_start, window_after, windows_after,
  valid_count, after_events, AllSpare, HasRecent, AreRows, IsRow,
}
use row_armor.McSim.BlockHammer.History.Entries.{HasEntry, expire-HasEntry, is_recent-HasEntry}
use row_armor.McSim.BlockHammer.Watch.{Watches}
use row_armor.McSim.BlockHammer.Step.{Follows, activated-Follows, asked-Follows, half_done-Follows}

==_self : (n : ℕ) → (n == n) ≡ true
==_self n = ground arith

module _ (lookup_hash : ℕ → ℕ → ℕ) (lower_bound : ℕ → ℕ) (attackthrottler : Bool) (bank : ℕ)
    (a blist_th cnt_size hashes : ℕ) (some_slot : 0 < cnt_size) (some_hash : 0 < hashes) where
  abbrev Watched : Window → ℕ → BankBlocker → Type 0
  Watched =
      Watches lookup_hash lower_bound attackthrottler bank a blist_th cnt_size hashes some_slot
        some_hash

  event-Follows :
      (e : BlockerEvent) (total : ℕ) (w : Window) (s : BankBlocker)
      → Watched w total s
      → total + hashes < 2 ^ 64
      → IsRow e
      → (s' : BankBlocker) × Follows lookup_hash lower_bound attackthrottler bank a blist_th
          cnt_size hashes some_slot some_hash e w total s s'
  event-Follows (activated row th_id time) total w s v small real =
      activated-Follows lookup_hash lower_bound attackthrottler bank a blist_th cnt_size hashes
        some_slot some_hash row th_id time total w s v small real
  event-Follows (asked row time) total w s v small real =
      asked-Follows lookup_hash lower_bound attackthrottler bank a blist_th cnt_size hashes
        some_slot some_hash row time total w s v
  event-Follows (half_done first) total w s v small real =
      half_done-Follows lookup_hash lower_bound attackthrottler bank a blist_th cnt_size hashes
        some_slot some_hash first total w s v

  -- After the events: nothing failed, the filters counted, and the history has what is young.
  record Reaches (es : List BlockerEvent) (w : Window) (total : ℕ) (s s' : BankBlocker)
      : Type 0 where
    runs : after_events lookup_hash lower_bound attackthrottler bank es s ≡ some s'
    watches : Watched (windows_after a es w) (total + length es * hashes) s'
    spares :
        (since : ℕ)
        → AllSpare lower_bound since es
        → HasEntry bank a since s.history
        → HasEntry bank a since s'.history
    notes : (since : ℕ) → HasRecent lower_bound a since es → HasEntry bank a since s'.history

  no_events : (total : ℕ) → total + 0 * hashes ≡ total
  no_events total = omega arith

  count_events :
      (e : BlockerEvent) (es : List BlockerEvent) (total : ℕ)
      → total + length (e ∷ es) * hashes ≡ (total + hashes) + length es * hashes
  count_events e es total = grind arith

  events-Reaches :
      (es : List BlockerEvent) (total : ℕ) (w : Window) (s : BankBlocker)
      → Watched w total s
      → total + length es * hashes < 2 ^ 64
      → AreRows es
      → (s' : BankBlocker) × Reaches es w total s s'
  events-Reaches [] total w s v small rows = (
    s,
    record {
      runs = refl;
      watches = rw (no_events total) v;
      spares = λ since all h. h;
      notes = λ since h. absurd h;
    },
  )
  events-Reaches (e ∷ es) total w s v small (real, rows) =
      let lengths = count_events e es total in
      let (s1, f) = event-Follows e total w s v (omega arith) real in
      let (s2, r) =
        events-Reaches es (total + hashes) (window_after a e w) s1 f.watches
          (omega (arith, lengths)) rows in
      (
        s2,
        record {
          runs = rw (after_events, f.runs) r.runs;
          watches = rw lengths r.watches;
          spares = λ since (now, later) h. r.spares since later (f.spares since now h);
          notes = λ since h. elim h [
            | inl (now, later) ↦ r.spares since later (f.notes since now)
            | inr later ↦ r.notes since later
          ];
        },
      )

  blocker_start-Watches : Watched window_start 0 (blocker_start blist_th cnt_size hashes)
  unfolding blocker_start validate
  blocker_start-Watches = record {
    first =
        validate-Counts lookup_hash a blist_th cnt_size hashes some_slot 0 0 true
          (cbf_start blist_th cnt_size hashes) start;
    second =
        validate-Counts lookup_hash a blist_th cnt_size hashes some_slot 0 0 false
          (cbf_start blist_th cnt_size hashes) start;
    first_is = refl;
    second_is = refl;
    first_le = omega arith;
    second_le = omega arith;
  }
    where
      start :
          Counts lookup_hash a blist_th cnt_size hashes some_slot 0 0
            (cbf_start blist_th cnt_size hashes)
      start = cbf_start-Counts lookup_hash a blist_th cnt_size hashes some_slot

  -- The answer to the question whether the row is held back.
  query-Watches :
      (w : Window) (total since time : ℕ) (s : BankBlocker)
      → Watched w total s
      → total < 2 ^ 64
      → blist_th ≤ valid_count w
      → HasEntry bank a since s.history
      → lower_bound time ≤ since
      → (s' : BankBlocker) × (query_rowblocker lookup_hash lower_bound a bank time s ≡ some (s', a))
  unfolding query_rowblocker hb_query
  query-Watches w total since time s v small often entry young =
      let recent =
        is_recent-HasEntry bank a since (expire (lower_bound time) s.history)
          (expire-HasEntry (lower_bound time) bank a since s.history young entry) in
      (
        record s { history = expire (lower_bound time) s.history },
        elim (Bool-cases w.first_valid) [
          | inl one ↦
              let is_valid : s.first_cbf.valid ≡ true = v.first_is ∙ one in
              let listed =
                Counts-query lookup_hash a blist_th cnt_size hashes some_slot w.first_count total
                  s.first_cbf (omega (arith, v.first_le)) (ground arith) v.first in
              rw (query_rowblocker, is_valid, listed, recent, ==_self a) refl
          | inr two ↦
              let is_not : s.first_cbf.valid ≡ false = v.first_is ∙ two in
              let is_valid : s.second_cbf.valid ≡ true = v.second_is ∙ ap not two in
              let listed =
                Counts-query lookup_hash a blist_th cnt_size hashes some_slot w.second_count total
                  s.second_cbf (omega (arith, v.second_le)) (ground arith) v.second in
              rw (query_rowblocker, is_not, is_valid, listed, recent, ==_self a) refl
        ],
      )

-- BlockHammer's guarantee for one bank, from the constructor on, for any hash functions and any
-- sequence of activations, questions and half windows: no assertion fails, and a row that was
-- activated as often as the threshold since the valid filter was last reset, and once at a time that
-- no lower bound since then exceeds, is held back: `query_rowblocker` answers the row. There are
-- counters and hash functions, no row is -1, and events times hash functions stay below 2 ^ 64.
pub blockhammer_guarantee :
    (lookup_hash : ℕ → ℕ → ℕ) (lower_bound : ℕ → ℕ) (attackthrottler : Bool)
    (bank a blist_th cnt_size hashes since time : ℕ) (es : List BlockerEvent)
    → 0 < cnt_size
    → 0 < hashes
    → length es * hashes < 2 ^ 64
    → AreRows es
    → HasRecent lower_bound a since es
    → lower_bound time ≤ since
    → blist_th ≤ valid_count (windows_after a es window_start)
    → (s : BankBlocker) × (after_events lookup_hash lower_bound attackthrottler bank es
          (blocker_start blist_th cnt_size hashes)
        ≡ some s)
      × ((s' : BankBlocker) × (query_rowblocker lookup_hash lower_bound a bank time s
            ≡ some (s', a)))
blockhammer_guarantee lookup_hash lower_bound attackthrottler bank a blist_th cnt_size hashes since
      time es some_slot some_hash small rows young after often =
    let start =
      blocker_start-Watches lookup_hash lower_bound attackthrottler bank a blist_th cnt_size hashes
        some_slot some_hash in
    let (s, r) =
      events-Reaches lookup_hash lower_bound attackthrottler bank a blist_th cnt_size hashes
        some_slot some_hash es 0 window_start (blocker_start blist_th cnt_size hashes) start
        (omega (arith, small)) rows in
    (
      s,
      r.runs,
      query-Watches lookup_hash lower_bound attackthrottler bank a blist_th cnt_size hashes
          some_slot some_hash (windows_after a es window_start) (0 + length es * hashes) since time
          s r.watches (omega (arith, small)) often (r.notes since young) after,
    )
