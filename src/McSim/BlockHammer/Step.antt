-- ===== src/McSim/BlockHammer/Step.antt =====
-- What each event does to the filters and the history of class BlockHammer.
use row_armor.Base.{
  ℕ, ◌+◌, ◌^◌, ◌<◌, ◌≡◌, ◌≢◌, refl, ◌==◌, ◌||◌, if◌then◌else◌, some, Bool, true, false, arith,
}
use row_armor.McSim.BlockHammer.{
  BankBlocker, act, query_rowblocker, half_window, count_filters, count_attack,
}
use row_armor.McSim.BlockHammer.Cbf.{validate, cbf_reset, not_listed}
use row_armor.McSim.BlockHammer.Cbf.Listed.{validate-Counts}
use row_armor.McSim.BlockHammer.History.{expire, hb_update, hb_query}
use row_armor.McSim.BlockHammer.Window.{
  BlockerEvent, activated, asked, half_done, Window, window_after, after_event, Spares,
  IsActivation,
}
use row_armor.McSim.BlockHammer.History.Entries.{
  HasEntry, expire-HasEntry, insert_entry-HasEntry_new, insert_entry-HasEntry,
}
use row_armor.McSim.BlockHammer.Watch.{
  Watches, count_attack-Watches, count_attack-history, count_filters-Watches, Counts-more,
  Watches-more, reset-Counts,
}

module _ (lookup_hash : ℕ → ℕ → ℕ) (lower_bound : ℕ → ℕ) (attackthrottler : Bool) (bank : ℕ)
    (a blist_th cnt_size hashes : ℕ) (some_slot : 0 < cnt_size) (some_hash : 0 < hashes) where
  -- What one event does: nothing fails, the filters count, and the history keeps what is young.
  pub record Follows (e : BlockerEvent) (w : Window) (total : ℕ) (s s' : BankBlocker) : Type 0 where
    pub runs : after_event lookup_hash lower_bound attackthrottler bank e s ≡ some s'
    pub watches :
        Watches lookup_hash lower_bound attackthrottler bank a blist_th cnt_size hashes some_slot
          some_hash
          (window_after a e w)
          (total + hashes)
          s'
    pub spares :
        (since : ℕ)
        → Spares lower_bound since e
        → HasEntry bank a since s.history
        → HasEntry bank a since s'.history
    pub notes : (since : ℕ) → IsActivation a since e → HasEntry bank a since s'.history

  pub asked-Follows :
      (row time total : ℕ) (w : Window) (s : BankBlocker)
      → Watches lookup_hash lower_bound attackthrottler bank a blist_th cnt_size hashes some_slot
          some_hash w total s
      → (s' : BankBlocker) × Follows (asked row time) w total s s'
  unfolding query_rowblocker hb_query
  asked-Follows row time total w s v =
      let alive : (s.first_cbf.valid || s.second_cbf.valid) ≡ true =
        ground (arith, v.first_is, v.second_is) in
      (
        record s { history = expire (lower_bound time) s.history },
        record {
          runs = rw (after_event, query_rowblocker, alive) refl;
          watches =
              Watches-more lookup_hash lower_bound attackthrottler bank a blist_th cnt_size hashes
                some_slot some_hash w total s
                (record s { history = expire (lower_bound time) s.history }) refl refl v;
          spares = λ since le h. expire-HasEntry (lower_bound time) bank a since s.history le h;
          notes = λ since h. absurd h;
        },
      )

  pub half_done-Follows :
      (first : Bool) (total : ℕ) (w : Window) (s : BankBlocker)
      → Watches lookup_hash lower_bound attackthrottler bank a blist_th cnt_size hashes some_slot
          some_hash w total s
      → (s' : BankBlocker) × Follows (half_done first) w total s s'
  unfolding half_window validate cbf_reset
  half_done-Follows true total w s v = (
    half_window attackthrottler true s,
    record {
      runs = refl;
      watches = record {
        first =
            validate-Counts lookup_hash a blist_th cnt_size hashes some_slot w.first_count
              (total + hashes) true s.first_cbf
              (Counts-more lookup_hash lower_bound attackthrottler bank a blist_th cnt_size hashes
                some_slot some_hash w.first_count total s.first_cbf v.first);
        second =
            reset-Counts lookup_hash lower_bound attackthrottler bank a blist_th cnt_size hashes
              some_slot some_hash w.second_count total s.second_cbf v.second;
        first_is = refl;
        second_is = refl;
        first_le = omega (arith, v.first_le);
        second_le = omega arith;
      };
      spares = λ since le h. h;
      notes = λ since h. absurd h;
    },
  )
  half_done-Follows false total w s v = (
    half_window attackthrottler false s,
    record {
      runs = refl;
      watches = record {
        first =
            reset-Counts lookup_hash lower_bound attackthrottler bank a blist_th cnt_size hashes
              some_slot some_hash w.first_count total s.first_cbf v.first;
        second =
            validate-Counts lookup_hash a blist_th cnt_size hashes some_slot w.second_count
              (total + hashes) true s.second_cbf
              (Counts-more lookup_hash lower_bound attackthrottler bank a blist_th cnt_size hashes
                some_slot some_hash w.second_count total s.second_cbf v.second);
        first_is = refl;
        second_is = refl;
        first_le = omega arith;
        second_le = omega (arith, v.second_le);
      };
      spares = λ since le h. h;
      notes = λ since h. absurd h;
    },
  )

  pub activated-Follows :
      (row th_id time total : ℕ) (w : Window) (s : BankBlocker)
      → Watches lookup_hash lower_bound attackthrottler bank a blist_th cnt_size hashes some_slot
          some_hash w total s
      → total + hashes < 2 ^ 64
      → row ≢ not_listed
      → (s' : BankBlocker) × Follows (activated row th_id time) w total s s'
  unfolding act count_filters hb_update
  activated-Follows row th_id time total w s v small real =
      let alive : (s.first_cbf.valid || s.second_cbf.valid) ≡ true =
        ground (arith, v.first_is, v.second_is) in
      let is_row : (row == not_listed) ≡ false = ground arith in
      let (s1, first_answer, second_answer, recent) =
        count_filters lookup_hash lower_bound row bank time s in
      let listed = (if s.first_cbf.valid then first_answer else second_answer) == row in
      let kept =
        count_attack-history lookup_hash lower_bound attackthrottler bank a blist_th cnt_size hashes
          some_slot some_hash attackthrottler th_id listed s1 in
      (
        count_attack attackthrottler th_id listed s1,
        record {
          runs = rw (after_event, act, is_row, alive) refl;
          watches =
              count_attack-Watches lookup_hash lower_bound attackthrottler bank a blist_th cnt_size
                hashes some_slot some_hash attackthrottler th_id listed
                (window_after a (activated row th_id time) w) (total + hashes) s1
                (count_filters-Watches lookup_hash lower_bound attackthrottler bank a blist_th
                  cnt_size hashes some_slot some_hash row time total w s v small);
          spares = λ since le h. rw kept (
              insert_entry-HasEntry bank a since
                (record { time = time; bank_num = bank; page_num = row })
                (expire (lower_bound time) s.history)
                (expire-HasEntry (lower_bound time) bank a since s.history le h));
          notes = λ since (same, at).
              rw (kept, same, at)
                (insert_entry-HasEntry_new bank a since (expire (lower_bound since) s.history));
        },
      )
