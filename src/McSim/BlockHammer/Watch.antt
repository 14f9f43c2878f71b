-- ===== src/McSim/BlockHammer/Watch.antt =====
-- What the two filters of class BlockHammer know of a row.
use row_armor.Base.{
  ℕ, ◌+◌, ◌^◌, ◌<◌, ◌≤◌, ◌≡◌, inl, inr, refl, ◌&&◌, not, Bool, false, arith, Bool-cases,
}
use row_armor.McSim.BlockHammer.{BankBlocker, count_filters, count_attack}
use row_armor.McSim.BlockHammer.Cbf.{RowBlockerCbf, validate, cbf_update, cbf_reset}
use row_armor.McSim.BlockHammer.Cbf.Listed.{
  Counts, cbf_update-Counts, cbf_reset-Counts, validate-Counts,
}
use row_armor.McSim.BlockHammer.Window.{activated, Window, window_after}

module _ (lookup_hash : ℕ → ℕ → ℕ) (lower_bound : ℕ → ℕ) (attackthrottler : Bool) (bank : ℕ)
    (a blist_th cnt_size hashes : ℕ) (some_slot : 0 < cnt_size) (some_hash : 0 < hashes) where
  -- What the two filters of the bank know of the row.
  pub record Watches (w : Window) (total : ℕ) (s : BankBlocker) : Type 0 where
    pub first :
        Counts lookup_hash a blist_th cnt_size hashes some_slot w.first_count total s.first_cbf
    pub second :
        Counts lookup_hash a blist_th cnt_size hashes some_slot w.second_count total s.second_cbf
    pub first_is : s.first_cbf.valid ≡ w.first_valid
    pub second_is : s.second_cbf.valid ≡ not w.first_valid
    pub first_le : w.first_count ≤ total
    pub second_le : w.second_count ≤ total

  pub count_attack-Watches :
      (on : Bool) (th_id : ℕ) (listed : Bool) (w : Window) (total : ℕ) (s : BankBlocker)
      → Watches w total s
      → Watches w total (count_attack on th_id listed s)
  unfolding count_attack
  count_attack-Watches on th_id listed w total s v = elim (Bool-cases (on && listed)) [
    | inl counted ↦ elim (Bool-cases s.first_throttler.valid) [
      | inl one ↦
          rw (count_attack, counted, one)
            (record {
              first = v.first;
              second = v.second;
              first_is = v.first_is;
              second_is = v.second_is;
              first_le = v.first_le;
              second_le = v.second_le;
            })
      | inr other ↦
          rw (count_attack, counted, other)
            (record {
              first = v.first;
              second = v.second;
              first_is = v.first_is;
              second_is = v.second_is;
              first_le = v.first_le;
              second_le = v.second_le;
            })
    ]
    | inr free ↦ rw (count_attack, free) v
  ]

  pub count_attack-history :
      (on : Bool) (th_id : ℕ) (listed : Bool) (s : BankBlocker)
      → (count_attack on th_id listed s).history ≡ s.history
  unfolding count_attack
  count_attack-history on th_id listed s = elim (Bool-cases (on && listed)) [
    | inl counted ↦ elim (Bool-cases s.first_throttler.valid) [
      | inl one ↦ rw (count_attack, counted, one) refl
      | inr other ↦ rw (count_attack, counted, other) refl
    ]
    | inr free ↦ rw (count_attack, free) refl
  ]

  pub count_filters-Watches :
      (row time total : ℕ) (w : Window) (s : BankBlocker)
      → Watches w total s
      → total + hashes < 2 ^ 64
      → Watches
          (window_after a (activated row 0 time) w)
          (total + hashes)
          (count_filters lookup_hash lower_bound row bank time s).0
  unfolding count_filters cbf_update
  count_filters-Watches row time total w s v small =
      let (first, _) =
        cbf_update-Counts lookup_hash a blist_th cnt_size hashes some_slot row w.first_count total
          s.first_cbf v.first small (omega (arith, v.first_le)) in
      let (second, _) =
        cbf_update-Counts lookup_hash a blist_th cnt_size hashes some_slot row w.second_count total
          s.second_cbf v.second small (omega (arith, v.second_le)) in
      record {
        first = first;
        second = second;
        first_is = v.first_is;
        second_is = v.second_is;
        first_le = ground (arith, v.first_le);
        second_le = ground (arith, v.second_le);
      }

  pub Counts-more :
      (n total : ℕ) (s : RowBlockerCbf)
      → Counts lookup_hash a blist_th cnt_size hashes some_slot n total s
      → Counts lookup_hash a blist_th cnt_size hashes some_slot n (total + hashes) s
  Counts-more n total s t = record {
    th_is = t.th_is;
    size_is = t.size_is;
    hashes_is = t.hashes_is;
    len = t.len;
    enough = t.enough;
    bounded = λ k. omega (arith, t.bounded k);
  }

  pub Watches-more :
      (w : Window) (total : ℕ) (s s' : BankBlocker)
      → s'.first_cbf ≡ s.first_cbf
      → s'.second_cbf ≡ s.second_cbf
      → Watches w total s
      → Watches w (total + hashes) s'
  Watches-more w total s s' same_first same_second v = record {
    first = rw same_first (Counts-more w.first_count total s.first_cbf v.first);
    second = rw same_second (Counts-more w.second_count total s.second_cbf v.second);
    first_is = rw same_first v.first_is;
    second_is = rw same_second v.second_is;
    first_le = omega (arith, v.first_le);
    second_le = omega (arith, v.second_le);
  }

  pub reset-Counts :
      (n total : ℕ) (s : RowBlockerCbf)
      → Counts lookup_hash a blist_th cnt_size hashes some_slot n total s
      → Counts lookup_hash a blist_th cnt_size hashes some_slot 0
          (total + hashes)
          (cbf_reset (validate false s))
  reset-Counts n total s t = Counts-more 0 total (cbf_reset (validate false s)) (
      cbf_reset-Counts lookup_hash a blist_th cnt_size hashes some_slot n total (validate false s)
        (validate-Counts lookup_hash a blist_th cnt_size hashes some_slot n total false s t))
