-- ===== src/McSim/Graphene.antt =====
-- The table of row counters of perf_simulation/McSim/PTSMemoryController.cc: class Graphene, and
-- the table of class RRS, which counts in the same way. A table is the list of its entries, of which
-- there is at least one: the source writes out of bounds where there is none.
pub mod Sort
pub mod Sum
pub mod Count
pub mod Activate
pub mod Guarantee
use row_armor.Base.{
  ℕ, zero, suc, ◌+◌, ◌-◌, ◌*◌, ◌%◌, ◌^◌, leb, ◌==◌, ◌&&◌, not, Bool, true, false, if◌then◌else◌,
  List, [], ◌∷◌, length, get_or, set, replicate,
}

pub record GrapheneEntry : Type 0 where
  pub address : ℕ
  pub count : ℕ

-- A new entry, and one after `reset_address` and `reset_count`.
abbrev pub empty_entry : GrapheneEntry
empty_entry = record { address = 2 ^ 62; count = 0 }

abbrev pub Table : Type 0
Table = List GrapheneEntry

abbrev pub entry_at : Table → ℕ → GrapheneEntry
entry_at es i = get_or es i empty_entry

-- The index of the first entry with the address, or the number of entries.
unfoldable pub find_entry : Table → ℕ → ℕ
find_entry [] addr = 0
find_entry (e ∷ es) addr = if e.address == addr then 0 else suc (find_entry es addr)

unfoldable pub increment_count : GrapheneEntry → GrapheneEntry
increment_count e = record e { count = (e.count + 1) % 2 ^ 64 }

unfoldable pub swap_up : Table → ℕ → Table
swap_up es i = set (set es (suc i) (entry_at es i)) i (entry_at es (suc i))

-- The loop that moves the entry at `i` up, and where the entry is in the end.
unfoldable pub sort_up : ℕ → Table → Table × ℕ
unfolding swap_up
sort_up zero es = (es, 0)
sort_up (suc i) es =
    let rest = sort_up i (swap_up es i) in
    if leb (entry_at es (suc i)).count (entry_at es i).count then (es, suc i) else rest

-- The entry that an activation counts on: the one of the row, or the last one, which is then the
-- row's.
unfoldable pub counted_table : Table → ℕ → Table × ℕ
unfolding find_entry increment_count
counted_table es addr =
    let i = find_entry es addr in
    if i == length es
    then (
      set es (length es - 1)
          (increment_count (record (entry_at es (length es - 1)) { address = addr })),
      length es - 1,
    )
    else (set es i (increment_count (entry_at es i)), i)

-- The table after an activation, and the count of the row.
unfoldable pub count_row : Table → ℕ → Table × ℕ
unfolding counted_table sort_up
count_row es addr =
    let (es1, dest) = counted_table es addr in
    let (es2, dest2) = sort_up dest es1 in (es2, (entry_at es2 dest2).count)

-- `Graphene::activate`: 1 where the row's neighbours are to be refreshed.
unfoldable pub graphene_activate : ℕ → Table → ℕ → Table × ℕ
unfolding count_row
graphene_activate threshold es addr =
    let (es', count) = count_row es addr in (es', if count % threshold == 0 then 1 else 0)

-- `Graphene::flush`, `RRS::periodic_refresh` and the state after construction.
unfoldable pub flush : ℕ → Table
flush size = replicate size empty_entry

-- `RRS::update_hrt`: whether the row is to be swapped.
unfoldable pub update_hrt : ℕ → Table → ℕ → Table × Bool
unfolding count_row
update_hrt rrs_hrt_threshold es row_addr =
    let (es', count) = count_row es row_addr in
    (es', (count % rrs_hrt_threshold == 0) && not (count == 0))

-- The clock of the evictions of class RRS.
pub record LazyClock : Type 0 where
  pub last_lazy_eviction_time : ℕ
  pub lazy_eviction_count : ℕ

-- The constructor leaves the time unset until this is called.
unfoldable pub set_lazy_eviction_time : ℕ → LazyClock → LazyClock
set_lazy_eviction_time interval s = record s { last_lazy_eviction_time = 8192 * interval % 2 ^ 64 }

-- Whether it is time to evict; the difference of the times wraps around.
unfoldable pub lazy_eviction : ℕ → ℕ → LazyClock → LazyClock × Bool
lazy_eviction time interval s =
    let diff = (time + 2 ^ 64 - s.last_lazy_eviction_time) % 2 ^ 64 in
    if leb diff interval then (s, false) else (
      record s {
        last_lazy_eviction_time = time;
        lazy_eviction_count = (s.lazy_eviction_count + 1) % 2 ^ 64;
      },
      true,
    )
