-- ===== src/Pthread/Barrier.antt =====
-- Barriers of the simulated threads: perf_simulation/Pthread/PthreadBarrier.cpp. `none` is a failed
-- `ASSERTX`. Barriers are named by their addresses, threads by their numbers.
pub mod Round
use row_armor.Base.{
  ℕ, zero, suc, Bool, true, false, not, ◌==◌, List, [], ◌∷◌, ◌++◌, Option, none, some, length,
}
use row_armor.Pthread.Mutex.{update}

pub record BarrierWaiters : Type 0 where
  pub num_participants : ℕ
  pub waiters : List ℕ

-- The table `barriers` of the manager.
abbrev pub Barriers : Type 0
Barriers = ℕ → Option BarrierWaiters

unfoldable pub push_waiter : BarrierWaiters → ℕ → BarrierWaiters
push_waiter w thread = record w { waiters = w.waiters ++ (thread ∷ []) }

unfoldable pub pop_waiter : BarrierWaiters → Option (BarrierWaiters × ℕ)
pop_waiter w = elim w.waiters [
  | [] ↦ none
  | thread ∷ rest ↦ some (record w { waiters = rest }, thread)
]

unfoldable pub is_full : BarrierWaiters → Bool
is_full w = length w.waiters == w.num_participants

unfoldable pub num_participants_of : ℕ → Barriers → Option ℕ
num_participants_of barrier s = elim (s barrier) [ none ↦ none | some w ↦ some w.num_participants ]

unfoldable pub is_empty : BarrierWaiters → Bool
is_empty w = elim w.waiters [ [] ↦ true | thread ∷ rest ↦ false ]

unfoldable pub has_more_waiters : ℕ → Barriers → Option Bool
unfolding is_empty
has_more_waiters barrier s = elim (s barrier) [ none ↦ none | some w ↦ some (not (is_empty w)) ]

-- The answer says whether all participants have arrived.
unfoldable pub add_waiter : ℕ → ℕ → Barriers → Option (Barriers × Bool)
unfolding push_waiter is_full
add_waiter barrier thread s = elim (s barrier) [
  | none ↦ none
  | some w ↦ some (update s barrier (some (push_waiter w thread)), is_full (push_waiter w thread))
]

unfoldable pub put_back : ℕ → Option (BarrierWaiters × ℕ) → Barriers → Option (Barriers × ℕ)
put_back barrier none s = none
put_back barrier (some (w, thread)) s = some (update s barrier (some w), thread)

unfoldable pub remove_waiter : ℕ → Barriers → Option (Barriers × ℕ)
unfolding pop_waiter put_back
remove_waiter barrier s = elim (s barrier) [
  | none ↦ none
  | some w ↦ put_back barrier (pop_waiter w) s
]

unfoldable pub init_waiters : ℕ → ℕ → Barriers → Barriers
init_waiters barrier num s = elim (s barrier) [
  | none ↦ update s barrier (some (record { num_participants = num; waiters = [] }))
  | some w ↦ update s barrier (some (record w { num_participants = num; waiters = [] }))
]

unfoldable pub destroy_waiters : ℕ → Barriers → Option Barriers
destroy_waiters barrier s = elim (s barrier) [ none ↦ none | some w ↦ some (update s barrier none) ]

-- Some threads reach a barrier one after another: the answers.
unfoldable pub arrive : ℕ → List ℕ → Barriers → Option (Barriers × List Bool)
unfolding add_waiter
arrive barrier [] s = some (s, [])
arrive barrier (thread ∷ rest) s = elim (add_waiter barrier thread s) [
  | none ↦ none
  | some (s1, full) ↦ elim (arrive barrier rest s1) [
    | none ↦ none
    | some (s2, answers) ↦ some (s2, full ∷ answers)
  ]
]

-- Some threads are let go one after another: their numbers.
unfoldable pub leave : ℕ → ℕ → Barriers → Option (Barriers × List ℕ)
unfolding remove_waiter
leave barrier zero s = some (s, [])
leave barrier (suc n) s = elim (remove_waiter barrier s) [
  | none ↦ none
  | some (s1, thread) ↦ elim (leave barrier n s1) [
    | none ↦ none
    | some (s2, threads) ↦ some (s2, thread ∷ threads)
  ]
]
