-- ===== src/Pthread/Cond.antt =====
-- Condition variables of the simulated threads: perf_simulation/Pthread/PthreadCond.cpp. `none` is a
-- failed `ASSERTX`. Variables and mutexes are named by their addresses, threads by their numbers.
pub mod Signal
use row_armor.Base.{ℕ, zero, suc, Bool, true, false, List, [], ◌∷◌, ◌++◌, Option, none, some}
use row_armor.Pthread.Mutex.{update}

-- A thread that waits, and the mutex that it takes again afterwards.
pub record WaitState : Type 0 where
  pub thread : ℕ
  pub mutex : ℕ

-- The table `waiters` of the manager.
abbrev pub CondWaiters : Type 0
CondWaiters = ℕ → Option (List WaitState)

-- `PthreadWaiters::PushWaiter`, on a new queue where there is none.
unfoldable pub push_wait_state : Option (List WaitState) → WaitState → List WaitState
push_wait_state none w = w ∷ []
push_wait_state (some queue) w = queue ++ (w ∷ [])

unfoldable pub add_wait_state : ℕ → WaitState → CondWaiters → CondWaiters
unfolding push_wait_state
add_wait_state cond w s = update s cond (some (push_wait_state (s cond) w))

-- `PopWaiter`, and the queue that is left, or `none` where it is erased.
unfoldable pub pop_wait_state :
    Option (List WaitState) → Option (Option (List WaitState) × WaitState)
pop_wait_state none = none
pop_wait_state (some []) = none
pop_wait_state (some (w ∷ [])) = some (none, w)
pop_wait_state (some (w ∷ next ∷ rest)) = some (some (next ∷ rest), w)

unfoldable pub remove_wait_state : ℕ → CondWaiters → Option (CondWaiters × WaitState)
unfolding pop_wait_state
remove_wait_state cond s = elim (pop_wait_state (s cond)) [
  | none ↦ none
  | some (left, w) ↦ some (update s cond left, w)
]

unfoldable pub has_waiting : ℕ → CondWaiters → Bool
has_waiting cond s = elim (s cond) [ none ↦ false | some queue ↦ true ]

-- Some threads wait, one after another.
unfoldable pub wait_all : ℕ → List WaitState → CondWaiters → CondWaiters
unfolding add_wait_state
wait_all cond [] s = s
wait_all cond (w ∷ rest) s = wait_all cond rest (add_wait_state cond w s)

-- Some are released, one after another.
unfoldable pub release_all : ℕ → ℕ → CondWaiters → Option (CondWaiters × List WaitState)
unfolding remove_wait_state
release_all cond zero s = some (s, [])
release_all cond (suc n) s = elim (remove_wait_state cond s) [
  | none ↦ none
  | some (s1, w) ↦ elim (release_all cond n s1) [ none ↦ none | some (s2, ws) ↦ some (s2, w ∷ ws) ]
]
