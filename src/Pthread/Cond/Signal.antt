-- ===== src/Pthread/Cond/Signal.antt =====
-- The order in which PthreadCond.cpp releases the threads that wait on a variable.
use mathlib.Core.List.{append-nil, append_assoc}
use row_armor.Base.{ℕ, ◌≡◌, refl, false, List, [], ◌∷◌, ◌++◌, Option, none, some, length, ◌∙◌, ap}
use row_armor.Pthread.Mutex.{update}
use row_armor.Pthread.Mutex.Exclusion.{update-same}
use row_armor.Pthread.Cond.{
  WaitState, CondWaiters, push_wait_state, add_wait_state, pop_wait_state, remove_wait_state,
  has_waiting, wait_all, release_all,
}

-- The table's entry for a queue: an empty one is not kept.
abbrev pub kept_queue : List WaitState → Option (List WaitState)
kept_queue [] = none
kept_queue (w ∷ ws) = some (w ∷ ws)

pushed :
    (old : List WaitState) (w : WaitState)
    → some (push_wait_state (kept_queue old) w) ≡ kept_queue (old ++ (w ∷ []))
unfolding push_wait_state
pushed [] w = refl
pushed (x ∷ old) w = refl

wait_all_lem :
    (cond : ℕ) (ws old : List WaitState) (s : CondWaiters)
    → s cond ≡ kept_queue old
    → wait_all cond ws s cond ≡ kept_queue (old ++ ws)
unfolding wait_all
wait_all_lem cond [] old s h = rw (append-nil old) h
wait_all_lem cond (w ∷ ws) old s h =
    let added : add_wait_state cond w s cond ≡ kept_queue (old ++ (w ∷ [])) =
      update-same s cond _ ∙ ap (λ o. some (push_wait_state o w)) h ∙ pushed old w in
    wait_all_lem cond ws (old ++ (w ∷ [])) (add_wait_state cond w s) added
    ∙ ap kept_queue (append_assoc old (w ∷ []) ws)

popped :
    (w : WaitState) (ws : List WaitState)
    → pop_wait_state (kept_queue (w ∷ ws)) ≡ some (kept_queue ws, w)
unfolding pop_wait_state
popped w [] = refl
popped w (next ∷ ws) = refl

release_all_lem :
    (cond : ℕ) (ws : List WaitState) (s : CondWaiters)
    → s cond ≡ kept_queue ws
    → (s' : CondWaiters) × (release_all cond (length ws) s ≡ some (s', ws)) × (s' cond ≡ none)
unfolding release_all
release_all_lem cond [] s h = (s, refl, h)
release_all_lem cond (w ∷ ws) s h =
    let e : remove_wait_state cond s ≡ some (update s cond (kept_queue ws), w) =
      rw (remove_wait_state, h, popped w ws) refl in
    let (s2, e2, h2) =
      release_all_lem cond ws (update s cond (kept_queue ws))
        (update-same s cond (kept_queue ws)) in
    (s2, rw (release_all, e, e2) refl, h2)

-- Threads that begin to wait on a variable, behind those that wait already, are released with their
-- mutexes by as many calls of `RemoveWaiter`, in the order in which they came; then none waits.
pub wait_then_release :
    (cond : ℕ) (ws old : List WaitState) (s : CondWaiters)
    → s cond ≡ kept_queue old
    → (s' : CondWaiters) × (release_all cond (length (old ++ ws)) (wait_all cond ws s)
        ≡ some (s', old ++ ws))
      × (has_waiting cond s' ≡ false)
unfolding has_waiting
wait_then_release cond ws old s h =
    let (s', e, empty) =
      release_all_lem cond (old ++ ws) (wait_all cond ws s) (wait_all_lem cond ws old s h) in
    (s', e, rw (has_waiting, empty) refl)
