-- ===== src/Pthread/Barrier/Round.antt =====
-- A round of a barrier of PthreadBarrier.cpp: all arrive, and all are let go.
use mathlib.Core.List.{append-nil, append_assoc}
use row_armor.Base.{
  ℕ, ◌+◌, ◌≡◌, refl, Bool, true, false, ◌==◌, List, [], ◌∷◌, ◌++◌, Option, none, some, length,
  arith,
}
use row_armor.Pthread.Mutex.{update}
use row_armor.Pthread.Mutex.Exclusion.{update-same}
use row_armor.Pthread.Barrier.{
  BarrierWaiters, Barriers, push_waiter, pop_waiter, is_full, add_waiter, remove_waiter, put_back,
  init_waiters, arrive, leave,
}

-- Only the last thread is told that all have arrived.
abbrev pub last_only : List ℕ → List Bool
last_only [] = []
last_only (thread ∷ []) = true ∷ []
last_only (thread ∷ next ∷ rest) = false ∷ last_only (next ∷ rest)

length_snoc : (l : List ℕ) (t : ℕ) → length (l ++ (t ∷ [])) ≡ length l + 1
length_snoc [] t = refl
length_snoc (x ∷ l) t = omega (arith, length_snoc l t)

add_waiter_lem :
    (barrier thread num : ℕ) (ws : List ℕ) (s : Barriers)
    → s barrier ≡ some (record { num_participants = num; waiters = ws })
    → (s' : Barriers) × (add_waiter barrier thread s ≡ some (s', length ws + 1 == num))
      × (s' barrier ≡ some (record { num_participants = num; waiters = ws ++ (thread ∷ []) }))
unfolding add_waiter
add_waiter_lem barrier thread num ws s h =
    let grown : BarrierWaiters = record { num_participants = num; waiters = ws ++ (thread ∷ []) } in
    (
      update s barrier (some grown),
      rw (add_waiter, h, push_waiter, is_full, length_snoc ws thread) refl,
      update-same s barrier (some grown),
    )

arrive_lem :
    (barrier num : ℕ) (ts ws : List ℕ) (s : Barriers)
    → s barrier ≡ some (record { num_participants = num; waiters = ws })
    → length ws + length ts ≡ num
    → (s' : Barriers) × (arrive barrier ts s ≡ some (s', last_only ts))
      × (s' barrier ≡ some (record { num_participants = num; waiters = ws ++ ts }))
unfolding arrive
arrive_lem barrier num [] ws s h n = (s, refl, rw (append-nil ws) h)
arrive_lem barrier num (t ∷ []) ws s h n =
    let (s1, e, h1) = add_waiter_lem barrier t num ws s h in
    let full : (length ws + 1 == num) ≡ true = ground arith in (s1, rw (arrive, e, full) refl, h1)
arrive_lem barrier num (t ∷ u ∷ rest) ws s h n =
    let (s1, e, h1) = add_waiter_lem barrier t num ws s h in
    let more : (length ws + 1 == num) ≡ false = ground arith in
    let (s2, e2, h2) =
      arrive_lem barrier num (u ∷ rest) (ws ++ (t ∷ [])) s1 h1 (omega (arith, length_snoc ws t)) in
    (s2, rw (arrive, e, e2, more) refl, rw (← append_assoc ws (t ∷ []) (u ∷ rest)) h2)

leave_lem :
    (barrier num : ℕ) (ws : List ℕ) (s : Barriers)
    → s barrier ≡ some (record { num_participants = num; waiters = ws })
    → (s' : Barriers) × (leave barrier (length ws) s ≡ some (s', ws))
      × (s' barrier ≡ some (record { num_participants = num; waiters = [] }))
unfolding leave
leave_lem barrier num [] s h = (s, refl, h)
leave_lem barrier num (t ∷ ws) s h =
    let left : BarrierWaiters = record { num_participants = num; waiters = ws } in
    let e : remove_waiter barrier s ≡ some (update s barrier (some left), t) =
      rw (remove_waiter, h, pop_waiter, put_back) refl in
    let (s2, e2, h2) =
      leave_lem barrier num ws (update s barrier (some left)) (update-same s barrier (some left)) in
    (s2, rw (leave, e, e2) refl, h2)

init_waiters_lem :
    (barrier num : ℕ) (s : Barriers)
    → init_waiters barrier num s barrier ≡ some (record { num_participants = num; waiters = [] })
unfolding init_waiters
init_waiters_lem barrier num s = go (s barrier) refl
  where
    go :
        (o : Option BarrierWaiters)
        → s barrier ≡ o
        → init_waiters barrier num s barrier
          ≡ some (record { num_participants = num; waiters = [] })
    go none e = rw (init_waiters, e) (update-same s barrier _)
    go (some w) e = rw (init_waiters, e) (update-same s barrier _)

-- After a barrier is set up for as many threads as then arrive, whatever it held before, only the
-- last of them is told that all have arrived; as many calls of `RemoveWaiter` let the threads go in
-- the order of their arrival, and leave the barrier empty for the next round.
pub barrier_round :
    (barrier : ℕ) (ts : List ℕ) (s : Barriers)
    → (s1 : Barriers) × (s2 : Barriers) × (arrive barrier ts (init_waiters barrier (length ts) s)
        ≡ some (s1, last_only ts))
      × (leave barrier (length ts) s1 ≡ some (s2, ts))
      × (s2 barrier ≡ some (record { num_participants = length ts; waiters = [] }))
barrier_round barrier ts s =
    let (s1, e1, h1) =
      arrive_lem barrier (length ts) ts [] (init_waiters barrier (length ts) s)
        (init_waiters_lem barrier (length ts) s) (omega arith) in
    let (s2, e2, h2) = leave_lem barrier (length ts) ts s1 h1 in (s1, s2, e1, e2, h2)
