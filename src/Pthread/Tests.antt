-- ===== src/Pthread/Tests.antt =====
-- The theorems on perf_simulation/Pthread, on concrete states.
use row_armor.Base.{◌≡◌, refl, [], ◌∷◌, none, some, false, arith, if◌then◌else◌, ◌==◌, true}
use row_armor.Pthread.Barrier.{Barriers, arrive, leave, init_waiters}
use row_armor.Pthread.Cond.{WaitState, CondWaiters, wait_all, release_all, has_waiting}
use row_armor.Pthread.Cond.Signal.{wait_then_release}
use row_armor.Pthread.Barrier.Round.{barrier_round}
use row_armor.Pthread.Mutex.{recursive, errorcheck, Manager, released, lock, unlock}
use row_armor.Pthread.Mutex.Exclusion.{IsExcluding, lock_excludes}
use row_armor.Pthread.Mutex.Handover.{
  IsHeldBy, unlock_hands_over, enter, wake, enter_then_wake, entry,
}
use row_armor.Pthread.Mutex.Invariant.{
  IsConsistent, KeepsConsistent, UnlockKeepsConsistent, lock-IsConsistent, unlock-IsConsistent,
}

-- Thread 5 holds every mutex once, and nobody waits.
abbrev held_by_5 : Manager
held_by_5 = record {
  mutex = λ _. record { kind = recursive; count = 1; owner = 5 };
  spinning = λ _. none;
}

-- Threads 8 and 9 wait for mutex 100.
abbrev waiting : Manager
waiting = record {
  mutex = λ _. record { kind = errorcheck; count = 1; owner = 5 };
  spinning = λ m. if m == 100 then some (8 ∷ 9 ∷ []) else none;
}

held_by_5-IsConsistent : IsConsistent held_by_5
held_by_5-IsConsistent m queue h = absurd (ground arith)

lock_excludes_example : IsExcluding 6 100 held_by_5 (lock 6 100 false held_by_5)
lock_excludes_example = lock_excludes 6 100 false held_by_5 (omega arith)

unlock_hands_over_example :
    (s' : Manager) × (unlock 5 100 waiting ≡ some (s', some 8, released))
    × IsHeldBy s' 100 8
    × (s'.spinning 100 ≡ entry (9 ∷ []))
    × ((s'.mutex 100).kind ≡ errorcheck)
unlock_hands_over_example = unlock_hands_over 100 8 (9 ∷ []) waiting refl refl

enter_then_wake_example :
    (s1 : Manager) × (s2 : Manager) × (enter (3 ∷ 4 ∷ []) 100 waiting ≡ some s1)
    × (wake 4 100 s1 ≡ some (s2, 8 ∷ 9 ∷ 3 ∷ 4 ∷ []))
    × (s2.spinning 100 ≡ none)
enter_then_wake_example =
    enter_then_wake (3 ∷ 4 ∷ []) (8 ∷ 9 ∷ []) 100 waiting refl
      (λ h. absurd (omega arith), (λ h. absurd (omega arith), tt)) refl

lock-IsConsistent_example : KeepsConsistent (lock 6 100 false held_by_5)
lock-IsConsistent_example =
    lock-IsConsistent 6 100 false held_by_5 held_by_5-IsConsistent (λ m. omega arith)

unlock-IsConsistent_example : UnlockKeepsConsistent (unlock 5 100 held_by_5)
unlock-IsConsistent_example =
    unlock-IsConsistent 5 100 held_by_5 held_by_5-IsConsistent (λ _. omega arith)

barrier_round_example :
    (s1 : Barriers) × (s2 : Barriers) × (arrive 40 (7 ∷ 3 ∷ 9 ∷ []) (init_waiters 40 3 (λ _. none))
      ≡ some (s1, false ∷ false ∷ true ∷ []))
    × (leave 40 3 s1 ≡ some (s2, 7 ∷ 3 ∷ 9 ∷ []))
    × (s2 40 ≡ some (record { num_participants = 3; waiters = [] }))
barrier_round_example = barrier_round 40 (7 ∷ 3 ∷ 9 ∷ []) (λ _. none)

abbrev third : WaitState
third = record { thread = 3; mutex = 100 }

abbrev fourth : WaitState
fourth = record { thread = 4; mutex = 200 }

wait_then_release_example :
    (s' : CondWaiters) × (release_all 50 3
        (wait_all 50 (third ∷ fourth ∷ []) (λ _. some (fourth ∷ [])))
      ≡ some (s', fourth ∷ third ∷ fourth ∷ []))
    × (has_waiting 50 s' ≡ false)
wait_then_release_example =
    wait_then_release 50 (third ∷ fourth ∷ []) (fourth ∷ []) (λ _. some (fourth ∷ [])) refl
