-- ===== src/Pthread/Mutex.antt =====
-- Mutexes of the simulated threads: perf_simulation/Pthread/PthreadMutex.cpp. `none` is a failed
-- `ASSERTX`. Mutexes are named by their addresses, threads by their numbers.
pub mod Exclusion
pub mod Invariant
pub mod Handover
use row_armor.Base.{
  ℕ, zero, suc, ◌+◌, ◌-◌, ◌^◌, ◌%◌, Bool, true, false, not, ◌&&◌, ◌||◌, ltb, ◌==◌, if◌then◌else◌,
  List, [], ◌∷◌, ◌++◌, Option, none, some,
}

-- `PTHREAD_MUTEX_DEFAULT` is the same number as `PTHREAD_MUTEX_FAST_NP`.
pub data Kind : Type 0 where
  fast recursive errorcheck : Kind

pub record Mutex : Type 0 where
  pub kind : Kind
  pub count : ℕ
  pub owner : ℕ

-- The owner -1, converted to `pthread_t`.
abbrev pub no_owner : ℕ
no_owner = 2 ^ 64 - 1

-- The mutexes in memory, and the queues of the threads that spin on them.
pub record Manager : Type 0 where
  pub mutex : ℕ → Mutex
  pub spinning : ℕ → Option (List ℕ)

pub data LockResult : Type 0 where
  success edeadlk ebusy : LockResult

pub data UnlockResult : Type 0 where
  released eperm : UnlockResult

abbrev pub update {ℓ} : {A : Type ℓ} (table : ℕ → A) (key : ℕ) (entry : A) (j : ℕ) → A
update table key entry j = if j == key then entry else table j

-- With an attribute, what the field for the kind held before has to be a known kind, which it is in
-- this model.
unfoldable pub mutex_init : Option Kind → Mutex
mutex_init none = record { kind = fast; count = 0; owner = no_owner }
mutex_init (some kind) = record { kind = kind; count = 0; owner = no_owner }

unfoldable pub is_locked : Mutex → Bool
is_locked m = ltb 0 m.count

-- `(pthread_t)(int)owner`: the low 32 bits, and their sign.
unfoldable pub as_owner : ℕ → ℕ
as_owner thread =
    if ltb (thread % 2 ^ 32) (2 ^ 31) then thread % 2 ^ 32 else thread % 2 ^ 32 + (2 ^ 64 - 2 ^ 32)

unfoldable pub lock_mutex : Mutex → ℕ → Mutex
lock_mutex m thread = record m { count = 1; owner = as_owner thread }

unfoldable pub lock_again : Mutex → Option Mutex
lock_again m = if ltb 0 m.count then some (record m { count = (m.count + 1) % 2 ^ 32 }) else none

unfoldable pub unlock_mutex : Mutex → Mutex
unlock_mutex m = record m { count = 0 }

unfoldable pub unlock_again : Mutex → Option Mutex
unlock_again m = if ltb 0 m.count then some (record m { count = m.count - 1 }) else none

-- A new queue, or one more thread at the end of the queue.
unfoldable pub push_thread : Option (List ℕ) → ℕ → List ℕ
push_thread none thread = thread ∷ []
push_thread (some queue) thread = queue ++ (thread ∷ [])

unfoldable pub block_thread : ℕ → ℕ → Manager → Manager
unfolding push_thread
block_thread thread m s = record s {
  spinning = update s.spinning m (some (push_thread (s.spinning m) thread));
}

-- The thread owns the mutex already.
unfoldable pub relock : Kind → ℕ → ℕ → Bool → Manager → Option (Manager × LockResult)
unfolding block_thread lock_again
relock fast thread m trylock s = some (if trylock then s else block_thread thread m s, edeadlk)
relock errorcheck thread m trylock s =
    some (if trylock then s else block_thread thread m s, edeadlk)
relock recursive thread m trylock s = elim (lock_again (s.mutex m)) [
  | none ↦ none
  | some again ↦ some (record s { mutex = update s.mutex m again }, success)
]

unfoldable pub lock : ℕ → ℕ → Bool → Manager → Option (Manager × LockResult)
unfolding is_locked lock_mutex relock block_thread
lock thread m trylock s =
    if not (is_locked (s.mutex m))
    then some (record s { mutex = update s.mutex m (lock_mutex (s.mutex m) thread) }, success)
    else (if (s.mutex m).owner == thread
        then relock (s.mutex m).kind thread m trylock s
        else some (if trylock then s else block_thread thread m s, ebusy))

-- `PopThread`, and the queue that is left, or `none` where it is erased.
unfoldable pub pop_thread : List ℕ → Option (ℕ × Option (List ℕ))
pop_thread [] = none
pop_thread (thread ∷ []) = some (thread, none)
pop_thread (thread ∷ next ∷ rest) = some (thread, some (next ∷ rest))

-- The manager, and the thread that is unblocked, if any.
unfoldable pub hand_to : ℕ → Option (ℕ × Option (List ℕ)) → Manager → Option (Manager × Option ℕ)
unfolding lock
hand_to m none s = none
hand_to m (some (thread, rest)) s =
    elim (lock thread m false (record s { spinning = update s.spinning m rest })) [
      | none ↦ none
      | some (s', r) ↦ some (s', some thread)
    ]

unfoldable pub unblock_thread : ℕ → Manager → Option (Manager × Option ℕ)
unfolding hand_to pop_thread
unblock_thread m s = elim (s.spinning m) [
  | none ↦ some (s, none)
  | some queue ↦ hand_to m (pop_thread queue) s
]

-- The state after an unlocking, by kind; the flag says whether a spinning thread may be let in.
unfoldable pub release : Kind → ℕ → Manager → Option (Manager × Bool)
unfolding unlock_again unlock_mutex
release recursive m s = elim (unlock_again (s.mutex m)) [
  | none ↦ none
  | some left ↦ some (record s { mutex = update s.mutex m left }, not (ltb 0 left.count))
]
release fast m s = some (record s { mutex = update s.mutex m (unlock_mutex (s.mutex m)) }, true)
release errorcheck m s =
    some (record s { mutex = update s.mutex m (unlock_mutex (s.mutex m)) }, true)

abbrev pub is_errorcheck : Kind → Bool
is_errorcheck errorcheck = true
is_errorcheck fast = false
is_errorcheck recursive = false

-- The manager, the thread that is unblocked, and the error.
unfoldable pub unlock : ℕ → ℕ → Manager → Option (Manager × Option ℕ × UnlockResult)
unfolding release unblock_thread is_locked
unlock thread m s =
    if is_errorcheck (s.mutex m).kind
      && (not (is_locked (s.mutex m)) || not ((s.mutex m).owner == thread))
    then some (s, none, eperm)
    else elim (release (s.mutex m).kind m s) [
      | none ↦ none
      | some (s1, free) ↦ elim free [
        | false ↦ some (s1, none, released)
        | true ↦ elim (unblock_thread m s1) [
          | none ↦ none
          | some (s2, unblocked) ↦ some (s2, unblocked, released)
        ]
      ]
    ]
