-- ===== src/Pthread/Mutex/Handover.antt =====
-- The order in which PthreadMutex.cpp lets the spinning threads in.
use row_armor.Base.{
  ℕ, zero, suc, ◌≡◌, ◌≢◌, refl, true, false, not, ◌&&◌, ◌||◌, ltb, ◌==◌, List, [], ◌∷◌, ◌++◌,
  Option, none, some, arith, ap, ◌∙◌, sym, subst, length,
}
use mathlib.Core.List.{append-nil, append_assoc}
use row_armor.Pthread.Mutex.{
  Kind, fast, recursive, errorcheck, Manager, ebusy, is_locked, push_thread, block_thread, lock,
  unlock, released, lock_mutex, as_owner, pop_thread, hand_to, unblock_thread, release,
  unlock_mutex, unlock_again, is_errorcheck,
}
use row_armor.Pthread.Mutex.Exclusion.{update-same}

-- The table's entry for the threads that spin on a mutex: no queue is kept empty.
abbrev pub entry : List ℕ → Option (List ℕ)
entry [] = none
entry (thread ∷ rest) = some (thread ∷ rest)

-- The mutex belongs to a thread that holds it once.
pub record IsHeldBy (s : Manager) (m thread : ℕ) : Type 0 where
  pub once : (s.mutex m).count ≡ 1
  pub owner : (s.mutex m).owner ≡ as_owner thread

-- The mutex is handed to a free thread.
hand_over :
    (m thread : ℕ) (rest : List ℕ) (s : Manager)
    → (s.mutex m).count ≡ 0
    → (s' : Manager) × (hand_to m (pop_thread (thread ∷ rest)) s ≡ some (s', some thread))
      × IsHeldBy s' m thread
      × (s'.spinning m ≡ entry rest)
      × ((s'.mutex m).kind ≡ (s.mutex m).kind)
unfolding hand_to lock pop_thread is_locked lock_mutex
hand_over m thread [] s free =
    rw (hand_to, lock, is_locked, free)
      (
        _,
        refl,
        record {
          once = ap (λ a. a.count) (update-same s.mutex m _);
          owner = ap (λ a. a.owner) (update-same s.mutex m _);
        },
        update-same s.spinning m none,
        ap (λ a. a.kind) (update-same s.mutex m _),
      )
hand_over m thread (next ∷ rest) s free =
    rw (hand_to, lock, is_locked, free)
      (
        _,
        refl,
        record {
          once = ap (λ a. a.count) (update-same s.mutex m _);
          owner = ap (λ a. a.owner) (update-same s.mutex m _);
        },
        update-same s.spinning m (some (next ∷ rest)),
        ap (λ a. a.kind) (update-same s.mutex m _),
      )

-- `Unlock` by the owner, `n` times: the threads that are let in.
unfoldable pub wake : ℕ → ℕ → Manager → Option (Manager × List ℕ)
unfolding unlock
wake zero m s = some (s, [])
wake (suc n) m s = elim (unlock (s.mutex m).owner m s) [
  | none ↦ none
  | some (s1, none, r) ↦ some (s1, [])
  | some (s1, some thread, r) ↦ elim (wake n m s1) [
    | none ↦ none
    | some (s2, threads) ↦ some (s2, thread ∷ threads)
  ]
]

-- The mutex is free, and nothing else has changed.
record IsFreed (s s1 : Manager) (m : ℕ) : Type 0 where
  free : (s1.mutex m).count ≡ 0
  kept : (s1.mutex m).kind ≡ (s.mutex m).kind
  waiting : s1.spinning m ≡ s.spinning m

release_frees :
    (k : Kind) (m : ℕ) (s : Manager)
    → (s.mutex m).kind ≡ k
    → (s.mutex m).count ≡ 1
    → (s1 : Manager) × (release k m s ≡ some (s1, true)) × IsFreed s s1 m
unfolding release unlock_again unlock_mutex
release_frees fast m s k held = (
  _,
  refl,
  record {
    free = ap (λ a. a.count) (update-same s.mutex m _);
    kept = ap (λ a. a.kind) (update-same s.mutex m _);
    waiting = refl;
  },
)
release_frees errorcheck m s k held = (
  _,
  refl,
  record {
    free = ap (λ a. a.count) (update-same s.mutex m _);
    kept = ap (λ a. a.kind) (update-same s.mutex m _);
    waiting = refl;
  },
)
release_frees recursive m s k held =
    rw (release, unlock_again, held)
      (
        _,
        refl,
        record {
          free = ap (λ a. a.count) (update-same s.mutex m _);
          kept = ap (λ a. a.kind) (update-same s.mutex m _);
          waiting = refl;
        },
      )

owner_may_unlock :
    (kind : Kind) (count owner : ℕ)
    → count ≡ 1
    → (is_errorcheck kind && (not (ltb 0 count) || not (owner == owner))) ≡ false
owner_may_unlock fast count owner h = refl
owner_may_unlock recursive count owner h = refl
owner_may_unlock errorcheck count owner h = ground arith

-- A mutex that its owner holds once has a waiting thread: `Unlock` by the owner lets in the next of
-- the queue, which then holds the mutex once, and the rest of the queue stays in its order.
pub unlock_hands_over :
    (m thread : ℕ) (rest : List ℕ) (s : Manager)
    → (s.mutex m).count ≡ 1
    → s.spinning m ≡ some (thread ∷ rest)
    → (s' : Manager) × (unlock (s.mutex m).owner m s ≡ some (s', some thread, released))
      × IsHeldBy s' m thread
      × (s'.spinning m ≡ entry rest)
      × ((s'.mutex m).kind ≡ (s.mutex m).kind)
unfolding unlock
unlock_hands_over m thread rest s held waiting =
    let (s1, r, f) = release_frees (s.mutex m).kind m s refl held in
    let (s', h, by, q, k) = hand_over m thread rest s1 f.free in
    (
      s',
      rw
          (
            unlock,
            is_locked,
            owner_may_unlock (s.mutex m).kind (s.mutex m).count (s.mutex m).owner held,
            r,
            unblock_thread,
            f.waiting,
            waiting,
            h,
          )
          refl,
      by,
      q,
      k ∙ f.kept,
    )

-- As many calls of `Unlock` by the owners as threads wait let these in, in the order in which they
-- came, where the mutex is held once.
wake-entry :
    (threads : List ℕ) (m : ℕ) (s : Manager)
    → (s.mutex m).count ≡ 1
    → s.spinning m ≡ entry threads
    → (s' : Manager) × (wake (length threads) m s ≡ some (s', threads)) × (s'.spinning m ≡ none)
unfolding wake
wake-entry [] m s held q = (s, refl, q)
wake-entry (thread ∷ rest) m s held q =
    let (s1, h, by, q1, k) = unlock_hands_over m thread rest s held q in
    let (s2, h2, none_left) = wake-entry rest m s1 by.once q1 in
    (s2, rw (wake, h, h2) refl, none_left)

-- `Lock` by some threads, one after another.
unfoldable pub enter : List ℕ → ℕ → Manager → Option Manager
unfolding lock
enter [] m s = some s
enter (thread ∷ rest) m s = elim (lock thread m false s) [
  | none ↦ none
  | some (s1, r) ↦ enter rest m s1
]

abbrev pub AreOthers : ℕ → List ℕ → Type 0
AreOthers owner [] = Unit
AreOthers owner (thread ∷ rest) = (owner ≢ thread) × AreOthers owner rest

push_thread-entry : (old : List ℕ) (t : ℕ) → push_thread (entry old) t ≡ old ++ (t ∷ [])
unfolding push_thread
push_thread-entry [] t = refl
push_thread-entry (x ∷ old) t = refl

entry_next : (old : List ℕ) (t : ℕ) → some (old ++ (t ∷ [])) ≡ entry (old ++ (t ∷ []))
entry_next [] t = refl
entry_next (x ∷ old) t = refl

-- One more thread spins at the end of the queue.
lock_spins :
    (thread m : ℕ) (old : List ℕ) (s : Manager)
    → (s.mutex m).count ≡ 1
    → (s.mutex m).owner ≢ thread
    → s.spinning m ≡ entry old
    → (s' : Manager) × (lock thread m false s ≡ some (s', ebusy))
      × (s'.mutex ≡ s.mutex)
      × (s'.spinning m ≡ entry (old ++ (thread ∷ [])))
unfolding lock block_thread
lock_spins thread m old s held other q = (
  block_thread thread m s,
  rw (lock, is_locked, held, other_test) refl,
  refl,
  update-same s.spinning m _
      ∙ ap (λ o. some (push_thread o thread)) q
      ∙ ap (λ l. some l) (push_thread-entry old thread)
      ∙ entry_next old thread,
)
  where
    other_test : ((s.mutex m).owner == thread) ≡ false
    other_test = ground arith

enter-entry :
    (threads old : List ℕ) (m : ℕ) (s : Manager)
    → (s.mutex m).count ≡ 1
    → AreOthers (s.mutex m).owner threads
    → s.spinning m ≡ entry old
    → (s' : Manager) × (enter threads m s ≡ some s')
      × (s'.mutex ≡ s.mutex)
      × (s'.spinning m ≡ entry (old ++ threads))
unfolding enter
enter-entry [] old m s held others q = (s, refl, refl, rw (append-nil old) q)
enter-entry (thread ∷ rest) old m s held (other, others) q =
    let (s1, h, same, q1) = lock_spins thread m old s held other q in
    let (s2, h2, same2, q2) =
      enter-entry rest (old ++ (thread ∷ [])) m s1 (ap (λ f. (f m).count) same ∙ held)
        (subst (λ f. AreOthers (f m).owner rest) (sym same) others) q1 in
    (s2, rw (enter, h, h2) refl, same2 ∙ same, q2 ∙ ap entry (append_assoc old (thread ∷ []) rest))

-- Threads that call `Lock` on a mutex that another thread holds once are let in by as many calls
-- of `Unlock` by the owners, in the order of their calls, behind those that waited already; then no
-- thread waits.
pub enter_then_wake :
    (threads old : List ℕ) (m : ℕ) (s : Manager)
    → (s.mutex m).count ≡ 1
    → AreOthers (s.mutex m).owner threads
    → s.spinning m ≡ entry old
    → (s1 : Manager) × (s2 : Manager) × (enter threads m s ≡ some s1)
      × (wake (length (old ++ threads)) m s1 ≡ some (s2, old ++ threads))
      × (s2.spinning m ≡ none)
enter_then_wake threads old m s held others q =
    let (s1, h, same, q1) = enter-entry threads old m s held others q in
    let (s2, h2, none_left) =
      wake-entry (old ++ threads) m s1 (ap (λ f. (f m).count) same ∙ held) q1 in
    (s1, s2, h, h2, none_left)
