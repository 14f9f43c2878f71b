-- ===== src/Pthread/Mutex/Invariant.antt =====
-- What every call of `Lock` and `Unlock` of PthreadMutex.cpp keeps: threads spin only on locked
-- mutexes.
use row_armor.Base.{
  ℕ, ◌+◌, ◌-◌, ◌<◌, ◌≡◌, ◌≢◌, refl, inl, inr, Bool, true, false, not, ◌&&◌, ◌||◌, ltb, ◌==◌,
  if◌then◌else◌, List, [], ◌∷◌, Option, none, some, arith, Bool-cases, lt→ltb, ◌%◌, ◌^◌, sym, ◌∙◌,
  ap,
}
use row_armor.Pthread.Mutex.Exclusion.{update-same}
use row_armor.Pthread.Mutex.{
  Kind, fast, recursive, errorcheck, Mutex, Manager, LockResult, success, edeadlk, ebusy, update,
  is_locked, push_thread, block_thread, lock, unlock, UnlockResult, released, eperm, relock,
  lock_again, lock_mutex, pop_thread, hand_to, unblock_thread, release, unlock_mutex, unlock_again,
  is_errorcheck,
}

-- No queue is kept empty, and threads spin only on a locked mutex.
abbrev pub IsServed : Manager → ℕ → Type 0
IsServed s m = (queue : List ℕ) → s.spinning m ≡ some queue → (queue ≢ []) × (0 < (s.mutex m).count)

abbrev pub IsConsistent : Manager → Type 0
IsConsistent s = (m : ℕ) → IsServed s m

-- No counter of a recursive mutex is at the end of its range.
abbrev pub HasRoom : Manager → Type 0
HasRoom s = (m : ℕ) → (s.mutex m).count + 1 < 2 ^ 32

push_thread-ne : (o : Option (List ℕ)) (t : ℕ) → push_thread o t ≢ []
unfolding push_thread
push_thread-ne none t h = cc
push_thread-ne (some []) t h = cc
push_thread-ne (some (x ∷ q)) t h = cc

-- A property of an updated table, at the key and elsewhere.
update_at {ℓ} :
    {A : Type ℓ} (P : ℕ → A → Type 0) (f : ℕ → A) (k : ℕ) (v : A) (j : ℕ)
    → (j ≡ k → P j v)
    → (j ≢ k → P j (f j))
    → P j (update f k v j)
update_at P f k v j same other = elim (Bool-cases (j == k)) [
  | inl e ↦ rw e (same (ground arith))
  | inr e ↦ rw e (other (ground arith))
]

block_thread-IsConsistent :
    (thread m : ℕ) (s : Manager)
    → IsConsistent s
    → 0 < (s.mutex m).count
    → IsConsistent (block_thread thread m s)
unfolding block_thread
block_thread-IsConsistent thread m s kept locked j queue h =
    update_at (λ j o. o ≡ some queue → (queue ≢ []) × (0 < (s.mutex j).count)) s.spinning m
      (some (push_thread (s.spinning m) thread)) j
      (λ e h'. (λ empty. push_thread-ne (s.spinning m) thread (ground arith), rw e locked))
      (λ e h'. kept j queue h') h

set_mutex-IsConsistent :
    (m : ℕ) (v : Mutex) (s : Manager)
    → IsConsistent s
    → 0 < v.count
    → IsConsistent (record s { mutex = update s.mutex m v })
set_mutex-IsConsistent m v s kept locked j queue h =
    update_at (λ j a. s.spinning j ≡ some queue → (queue ≢ []) × (0 < a.count)) s.mutex m v j
      (λ e h'. ((kept j queue h').0, locked)) (λ e h'. kept j queue h') h

-- A call returns, and leaves a consistent state.
abbrev pub KeepsConsistent {ℓ} : {A : Type ℓ} → Option (Manager × A) → Type ℓ
KeepsConsistent result = (s' : Manager) × (r : _) × (result ≡ some (s', r)) × IsConsistent s'

spin-KeepsConsistent :
    (thread m : ℕ) (trylock : Bool) (s : Manager) (r : LockResult)
    → IsConsistent s
    → 0 < (s.mutex m).count
    → KeepsConsistent (some (if trylock then s else block_thread thread m s, r))
spin-KeepsConsistent thread m true s r kept locked = (s, r, refl, kept)
spin-KeepsConsistent thread m false s r kept locked =
    (block_thread thread m s, r, refl, block_thread-IsConsistent thread m s kept locked)

relock-KeepsConsistent :
    (kind : Kind) (thread m : ℕ) (trylock : Bool) (s : Manager)
    → IsConsistent s
    → HasRoom s
    → 0 < (s.mutex m).count
    → KeepsConsistent (relock kind thread m trylock s)
unfolding relock lock_again
relock-KeepsConsistent fast thread m trylock s kept room locked =
    spin-KeepsConsistent thread m trylock s edeadlk kept locked
relock-KeepsConsistent errorcheck thread m trylock s kept room locked =
    spin-KeepsConsistent thread m trylock s edeadlk kept locked
relock-KeepsConsistent recursive thread m trylock s kept room locked =
    rw (relock, lock_again, lt→ltb 0 (s.mutex m).count locked)
      (_, success, refl, set_mutex-IsConsistent m _ s kept grown)
  where
    grown : 0 < ((s.mutex m).count + 1) % 2 ^ 32
    grown = let r = room m in omega arith

-- A call of `Lock` returns and keeps the state consistent, where no counter of a mutex is at the
-- end of its range.
pub lock-IsConsistent :
    (thread m : ℕ) (trylock : Bool) (s : Manager)
    → IsConsistent s
    → HasRoom s
    → KeepsConsistent (lock thread m trylock s)
unfolding lock is_locked lock_mutex
lock-IsConsistent thread m trylock s kept room = elim (Bool-cases (ltb 0 (s.mutex m).count)) [
  | inl held ↦ rw held (elim (Bool-cases ((s.mutex m).owner == thread)) [
    | inl own ↦
        rw own (relock-KeepsConsistent (s.mutex m).kind thread m trylock s kept room (ground arith))
    | inr other ↦ rw other (spin-KeepsConsistent thread m trylock s ebusy kept (ground arith))
  ])
  | inr free ↦ rw free (_, success, refl, set_mutex-IsConsistent m _ s kept (omega arith))
]

none-ne-some : {q : List ℕ} → none ≢ some q
none-ne-some h = cc

-- A state that is consistent but for one mutex, which is free.
abbrev IsFree : Manager → ℕ → Type 0
IsFree s m = ((s.mutex m).count ≡ 0) × (s.spinning m ≢ some []) × ((j : ℕ) → j ≢ m → IsServed s j)

handed-IsConsistent :
    (m : ℕ) (v : Mutex) (q : Option (List ℕ)) (s : Manager)
    → IsFree s m
    → 0 < v.count
    → q ≢ some []
    → IsConsistent (record s { mutex = update s.mutex m v; spinning = update s.spinning m q })
handed-IsConsistent m v q s (free, not_empty, served) locked ne j queue h =
    elim (Bool-cases (j == m)) [
      | inl e ↦
          let at_m : q ≡ some queue = sym (ap (λ b. if b then q else s.spinning j) e) ∙ h in
          rw e (λ empty. ne (at_m ∙ ap (λ l. some l) empty), locked)
      | inr e ↦
          let at_j : s.spinning j ≡ some queue =
            sym (ap (λ b. if b then q else s.spinning j) e) ∙ h in
          rw e (served j (ground arith) queue at_j)
    ]

unblock_thread-KeepsConsistent :
    (m : ℕ) (s : Manager) → IsFree s m → KeepsConsistent (unblock_thread m s)
unfolding unblock_thread
unblock_thread-KeepsConsistent m s (free, not_empty, served) = go (s.spinning m) refl
  where
    alone : s.spinning m ≡ none → IsConsistent s
    alone e j queue h = elim (Bool-cases (j == m)) [
      | inl same ↦
          let j_is : j ≡ m = ground arith in
          absurd (none-ne-some (sym e ∙ sym (ap s.spinning j_is) ∙ h))
      | inr other ↦ served j (ground arith) queue h
    ]

    go : (o : Option (List ℕ)) → s.spinning m ≡ o → KeepsConsistent (unblock_thread m s)
    go none e = rw (unblock_thread, e) (s, none, refl, alone e)
    go (some []) e = absurd (not_empty e)
    go (some (t ∷ [])) e =
        rw (unblock_thread, e, pop_thread, hand_to, lock, is_locked, free)
          (
            _,
            some t,
            refl,
            handed-IsConsistent m _ none s (free, not_empty, served) (omega arith) (λ h. cc),
          )
    go (some (t ∷ next ∷ rest)) e =
        rw (unblock_thread, e, pop_thread, hand_to, lock, is_locked, free)
          (
            _,
            some t,
            refl,
            handed-IsConsistent m _ (some (next ∷ rest)) s (free, not_empty, served) (omega arith)
                (λ h. cc),
          )

set_mutex-IsFree :
    (m : ℕ) (v : Mutex) (s : Manager)
    → IsConsistent s
    → v.count ≡ 0
    → IsFree (record s { mutex = update s.mutex m v }) m
set_mutex-IsFree m v s kept free = (
  rw (update-same s.mutex m v) free,
  λ h. (kept m [] h).0 refl,
  λ j other queue h.
      update_at (λ j a. s.spinning j ≡ some queue → (queue ≢ []) × (0 < a.count)) s.mutex m v j
        (λ e h'. absurd (other e)) (λ e h'. kept j queue h') h,
)

-- The state after `release`: consistent, or with the mutex free where a thread may be let in.
IsReleased : ℕ → Manager × Bool → Type 0
IsReleased m (s1, true) = IsFree s1 m
IsReleased m (s1, false) = IsConsistent s1

release-IsReleased :
    (kind : Kind) (m : ℕ) (s : Manager)
    → IsConsistent s
    → (kind ≡ recursive → 0 < (s.mutex m).count)
    → (r : Manager × Bool) × (release kind m s ≡ some r) × IsReleased m r
unfolding release unlock_again unlock_mutex IsReleased
release-IsReleased fast m s kept may = (_, refl, set_mutex-IsFree m _ s kept refl)
release-IsReleased errorcheck m s kept may = (_, refl, set_mutex-IsFree m _ s kept refl)
release-IsReleased recursive m s kept may =
    rw (release, unlock_again, lt→ltb 0 (s.mutex m).count (may refl))
      (elim (Bool-cases (ltb 0 ((s.mutex m).count - 1))) [
        | inl more ↦ rw more ((_, false), refl, set_mutex-IsConsistent m _ s kept (ground arith))
        | inr last ↦ rw last ((_, true), refl, set_mutex-IsFree m _ s kept (ground arith))
      ])

abbrev pub UnlockKeepsConsistent : Option (Manager × Option ℕ × UnlockResult) → Type 0
UnlockKeepsConsistent result =
    (s' : Manager) × (t : Option ℕ) × (r : UnlockResult) × (result ≡ some (s', t, r))
    × IsConsistent s'

abbrev refuses : ℕ → Mutex → Bool
refuses thread m = is_errorcheck m.kind && (not (ltb 0 m.count) || not (m.owner == thread))

-- A call of `Unlock` returns and keeps the state consistent, where a recursive mutex is locked.
pub unlock-IsConsistent :
    (thread m : ℕ) (s : Manager)
    → IsConsistent s
    → ((s.mutex m).kind ≡ recursive → 0 < (s.mutex m).count)
    → UnlockKeepsConsistent (unlock thread m s)
unfolding unlock IsReleased
unlock-IsConsistent thread m s kept may = elim (Bool-cases (refuses thread (s.mutex m))) [
  | inl refused ↦ rw (unlock, refused) (s, none, eperm, refl, kept)
  | inr allowed ↦
      let ((s1, free), h, c) = release-IsReleased (s.mutex m).kind m s kept may in
      go allowed s1 free h c
]
  where
    go :
        refuses thread (s.mutex m) ≡ false
        → (s1 : Manager) (free : Bool) → release (s.mutex m).kind m s ≡ some (s1, free)
        → IsReleased m (s1, free)
        → UnlockKeepsConsistent (unlock thread m s)
    go allowed s1 false h c = rw (unlock, allowed, h) (s1, none, released, refl, c)
    go allowed s1 true h c =
        let (s2, u, h2, c2) = unblock_thread-KeepsConsistent m s1 c in
        rw (unlock, allowed, h, h2) (s2, u, released, refl, c2)
