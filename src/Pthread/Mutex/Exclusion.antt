-- ===== src/Pthread/Mutex/Exclusion.antt =====
-- What a call of `Lock` of PthreadMutex.cpp does to the owner of a mutex that is locked.
use row_armor.Base.{
  ℕ, ◌<◌, ◌≡◌, refl, inl, inr, Bool, true, false, ◌==◌, if◌then◌else◌, Option, some, arith,
  Bool-cases, lt→ltb, ap,
}
use row_armor.Pthread.Mutex.{
  Kind, fast, recursive, errorcheck, Manager, LockResult, success, edeadlk, ebusy, update,
  block_thread, lock, relock, lock_again,
}

pub update-same {ℓ} : {A : Type ℓ} (f : ℕ → A) (k : ℕ) (v : A) → update f k v k ≡ v
update-same f k v = ground arith

-- A result of a call of `Lock` on a mutex that is locked.
abbrev pub IsExcluding : ℕ → ℕ → Manager → Option (Manager × LockResult) → Type 0
IsExcluding thread m s result =
    (s' : Manager) × (r : LockResult) × (result ≡ some (s', r))
    × ((s'.mutex m).owner ≡ (s.mutex m).owner)
    × (r ≡ success → (s.mutex m).owner ≡ thread)

-- A second call of the owner.
relock_excludes :
    (kind : Kind) (thread m : ℕ) (trylock : Bool) (s : Manager)
    → 0 < (s.mutex m).count
    → (s.mutex m).owner ≡ thread
    → IsExcluding thread m s (relock kind thread m trylock s)
unfolding lock
relock_excludes fast thread m true s locked own = (s, edeadlk, refl, refl, λ _. own)
relock_excludes fast thread m false s locked own =
    (block_thread thread m s, edeadlk, refl, refl, λ _. own)
relock_excludes errorcheck thread m true s locked own = (s, edeadlk, refl, refl, λ _. own)
relock_excludes errorcheck thread m false s locked own =
    (block_thread thread m s, edeadlk, refl, refl, λ _. own)
relock_excludes recursive thread m trylock s locked own =
    rw (relock, lock_again, lt→ltb 0 (s.mutex m).count locked)
      (_, success, refl, ap (λ a. a.owner) (update-same s.mutex m _), λ _. own)

-- A call of `Lock` on a locked mutex returns, keeps the owner and succeeds for the owner only.
pub lock_excludes :
    (thread m : ℕ) (trylock : Bool) (s : Manager)
    → 0 < (s.mutex m).count
    → IsExcluding thread m s (lock thread m trylock s)
unfolding lock
lock_excludes thread m trylock s locked =
    rw (lt→ltb 0 (s.mutex m).count locked) (elim (Bool-cases ((s.mutex m).owner == thread)) [
      | inl own ↦ rw own (relock_excludes (s.mutex m).kind thread m trylock s locked (ground arith))
      | inr other ↦ rw other (spins trylock)
    ])
  where
    spins :
        (t : Bool) → IsExcluding thread m s (some (if t then s else block_thread thread m s, ebusy))
    spins true = (s, ebusy, refl, refl, λ h. absurd (ground arith))
    spins false = (block_thread thread m s, ebusy, refl, refl, λ h. absurd (ground arith))
