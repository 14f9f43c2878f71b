-- ===== src/McSim/Controller/Admit/Ends.antt =====
-- Where the loop of `pre_processing` ends, and where it does not.
use row_armor.Base.{
  ℕ, zero, suc, ◌<◌, ◌≡◌, refl, ◌==◌, if◌then◌else◌, List, [], ◌∷◌, ◌++◌, length, none, some, Bool,
  true, false, arith, Bool-cases, Option-cases, inl, inr, ap, ◌∙◌,
}
use row_armor.McSim.BlockHammer.Throttler.{AttackThrottler, throttler_query}
use row_armor.Base.Tables.{count_or_zero}
use row_armor.McSim.Controller.Admit.{
  Request, Queues, AdmitConfig, admit_request, take_quota, quota_full, admit_loop, erase_requests,
  admit_requests,
}

==_self : (n : ℕ) → (n == n) ≡ true
==_self n = ground arith

-- The loop never ends once the first request of the current time is of a thread with a full quota:
-- no fuel is enough, whatever the other requests and the queues are.
pub admit_loop-stuck :
    (reaches_quota : ℕ → ℕ → Bool) (p : AdmitConfig) (curr_time fuel : ℕ) (r : Request)
    (events : List (ℕ × Request)) (s : Queues)
    → p.throttles ≡ true
    → quota_full reaches_quota r.th_id s ≡ true
    → admit_loop reaches_quota p curr_time fuel ((curr_time, r) ∷ events) s ≡ none
unfolding admit_loop
admit_loop-stuck reaches_quota p curr_time zero r events s on full = refl
admit_loop-stuck reaches_quota p curr_time (suc fuel) r events s on full =
    rw (admit_loop, ==_self curr_time, on, full)
      (admit_loop-stuck reaches_quota p curr_time fuel r events s on full)

-- The requests at the front that are of the current time.
abbrev pub due : ℕ → List (ℕ × Request) → List Request
due curr_time [] = []
due curr_time ((time, r) ∷ events) = if time == curr_time then r ∷ due curr_time events else []

-- The requests of other times.
abbrev pub not_due : ℕ → List (ℕ × Request) → List (ℕ × Request)
not_due curr_time [] = []
not_due curr_time ((time, r) ∷ events) =
    if time == curr_time then not_due curr_time events else (time, r) ∷ not_due curr_time events

-- No thread is held back, however many requests are counted.
abbrev pub IsFree : (ℕ → ℕ → Bool) → AdmitConfig → Type 0
IsFree reaches_quota p = (p.throttles ≡ true) → (acts used : ℕ) → reaches_quota acts used ≡ false

append_nil : {A : Type 0} (xs : List A) → xs ≡ xs ++ []
append_nil [] = refl
append_nil (x ∷ xs) = ap (λ ys. x ∷ ys) (append_nil xs)

append_one : {A : Type 0} (xs : List A) (y : A) (ys : List A) → (xs ++ y ∷ []) ++ ys ≡ xs ++ y ∷ ys
append_one [] y ys = refl
append_one (x ∷ xs) y ys = ap (λ zs. x ∷ zs) (append_one xs y ys)

throttler_query-free :
    (reaches_quota : ℕ → ℕ → Bool) (th_id : ℕ) (t : AttackThrottler)
    → ((acts used : ℕ) → reaches_quota acts used ≡ false)
    → throttler_query reaches_quota th_id t ≡ false
unfolding throttler_query
throttler_query-free reaches_quota th_id t never = elim (Option-cases (t.used_quota th_id)) [
  | inl e ↦ rw (throttler_query, e) refl
  | inr (used, e) ↦ rw (throttler_query, e) (never (count_or_zero (t.bl_acts th_id)) used)
]

quota_full-free :
    (reaches_quota : ℕ → ℕ → Bool) (th_id : ℕ) (s : Queues)
    → ((acts used : ℕ) → reaches_quota acts used ≡ false)
    → quota_full reaches_quota th_id s ≡ false
unfolding quota_full
quota_full-free reaches_quota th_id s never = elim (Bool-cases s.first_throttler.valid) [
  | inl first ↦
      rw (quota_full, first) (throttler_query-free reaches_quota th_id s.first_throttler never)
  | inr second ↦
      rw (quota_full, second) (throttler_query-free reaches_quota th_id s.second_throttler never)
]

admit_loop-ends :
    (reaches_quota : ℕ → ℕ → Bool) (p : AdmitConfig) (curr_time fuel : ℕ)
    (events : List (ℕ × Request)) (s : Queues)
    → IsFree reaches_quota p
    → length events < fuel
    → (s' : Queues) × (admit_loop reaches_quota p curr_time fuel events s ≡ some s')
      × (s'.req_event ≡ s.req_event)
      × (s'.req_l ≡ s.req_l ++ due curr_time events)
unfolding admit_loop admit_request take_quota
admit_loop-ends reaches_quota p curr_time zero events s free enough = absurd (omega arith)
admit_loop-ends reaches_quota p curr_time (suc fuel) [] s free enough =
    (s, refl, refl, append_nil s.req_l)
admit_loop-ends reaches_quota p curr_time (suc fuel) ((time, r) ∷ events) s free enough =
    elim (Bool-cases (time == curr_time)) [
      | inl now ↦ elim (Bool-cases p.throttles) [
        | inl on ↦
            let held = quota_full-free reaches_quota r.th_id s (free on) in
            let (s', runs, waiting, queued) =
              admit_loop-ends reaches_quota p curr_time fuel events
                (admit_request p r (take_quota r.th_id s)) free (omega arith) in
            rw (admit_loop, now, on, held)
              (s', runs, waiting, queued ∙ append_one s.req_l r (due curr_time events))
        | inr off ↦
            let (s', runs, waiting, queued) =
              admit_loop-ends reaches_quota p curr_time fuel events (admit_request p r s) free
                (omega arith) in
            rw (admit_loop, now, off)
              (s', runs, waiting, queued ∙ append_one s.req_l r (due curr_time events))
      ]
      | inr later ↦ rw (admit_loop, later) (s, refl, refl, append_nil s.req_l)
    ]

erase_requests-not_due :
    (curr_time : ℕ) (events : List (ℕ × Request))
    → erase_requests curr_time events ≡ not_due curr_time events
unfolding erase_requests
erase_requests-not_due curr_time [] = refl
erase_requests-not_due curr_time ((time, r) ∷ events) = elim (Bool-cases (time == curr_time)) [
  | inl now ↦ rw (not_due, now) (erase_requests-not_due curr_time events)
  | inr other ↦
      rw (not_due, other) (ap (λ es. (time, r) ∷ es) (erase_requests-not_due curr_time events))
]

-- Where throttling is off, or no number of requests reaches a quota, the loop ends with one round for
-- each waiting request and one more: it appends the requests of the current time that wait in front to
-- the queue, in their order, and afterwards just the requests of other times wait, in their order.
pub admit_requests-ends :
    (reaches_quota : ℕ → ℕ → Bool) (p : AdmitConfig) (curr_time fuel : ℕ) (s : Queues)
    → IsFree reaches_quota p
    → length s.req_event < fuel
    → (s' : Queues) × (admit_requests reaches_quota p curr_time fuel s ≡ some s')
      × (s'.req_event ≡ not_due curr_time s.req_event)
      × (s'.req_l ≡ s.req_l ++ due curr_time s.req_event)
unfolding admit_requests
admit_requests-ends reaches_quota p curr_time fuel s free enough =
    let (s', runs, kept, queued) =
      admit_loop-ends reaches_quota p curr_time fuel s.req_event s free enough in
    (
      record s' { req_event = erase_requests curr_time s'.req_event },
      rw (admit_requests, runs) refl,
      ap (erase_requests curr_time) kept ∙ erase_requests-not_due curr_time s.req_event,
      queued,
    )
