-- ===== src/McSim/Controller/Bliss.antt =====
-- Class Bliss: a thread that is served too often in a row is on a blacklist until it is cleared.
use row_armor.Base.{
  ℕ, zero, suc, ◌+◌, ◌%◌, ◌^◌, ◌<◌, ◌≤◌, ◌≡◌, ◌≢◌, refl, leb, ◌==◌, ◌||◌, if◌then◌else◌, List, [],
  ◌∷◌, Bool, true, false, arith, Bool-cases, inl, inr, ◌∙◌,
}

-- The set is a list, and a thread that is in it is not entered again.
pub record Bliss : Type 0 where
  pub threshold : ℕ
  pub clearing_interval : ℕ
  pub last_th_id : ℕ
  pub num_req_served : ℕ
  pub blacklist : List ℕ

unfoldable pub bliss_start : ℕ → ℕ → Bliss
bliss_start threshold clearing_interval = record {
  threshold = threshold;
  clearing_interval = clearing_interval;
  last_th_id = 0;
  num_req_served = 0;
  blacklist = [];
}

unfoldable pub is_in : ℕ → List ℕ → Bool
is_in th_id [] = false
is_in th_id (x ∷ xs) = (th_id == x) || is_in th_id xs

unfoldable pub insert_thread : ℕ → List ℕ → List ℕ
unfolding is_in
insert_thread th_id xs = if is_in th_id xs then xs else th_id ∷ xs

unfoldable pub update_blacklist : ℕ → Bliss → Bliss
unfolding insert_thread
update_blacklist th_id s =
    let served = (s.num_req_served + 1) % 2 ^ 32 in
    if s.last_th_id == th_id
    then (if leb s.threshold served
        then record s {
          blacklist = insert_thread th_id s.blacklist;
          last_th_id = 0;
          num_req_served = 0;
        }
        else record s { num_req_served = served })
    else record s { last_th_id = th_id; num_req_served = 1 }

unfoldable pub clear_blacklist : Bliss → Bliss
clear_blacklist s = record s { blacklist = [] }

unfoldable pub is_blacklisted : ℕ → Bliss → Bool
unfolding is_in
is_blacklisted th_id s = is_in th_id s.blacklist

-- The thread is served so many times in a row.
unfoldable pub served_again : ℕ → ℕ → Bliss → Bliss
served_again zero th_id s = s
served_again (suc n) th_id s = served_again n th_id (update_blacklist th_id s)

insert_thread-in :
    (t th_id : ℕ) (xs : List ℕ) → is_in t (insert_thread th_id xs) ≡ ((t == th_id) || is_in t xs)
unfolding insert_thread is_in
insert_thread-in t th_id xs = elim (Bool-cases (is_in th_id xs)) [
  | inl old ↦ elim (Bool-cases (t == th_id)) [
    | inl same ↦ let e : t ≡ th_id = ground arith in rw (e, old) (ground arith)
    | inr apart ↦ rw (old, apart) refl
  ]
  | inr new ↦ rw new refl
]

-- What happens to the blacklist in one request: no thread leaves it, and no other one enters it.
update_blacklist-kept :
    (t th_id : ℕ) (s : Bliss)
    → (is_blacklisted t s ≡ true → is_blacklisted t (update_blacklist th_id s) ≡ true)
      × (t ≢ th_id → is_blacklisted t (update_blacklist th_id s) ≡ is_blacklisted t s)
unfolding update_blacklist is_blacklisted
update_blacklist-kept t th_id s = elim (Bool-cases (s.last_th_id == th_id)) [
  | inl same ↦ elim (Bool-cases (leb s.threshold ((s.num_req_served + 1) % 2 ^ 32))) [
    | inl full ↦
        rw (update_blacklist, same, full, insert_thread-in t th_id s.blacklist)
          (λ h. ground arith, λ ne. ground arith)
    | inr more ↦ rw (update_blacklist, same, more) (λ h. h, λ ne. refl)
  ]
  | inr other ↦ rw (update_blacklist, other) (λ h. h, λ ne. refl)
]

served_again-kept :
    (n t th_id : ℕ) (s : Bliss)
    → (is_blacklisted t s ≡ true → is_blacklisted t (served_again n th_id s) ≡ true)
      × (t ≢ th_id → is_blacklisted t (served_again n th_id s) ≡ is_blacklisted t s)
unfolding served_again
served_again-kept zero t th_id s = (λ h. h, λ ne. refl)
served_again-kept (suc n) t th_id s =
    let (now, others) = update_blacklist-kept t th_id s in
    let (later, others_later) = served_again-kept n t th_id (update_blacklist th_id s) in
    (λ h. later (now h), λ ne. others_later ne ∙ others ne)

served_again-full :
    (n t : ℕ) (s : Bliss)
    → s.last_th_id ≡ t
    → s.threshold ≤ s.num_req_served + n
    → s.num_req_served < s.threshold
    → s.threshold < 2 ^ 32
    → is_blacklisted t (served_again n t s) ≡ true
unfolding served_again update_blacklist is_blacklisted
served_again-full zero t s last enough room small = absurd (omega arith)
served_again-full (suc n) t s last enough room small =
    let same : (s.last_th_id == t) ≡ true = ground arith in
    let next : (s.num_req_served + 1) % 2 ^ 32 ≡ s.num_req_served + 1 = omega arith in
    elim (Bool-cases (leb s.threshold (s.num_req_served + 1))) [
      | inl full ↦ (served_again-kept n t t (update_blacklist t s)).0 (
          rw (update_blacklist, same, next, full)
            (ground (arith, insert_thread-in t t s.blacklist)))
      | inr more ↦
          rw (served_again, update_blacklist, same, next, more)
            (served_again-full n t (record s { num_req_served = s.num_req_served + 1 }) last
              (omega arith) (ground arith) small)
    ]

-- A thread that is served in a row as often as the threshold, which is from 2 to 2 ^ 32 - 1, is on
-- the blacklist then, whoever was served before, and whether another thread is on it does not
-- change. The run of requests that was under way has not reached the threshold.
pub served_again-blacklisted :
    (n t : ℕ) (s : Bliss)
    → s.threshold ≤ n
    → 2 ≤ s.threshold
    → s.threshold < 2 ^ 32
    → s.num_req_served < s.threshold
    → (is_blacklisted t (served_again n t s) ≡ true)
      × ((u : ℕ) → u ≢ t → is_blacklisted u (served_again n t s) ≡ is_blacklisted u s)
unfolding served_again update_blacklist
served_again-blacklisted zero t s enough two small room = absurd (omega arith)
served_again-blacklisted (suc n) t s enough two small room = (
  elim (Bool-cases (s.last_th_id == t)) [
    | inl same ↦ served_again-full (suc n) t s (ground arith) (omega arith) room small
    | inr other ↦
        rw (served_again, update_blacklist, other)
          (served_again-full n t (record s { last_th_id = t; num_req_served = 1 }) refl
            (omega arith) (omega arith) small)
  ],
  λ u ne. (served_again-kept (suc n) u t s).1 ne,
)
