-- ===== src/McSim/Controller/Admit.antt =====
-- `MemoryController::pre_processing`: the loop that takes the requests of the current time, with the
-- quotas of class BlockHammer, for requests of one bank.
pub mod Ends
use row_armor.Base.{
  ℕ, zero, suc, ◌+◌, ◌==◌, ◌&&◌, if◌then◌else◌, List, [], ◌∷◌, ◌++◌, Option, none, some, Bool, true,
  false,
}
use row_armor.Base.Word.{inc64}
use row_armor.Base.Tables.{insert_at}
use row_armor.McSim.BlockHammer.Throttler.{AttackThrottler, throttler_query, update_used_quota}

pub record Request : Type 0 where
  pub th_id : ℕ
  pub address : ℕ

pub record Queues : Type 0 where
  pub req_event : List (ℕ × Request)
  pub req_l : List Request
  pub first_throttler : AttackThrottler
  pub second_throttler : AttackThrottler
  pub num_req_from_a_th : ℕ → ℕ
  pub acc_from_a_th : ℕ → ℕ

pub record AdmitConfig : Type 0 where
  pub throttles : Bool
  pub par_bs : Bool

-- What a request does once it is let through. The first counter is signed and does not wrap around.
unfoldable pub admit_request : AdmitConfig → Request → Queues → Queues
unfolding inc64
admit_request p r s = record s {
  req_l = s.req_l ++ r ∷ [];
  num_req_from_a_th =
      if p.par_bs
      then insert_at r.th_id (s.num_req_from_a_th r.th_id + 1) s.num_req_from_a_th
      else s.num_req_from_a_th;
  acc_from_a_th = insert_at r.th_id (inc64 (s.acc_from_a_th r.th_id)) s.acc_from_a_th;
}

unfoldable pub take_quota : ℕ → Queues → Queues
unfolding update_used_quota
take_quota th_id s = record s {
  first_throttler = update_used_quota th_id true s.first_throttler;
  second_throttler = update_used_quota th_id true s.second_throttler;
}

-- Whether the valid throttler holds the thread back; the comparison with the quota is a parameter.
unfoldable pub quota_full : (ℕ → ℕ → Bool) → ℕ → Queues → Bool
unfolding throttler_query
quota_full reaches_quota th_id s =
    if s.first_throttler.valid
    then throttler_query reaches_quota th_id s.first_throttler
    else throttler_query reaches_quota th_id s.second_throttler

-- The loop over the requests of the current time, on fuel. The `continue` of a full quota goes on
-- with the same request. The requests stay in the multimap.
unfoldable pub admit_loop :
    (ℕ → ℕ → Bool) → AdmitConfig → ℕ → ℕ → List (ℕ × Request) → Queues → Option Queues
unfolding admit_request take_quota quota_full
admit_loop reaches_quota p curr_time zero events s = none
admit_loop reaches_quota p curr_time (suc fuel) [] s = some s
admit_loop reaches_quota p curr_time (suc fuel) ((time, r) ∷ events) s =
    let again = admit_loop reaches_quota p curr_time fuel ((time, r) ∷ events) s in
    let throttled =
      admit_loop reaches_quota p curr_time fuel events (admit_request p r (take_quota r.th_id s)) in
    let free = admit_loop reaches_quota p curr_time fuel events (admit_request p r s) in
    if time == curr_time
    then (if p.throttles
        then (if quota_full reaches_quota r.th_id s then again else throttled)
        else free)
    else some s

-- `req_event.erase(curr_time)`: the requests of the current time, wherever they stand.
unfoldable pub erase_requests : ℕ → List (ℕ × Request) → List (ℕ × Request)
erase_requests curr_time [] = []
erase_requests curr_time ((time, r) ∷ events) =
    let rest = erase_requests curr_time events in
    if time == curr_time then rest else (time, r) ∷ rest

-- The loop over the requests that wait, and the erasure below it.
unfoldable pub admit_requests : (ℕ → ℕ → Bool) → AdmitConfig → ℕ → ℕ → Queues → Option Queues
unfolding admit_loop erase_requests
admit_requests reaches_quota p curr_time fuel s =
    elim (admit_loop reaches_quota p curr_time fuel s.req_event s) [
      | none ↦ none
      | some s' ↦ some (record s' { req_event = erase_requests curr_time s'.req_event })
    ]
