-- ===== src/WorkflowRuntime/Queue/Sound.antt =====
-- What every method of the queue keeps of each row.
use aegis_flow.Base.{ℕ, String, Bool, true, false, none, ◌≤◌, ◌<◌, ◌≡◌, arith}
use aegis_flow.WorkflowRuntime.Queue.{
  QueueStatus, dead_letter, QueueItem, is_claimable_status, is_held, is_claimable, claimed, started,
  finished, failure, withdrawn, is_completion,
}

-- No row has more attempts than it may; a row that can be claimed again has one left; a row that no
-- worker holds has no lease; a dead letter has used up its attempts.
pub record IsSound (q : QueueItem) : Type 0 where
  pub bounded : q.attempt_count ≤ q.request.max_attempts
  pub one_left : is_claimable_status q.status ≡ true → q.attempt_count < q.request.max_attempts
  pub no_lease : is_held q.status ≡ false → (q.leased_until ≡ none) × (q.lease_owner ≡ "")
  pub used_up : q.status ≡ dead_letter → q.attempt_count ≡ q.request.max_attempts

pub IsSound-claimed :
    (locked : QueueItem → Bool) (worker_id : String) (lease_seconds now : ℕ) (q : QueueItem)
    → is_claimable locked now q ≡ true
    → IsSound q
    → IsSound (claimed worker_id lease_seconds now q)
IsSound-claimed locked worker_id lease_seconds now q c s =
    let left = s.one_left (ground arith) in
    record {
      bounded = omega arith;
      one_left = λ h. absurd (ground arith);
      no_lease = λ h. absurd (ground arith);
      used_up = λ h. absurd (ground arith);
    }

pub IsSound-started :
    (worker_id : String) (q : QueueItem) → IsSound q → IsSound (started worker_id q)
IsSound-started worker_id q s = ground (arith, s.bounded)

pub IsSound-finished :
    (status : QueueStatus) (q : QueueItem)
    → is_completion status ≡ true
    → IsSound q
    → IsSound (finished status q)
IsSound-finished status q c s = ground (arith, s.bounded)

pub IsSound-failure :
    (redact : String → String) (error_type error_message : String) (backoff_seconds now : ℕ)
    (q : QueueItem)
    → IsSound q
    → IsSound (failure redact error_type error_message backoff_seconds now q)
IsSound-failure redact error_type error_message backoff_seconds now q s = ground (arith, s.bounded)

pub IsSound-withdrawn :
    (redact : String → String) (actor_id reason : String) (q : QueueItem)
    → IsSound q
    → IsSound (withdrawn redact actor_id reason q)
IsSound-withdrawn redact actor_id reason q s = ground (arith, s.bounded)
