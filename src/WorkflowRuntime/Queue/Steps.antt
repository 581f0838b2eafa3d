-- ===== src/WorkflowRuntime/Queue/Steps.antt =====
-- The queue as it is used: any sequence of the methods, in the order in which their transactions end.
use aegis_flow.Base.{
  ℕ, String, Bool, true, not, ◌&&◌, ◌||◌, Option, some, List, [], ◌∷◌, ◌++◌, ok, raise_if, ◌≤◌, any,
  keep, ◌≡◌, subst, inl, inr, arith, All, Bool-cases, Option-cases, >>=-eq-ok, raise_if-eq-ok,
}
use aegis_flow.Base.Rows.{find_row, modify, modify-All}
use aegis_flow.WorkflowRuntime.Runs.{Run, no_row, not_unique, bad_completion}
use aegis_flow.WorkflowRuntime.Queue.{
  QueueStatus, QueueRequest, QueueItem, fresh_item, enqueue_run_queue_item, first_claimable,
  is_claimable, claimed, claim_next_queue_item, has_id, is_item, started, mark_queue_item_running,
  finished, is_completion, complete_queue_item, failure, fail_queue_item, withdrawn, is_terminal,
  cancel_queue_item, cleanup_expired_queue_payloads,
}
use aegis_flow.WorkflowRuntime.Queue.Reconcile.{Counts, reconcile_stale_queue_items}
use aegis_flow.WorkflowRuntime.Queue.Reconcile.Settles.{IsSound-reconcile_rows}
use aegis_flow.WorkflowRuntime.Queue.Sound.{
  IsSound, IsSound-claimed, IsSound-started, IsSound-finished, IsSound-failure, IsSound-withdrawn,
}

-- The rows of the queue before and after one call that returns. `max_attempts` of a request is at
-- least one, as its schema says.
pub data Step (redact : String → String) : List QueueItem → List QueueItem → Type 0 where
  enqueues :
      (id : String) (created_at available_at : ℕ) (updated_by : String) (request : QueueRequest)
      (before after : List QueueItem) (item : QueueItem)
      → 1 ≤ request.max_attempts
      → enqueue_run_queue_item id created_at available_at updated_by request before
        ≡ ok (item, after)
      → Step redact before after
  claims :
      (locked : QueueItem → Bool) (worker_id : String) (lease_seconds now : ℕ)
      (before after : List QueueItem) (taken : Option QueueItem)
      → claim_next_queue_item locked worker_id lease_seconds now before ≡ ok (taken, after)
      → Step redact before after
  marks_running :
      (id worker_id : String) (before after : List QueueItem) (item : QueueItem)
      → mark_queue_item_running id worker_id before ≡ ok (item, after)
      → Step redact before after
  completes :
      (id : String) (status : QueueStatus) (before after : List QueueItem) (item : QueueItem)
      → complete_queue_item id status before ≡ ok (item, after)
      → Step redact before after
  fails :
      (id error_type error_message : String) (backoff_seconds now : ℕ)
      (before after : List QueueItem) (item : QueueItem)
      → fail_queue_item redact id error_type error_message backoff_seconds now before
        ≡ ok (item, after)
      → Step redact before after
  cancels :
      (project_id run_id actor_id reason : String) (before after : List QueueItem)
      (item : Option QueueItem)
      → cancel_queue_item redact project_id run_id actor_id reason before ≡ ok (item, after)
      → Step redact before after
  reconciles :
      (now : ℕ) (before after : List QueueItem) (runs left : List Run) (counts : Counts)
      → reconcile_stale_queue_items now before runs ≡ ok (counts, (after, left))
      → Step redact before after
  cleans :
      (now : ℕ) (before : List QueueItem)
      → Step redact before (cleanup_expired_queue_payloads now before).1

pub data Reaches (redact : String → String) : List QueueItem → List QueueItem → Type 0 where
  stop : (items : List QueueItem) → Reaches redact items items
  then_step : (a b c : List QueueItem) → Step redact a b → Reaches redact b c → Reaches redact a c

All-keep :
    (p : QueueItem → Bool) (items : List QueueItem) → All IsSound items → All IsSound (keep p items)
All-keep p [] s = tt
All-keep p (q ∷ qs) s = elim (Bool-cases (p q)) [
  | inl t ↦ rw t (s.0, All-keep p qs s.1)
  | inr t ↦ rw t (All-keep p qs s.1)
]

All-snoc :
    (items : List QueueItem) (q : QueueItem)
    → All IsSound items
    → IsSound q
    → All IsSound (items ++ q ∷ [])
All-snoc [] q s t = (t, tt)
All-snoc (x ∷ xs) q s t = (s.0, All-snoc xs q s.1 t)

enqueue-IsSound :
    (id : String) (created_at available_at : ℕ) (updated_by : String) (request : QueueRequest)
    (before after : List QueueItem) (item : QueueItem)
    → 1 ≤ request.max_attempts
    → enqueue_run_queue_item id created_at available_at updated_by request before ≡ ok (item, after)
    → All IsSound before
    → All IsSound after
unfolding enqueue_run_queue_item
enqueue-IsSound id created_at available_at updated_by request before after item m h s =
    let (_, c, k) =
      >>=-eq-ok
        (raise_if (any (λ q. has_id id q || is_item request.project_id request.run_id q) before)
          not_unique)
        _ h in
    let fresh = fresh_item id created_at available_at updated_by request in
    let sound : IsSound (fresh_item id created_at available_at updated_by request) = ground arith in
    let same : before ++ fresh ∷ [] ≡ after = ground (arith, k) in
    subst (All IsSound) same (All-snoc before fresh s sound)

claim-IsSound :
    (locked : QueueItem → Bool) (worker_id : String) (lease_seconds now : ℕ)
    (before after : List QueueItem) (taken : Option QueueItem)
    → claim_next_queue_item locked worker_id lease_seconds now before ≡ ok (taken, after)
    → All IsSound before
    → All IsSound after
unfolding claim_next_queue_item
claim-IsSound locked worker_id lease_seconds now before after taken h s =
    elim (Option-cases (first_claimable locked now before)) [
      | inl e ↦ let same : before ≡ after = ground arith in subst (All IsSound) same s
      | inr (q, e) ↦
          let (r, m, k) =
            >>=-eq-ok {B = Option QueueItem × List QueueItem}
              (modify no_row (λ x. has_id q.id x && is_claimable locked now x)
                (claimed worker_id lease_seconds now) before)
              (λ r. ok (some r.0, r.1)) {b = (taken, after)} (rw (e, claim_next_queue_item) at h) in
          let same : r.1 ≡ after = ground (arith, k) in
          subst (All IsSound) same (
            modify-All IsSound no_row _ _ before r.0 r.1
              (λ x t. IsSound-claimed locked worker_id lease_seconds now x (ground arith)) s m)
    ]

cancel-IsSound :
    (redact : String → String) (project_id run_id actor_id reason : String)
    (before after : List QueueItem) (item : Option QueueItem)
    → cancel_queue_item redact project_id run_id actor_id reason before ≡ ok (item, after)
    → All IsSound before
    → All IsSound after
unfolding cancel_queue_item
cancel-IsSound redact project_id run_id actor_id reason before after item h s =
    elim (Option-cases (find_row (is_item project_id run_id) before)) [
      | inl e ↦ let same : before ≡ after = ground arith in subst (All IsSound) same s
      | inr (q, e) ↦ elim (Bool-cases (is_terminal q.status)) [
        | inl t ↦ let same : before ≡ after = ground arith in subst (All IsSound) same s
        | inr t ↦
            let (r, m, k) =
              >>=-eq-ok {B = Option QueueItem × List QueueItem}
                (modify no_row (is_item project_id run_id) (withdrawn redact actor_id reason)
                  before)
                (λ r. ok (some r.0, r.1)) {b = (item, after)} (ground arith) in
            let same : r.1 ≡ after = ground (arith, k) in
            subst (All IsSound) same (
              modify-All IsSound no_row _ _ before r.0 r.1
                (λ x _. IsSound-withdrawn redact actor_id reason x) s m)
      ]
    ]

complete-IsSound :
    (id : String) (status : QueueStatus) (before after : List QueueItem) (item : QueueItem)
    → complete_queue_item id status before ≡ ok (item, after)
    → All IsSound before
    → All IsSound after
unfolding complete_queue_item
complete-IsSound id status before after item h s =
    let (_, c, k) = >>=-eq-ok (raise_if (not (is_completion status)) bad_completion) _ h in
    let good : is_completion status ≡ true =
      ground (arith, raise_if-eq-ok (not (is_completion status)) bad_completion c) in
    modify-All IsSound no_row (has_id id) (finished status) before item after
      (λ x _. IsSound-finished status x good) s k

-- One call keeps every row sound.
Step-IsSound :
    (redact : String → String) (before after : List QueueItem)
    → Step redact before after
    → All IsSound before
    → All IsSound after
unfolding mark_queue_item_running fail_queue_item cleanup_expired_queue_payloads
    reconcile_stale_queue_items
Step-IsSound redact before after (enqueues id c a u request _ _ item m h) s =
    enqueue-IsSound id c a u request before after item m h s
Step-IsSound redact before after (claims locked w l now _ _ taken h) s =
    claim-IsSound locked w l now before after taken h s
Step-IsSound redact before after (marks_running id w _ _ item h) s =
    modify-All IsSound no_row (has_id id) (started w) before item after (λ x _. IsSound-started w x)
      s h
Step-IsSound redact before after (completes id status _ _ item h) s =
    complete-IsSound id status before after item h s
Step-IsSound redact before after (fails id t m b now _ _ item h) s =
    modify-All IsSound no_row (has_id id) (failure redact t m b now) before item after
      (λ x _. IsSound-failure redact t m b now x) s h
Step-IsSound redact before after (cancels p r a reason _ _ item h) s =
    cancel-IsSound redact p r a reason before after item h s
Step-IsSound redact before after (reconciles now _ _ runs left counts h) s =
    IsSound-reconcile_rows now before runs _ counts after left s h
Step-IsSound redact before after (cleans now _) s = All-keep _ before s

-- Whatever the calls and their order, no row of the queue ever has more attempts than it may, a row
-- that can be claimed has one left, a row that no worker holds has neither lease nor owner, and a dead
-- letter has used up its attempts, where this holds at the start.
pub queue_stays-IsSound :
    (redact : String → String) (before after : List QueueItem)
    → Reaches redact before after
    → All IsSound before
    → All IsSound after
queue_stays-IsSound redact before after (stop _) s = s
queue_stays-IsSound redact before after (then_step _ b _ step rest) s =
    queue_stays-IsSound redact b after rest (Step-IsSound redact before b step s)
