-- ===== src/WorkflowRuntime/Queue.antt =====
-- backend/app/workflow_runtime/sqlalchemy_store.py, the durable queue: the rows of
-- `workflow_run_queue_items` beside those of `workflow_runs`. A time is a number of seconds, the
-- clock's reading is an argument, and each method is one transaction; `locked` says which rows other
-- transactions hold. A text that is cut to a column's width is kept as its code points.
pub mod Claim
pub mod Sound
pub mod Reconcile
pub mod Steps
use aegis_flow.Base.{
  ℕ, String, Bool, true, false, not, ◌&&◌, ◌||◌, Option, none, some, List, [], ◌∷◌, ◌++◌, ◌==◌,
  Result, ok, err, ◌>>=◌, ◌>>◌, raise_if, if◌then◌else◌, is_some, ◌+◌, ltb, leb, eqb, take, any,
  keep, length,
}
use aegis_flow.Base.Texts.{Text, codes}
use aegis_flow.Base.Rows.{find_row, modify}
use aegis_flow.WorkflowRuntime.Runs.{
  RunStatus, Run, StoreError, no_row, not_unique, bad_completion, is_run, load_run,
}

pub data QueueStatus : Type 0 where
  queued leased running completed failed dead_letter cancelled : QueueStatus

-- What `WorkflowRunQueueItemCreate` gives and no method changes.
pub record QueueRequest : Type 0 where
  pub project_id : String
  pub actor_id : String
  pub workflow_run_id : String
  pub workflow_version_id : String
  pub workflow_ref : String
  pub run_id : String
  pub trace_id : String
  pub encrypted_inputs : String
  pub encryption_key_ref : String
  pub input_keys : List String
  pub max_attempts : ℕ
  pub expires_at : ℕ
  pub created_by : String

pub record QueueItem : Type 0 where
  pub id : String
  pub request : QueueRequest
  pub status : QueueStatus
  pub attempt_count : ℕ
  pub available_at : ℕ
  pub leased_until : Option ℕ
  pub lease_owner : String
  pub last_error_type : Text
  pub last_error_message : String
  pub dead_letter_reason : String
  pub updated_by : String
  pub created_at : ℕ

-- `{"queued", "failed"}`
abbrev pub is_claimable_status : QueueStatus → Bool
is_claimable_status queued = true
is_claimable_status failed = true
is_claimable_status _ = false

-- `{"leased", "running"}`
abbrev pub is_held : QueueStatus → Bool
is_held leased = true
is_held running = true
is_held _ = false

-- `{"completed", "dead_letter", "cancelled"}`
abbrev pub is_terminal : QueueStatus → Bool
is_terminal completed = true
is_terminal dead_letter = true
is_terminal cancelled = true
is_terminal _ = false

-- `{"completed", "cancelled"}`
abbrev pub is_completion : QueueStatus → Bool
is_completion completed = true
is_completion cancelled = true
is_completion _ = false

abbrev pub has_id : String → QueueItem → Bool
has_id id q = q.id == id

abbrev pub is_item : String → String → QueueItem → Bool
is_item project_id run_id q = q.request.project_id == project_id && q.request.run_id == run_id

-- The columns of a new row.
abbrev pub fresh_item : String → ℕ → ℕ → String → QueueRequest → QueueItem
fresh_item id created_at available_at updated_by request = record {
  id = id;
  request = request;
  status = queued;
  attempt_count = 0;
  available_at = available_at;
  leased_until = none;
  lease_owner = "";
  last_error_type = [];
  last_error_message = "";
  dead_letter_reason = "";
  updated_by = updated_by;
  created_at = created_at;
}

-- `id` and `created_at` are given by the session; the request's `available_at` and `updated_by`
-- are arguments, since later methods change these columns.
unfoldable pub enqueue_run_queue_item :
    String
    → ℕ
    → ℕ
    → String
    → QueueRequest
    → List QueueItem
    → Result StoreError (QueueItem × List QueueItem)
enqueue_run_queue_item id created_at available_at updated_by request items =
    let item = fresh_item id created_at available_at updated_by request in
    raise_if (any (λ q. has_id id q || is_item request.project_id request.run_id q) items)
      not_unique
    >>= λ _. ok (item, items ++ item ∷ [])

-- The `where` of the claim, and the rows that `skip_locked` passes over.
abbrev pub is_claimable : (QueueItem → Bool) → ℕ → QueueItem → Bool
is_claimable locked now q =
    is_claimable_status q.status
    && leb q.available_at now
    && ltb now q.request.expires_at
    && not (locked q)

-- `order_by(available_at, created_at)`
abbrev pub comes_before : QueueItem → QueueItem → Bool
comes_before a b =
    ltb a.available_at b.available_at
    || (eqb a.available_at b.available_at && ltb a.created_at b.created_at)

-- `limit(1)`: the least row in that order; of rows that tie, the first.
unfoldable pub first_claimable : (QueueItem → Bool) → ℕ → List QueueItem → Option QueueItem
first_claimable locked now [] = none
first_claimable locked now (q ∷ qs) =
    let rest = first_claimable locked now qs in
    if is_claimable locked now q
    then elim rest [ none ↦ some q | some r ↦ if comes_before r q then some r else some q ]
    else rest

abbrev pub claimed : String → ℕ → ℕ → QueueItem → QueueItem
claimed worker_id lease_seconds now q = record q {
  status = leased;
  lease_owner = worker_id;
  leased_until = some (now + lease_seconds);
  attempt_count = q.attempt_count + 1;
  updated_by = q.request.actor_id;
}

-- The row that was selected is locked until it is written. `none` where nothing can be claimed.
unfoldable pub claim_next_queue_item :
    (QueueItem → Bool)
    → String
    → ℕ
    → ℕ
    → List QueueItem
    → Result StoreError (Option QueueItem × List QueueItem)
claim_next_queue_item locked worker_id lease_seconds now items =
    elim (first_claimable locked now items) [
      | none ↦ ok (none, items)
      | some q ↦
          modify no_row (λ r. has_id q.id r && is_claimable locked now r)
            (claimed worker_id lease_seconds now) items
          >>= λ r. ok (some r.0, r.1)
    ]

abbrev pub started : String → QueueItem → QueueItem
started worker_id q = record q {
  status = running;
  lease_owner = worker_id;
  updated_by = q.request.actor_id;
}

unfoldable pub mark_queue_item_running :
    String → String → List QueueItem → Result StoreError (QueueItem × List QueueItem)
mark_queue_item_running id worker_id items = modify no_row (has_id id) (started worker_id) items

abbrev pub finished : QueueStatus → QueueItem → QueueItem
finished status q = record q {
  status = status;
  leased_until = none;
  lease_owner = "";
  last_error_type = [];
  last_error_message = "";
  updated_by = q.request.actor_id;
}

unfoldable pub complete_queue_item :
    String → QueueStatus → List QueueItem → Result StoreError (QueueItem × List QueueItem)
complete_queue_item id status items =
    raise_if (not (is_completion status)) bad_completion
    >> modify no_row (has_id id) (finished status) items

-- `redact_sensitive_text` is a parameter.
module _ (redact : String → String) where
  abbrev pub failure : String → String → ℕ → ℕ → QueueItem → QueueItem
  failure error_type error_message backoff_seconds now q =
      let noted = record q {
        last_error_type = take 120 (codes (redact error_type));
        last_error_message = redact error_message;
        leased_until = none;
        lease_owner = "";
        updated_by = q.request.actor_id;
      } in
      if leb q.request.max_attempts q.attempt_count
      then record noted { status = dead_letter; dead_letter_reason = redact error_message }
      else record noted { status = failed; available_at = now + backoff_seconds }

  unfoldable pub fail_queue_item :
      String
      → String
      → String
      → ℕ
      → ℕ
      → List QueueItem
      → Result StoreError (QueueItem × List QueueItem)
  fail_queue_item id error_type error_message backoff_seconds now items =
      modify no_row (has_id id) (failure error_type error_message backoff_seconds now) items

  abbrev pub withdrawn : String → String → QueueItem → QueueItem
  withdrawn actor_id reason q = record q {
    status = cancelled;
    leased_until = none;
    lease_owner = "";
    dead_letter_reason = redact reason;
    updated_by = actor_id;
  }

  -- A missing or a terminal item is left, and `none` returned.
  unfoldable pub cancel_queue_item :
      String
      → String
      → String
      → String
      → List QueueItem
      → Result StoreError (Option QueueItem × List QueueItem)
  cancel_queue_item project_id run_id actor_id reason items =
      elim (find_row (is_item project_id run_id) items) [
        | none ↦ ok (none, items)
        | some q ↦
            if is_terminal q.status
            then ok (none, items)
            else (modify no_row (is_item project_id run_id) (withdrawn actor_id reason) items
                >>= λ r. ok (some r.0, r.1))
      ]

-- `delete(...).where(...)`: the rows that stay, and how many went.
unfoldable pub cleanup_expired_queue_payloads : ℕ → List QueueItem → ℕ × List QueueItem
cleanup_expired_queue_payloads now items =
    let expired : QueueItem → Bool = λ q. is_terminal q.status && leb q.request.expires_at now in
    (length (keep expired items), keep (λ q. not (expired q)) items)
