-- ===== src/WorkflowRuntime/Worker.antt =====
-- backend/app/workflow_runtime/background.py: the worker that takes one row of the queue. The runner,
-- with the decryption of the inputs, and the store of the versions are parameters; of an event its
-- type is kept; an exception is its class and its message.
pub mod Releases
pub mod Buries
use aegis_flow.Base.{
  ℕ, zero, suc, ◌*◌, ◌-◌, String, Bool, true, false, not, ◌&&◌, ◌||◌, Option, none, some, List, [],
  ◌∷◌, ◌++◌, Result, ok, err, ◌>>=◌, if◌then◌else◌,
}
use aegis_flow.Base.Dicts.{Dict}
use aegis_flow.Base.Rows.{find_row}
use aegis_flow.WorkflowRuntime.Runs.{RunStatus, Run, RunUpdate, StoreError, is_run, update_run}
use aegis_flow.WorkflowRuntime.Queue.{
  QueueStatus, completed, cancelled, dead_letter, QueueItem, claim_next_queue_item,
  mark_queue_item_running, complete_queue_item, fail_queue_item,
}

pub record Db : Type 0 where
  pub runs : List Run
  pub items : List QueueItem
  pub events : List String

pub record Failure : Type 0 where
  pub class_name : String
  pub message : String

abbrev pub is_dead_letter : QueueStatus → Bool
is_dead_letter dead_letter = true
is_dead_letter _ = false

abbrev pub is_cancelled_run : RunStatus → Bool
is_cancelled_run RunStatus.cancelled = true
is_cancelled_run _ = false

-- `{"success", "failed", "pending_approval", "cancelled"}`
abbrev pub is_ended : RunStatus → Bool
is_ended RunStatus.success = true
is_ended RunStatus.failed = true
is_ended RunStatus.pending_approval = true
is_ended RunStatus.cancelled = true
is_ended _ = false

abbrev power_of_two : ℕ → ℕ
power_of_two zero = 1
power_of_two (suc n) = 2 * power_of_two n

-- `_next_backoff_seconds`: the subtraction stops at 0, as `max(..., 0)` does.
unfoldable pub next_backoff_seconds : ℕ → QueueItem → ℕ
next_backoff_seconds base q = base * power_of_two (q.attempt_count - 1)

abbrev pub record_event : String → Db → Db
record_event event_type db = record db { events = db.events ++ event_type ∷ [] }

abbrev pub no_result : Failure
no_result = record {
  class_name = "NoResultFound";
  message = "No row was found when one was required";
}

-- The update that marks a run failed.
abbrev pub failed_update : QueueItem → Failure → RunUpdate
failed_update q f = record {
  project_id = q.request.project_id;
  run_id = q.request.run_id;
  actor_id = q.request.actor_id;
  status = RunStatus.failed;
  outputs_summary = "";
  error_type = f.class_name;
  error_message = f.message;
  pending = [];
}

module _ (redact : String → String) (sanitize : Dict String → Dict String)
    (has_version : QueueItem → Bool)
    (run_existing : QueueItem → Run → Db → Result Failure RunStatus × Db) where
  -- The completion of the row, whose failure is an exception like any other.
  unfoldable pub complete_row : QueueItem → QueueStatus → Db → Result Failure QueueItem × Db
  complete_row q status db = elim (complete_queue_item q.id status db.items) [
    | err _ ↦ (err no_result, db)
    | ok (item, items) ↦ (ok item, record db { items = items })
  ]

  unfoldable pub run_row : QueueItem → Run → Db → Result Failure QueueItem × Db
  run_row q run db =
      let ran = run_existing q run db in
      elim ran.0 [
        | err f ↦ (err f, ran.1)
        | ok status ↦
            complete_row q (if is_cancelled_run status then cancelled else completed) ran.1
      ]

  unfoldable pub execute_queue_item : QueueItem → Db → Result Failure QueueItem × Db
  execute_queue_item q db =
      let missing : Failure = record {
        class_name = "WorkflowRuntimeError";
        message = "workflow queue item references a missing run or version";
      } in
      if not (has_version q)
      then (err missing, db)
      else elim (find_row (is_run q.request.project_id q.request.run_id) db.runs) [
        | none ↦ (err missing, db)
        | some run ↦
            if is_cancelled_run run.status then complete_row q cancelled db else run_row q run db
      ]

  -- `_mark_run_failed_from_queue_error`
  unfoldable pub mark_run_failed : QueueItem → Failure → List Run → Result StoreError (List Run)
  mark_run_failed q f runs = elim (find_row (is_run q.request.project_id q.request.run_id) runs) [
    | none ↦ ok runs
    | some run ↦
        if is_ended run.status
        then ok runs
        else (update_run redact sanitize (failed_update q f) runs >>= λ r. ok r.1)
  ]

  unfoldable pub handle_queue_failure : ℕ → ℕ → QueueItem → Failure → Db → Result StoreError Db
  handle_queue_failure base now q f db = do
    (item, items) ←
        fail_queue_item redact q.id f.class_name f.message (next_backoff_seconds base q) now
          db.items
    if is_dead_letter item.status
        then (do
          runs ← mark_run_failed q f db.runs
          ok (record_event "run.worker.dead_letter" (record db { items = items; runs = runs })))
        else ok (record_event "run.worker.retry_scheduled" (record db { items = items }))

  -- What follows a claim.
  unfoldable pub process_claimed :
      String → ℕ → ℕ → QueueItem → Db → Result StoreError (Option QueueItem × Db)
  process_claimed worker_id base now q db = do
    (_, items) ← mark_queue_item_running q.id worker_id db.items
    let done =
        execute_queue_item q (record_event "run.worker.claimed" (record db { items = items }))
    elim done.0 [
      | ok _ ↦ ok (some q, done.1)
      | err f ↦ (handle_queue_failure base now q f done.1 >>= λ after. ok (some q, after))
    ]

  -- `False` where nothing could be claimed. The row that is passed on is the one that was claimed.
  unfoldable pub process_next_queue_item :
      (QueueItem → Bool) → String → ℕ → ℕ → ℕ → Db → Result StoreError (Option QueueItem × Db)
  process_next_queue_item locked worker_id lease_seconds base now db = do
    (taken, items) ← claim_next_queue_item locked worker_id lease_seconds now db.items
    elim taken [
      | none ↦ ok (none, record db { items = items })
      | some q ↦ process_claimed worker_id base now q (record db { items = items })
    ]
