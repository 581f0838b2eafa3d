-- ===== src/Examples/Failures.antt =====
-- The theorems on cancelled runs and on rows that end as dead letters.
use aegis_flow.Base.{true, some, List, [], ◌∷◌, ◌≡◌, refl, ok}
use aegis_flow.Base.Rows.{find_row, modify}
use aegis_flow.WorkflowRuntime.Runs.{
  RunStatus, Run, is_run, load_run, stopped, cancel_pending_run, request_cancel_run, update_run,
  updated,
}
use aegis_flow.WorkflowRuntime.Runs.Cancel.{Cancels, request_cancel_run_lem}
use aegis_flow.WorkflowRuntime.Queue.{running, QueueItem, failure, fail_queue_item}
use aegis_flow.WorkflowRuntime.Worker.{
  Db, Failure, is_ended, failed_update, next_backoff_seconds, mark_run_failed, handle_queue_failure,
}
use aegis_flow.WorkflowRuntime.Worker.Buries.{handle_queue_failure_ends}
use aegis_flow.Examples.Queues.{early, redact, keeps_all, has_version, succeeds, run}

abbrev runs : List Run
runs = run RunStatus.running ∷ []

abbrev asked : Run
asked =
    stopped RunStatus.cancel_requested "cancellation requested by operator" "bob"
      (run RunStatus.running)

asks_to_stop : request_cancel_run "p" "r1" "bob" runs ≡ ok (asked, asked ∷ [])
unfolding request_cancel_run load_run cancel_pending_run find_row modify
asks_to_stop = refl

request_cancel_run_lem_example :
    (old : Run) × ((find_row (is_run "p" "r1") runs ≡ some old)
      × (Cancels old.status RunStatus.cancel_requested
          × (find_row (is_run "p" "r1") (asked ∷ []) ≡ some asked)))
request_cancel_run_lem_example =
    request_cancel_run_lem "p" "r1" "bob" runs (asked ∷ []) asked asks_to_stop

finds_run : find_row (is_run "p" "r1") runs ≡ some (run RunStatus.running)
unfolding find_row
finds_run = refl

-- A row with no attempt left.
abbrev worn : QueueItem
worn = record early { status = running; attempt_count = 2 }

abbrev crash : Failure
crash = record { class_name = "RuntimeError"; message = "boom" }

abbrev before : Db
before = record { runs = runs; items = worn ∷ []; events = [] }

abbrev buried : QueueItem
buried = failure redact "RuntimeError" "boom" 10 100 worn

buries_worn :
    fail_queue_item redact "a" "RuntimeError" "boom" (next_backoff_seconds 5 worn) 100 (worn ∷ [])
    ≡ ok (buried, buried ∷ [])
unfolding fail_queue_item modify next_backoff_seconds
buries_worn = refl

abbrev ended : Run
ended = updated redact keeps_all (failed_update worn crash) (run RunStatus.running)

abbrev after : Db
after = record { runs = ended ∷ []; items = buried ∷ []; events = "run.worker.dead_letter" ∷ [] }

handles_crash :
    handle_queue_failure redact keeps_all has_version succeeds 5 100 worn crash before ≡ ok after
unfolding handle_queue_failure mark_run_failed update_run fail_queue_item next_backoff_seconds
    find_row modify
handles_crash = refl

finds_ended : find_row (is_run "p" "r1") after.runs ≡ some ended
unfolding find_row
finds_ended = refl

handle_queue_failure_ends_example : is_ended ended.status ≡ true
handle_queue_failure_ends_example =
    handle_queue_failure_ends redact keeps_all has_version succeeds 5 100 worn buried (buried ∷ [])
      crash before after ended buries_worn refl handles_crash finds_ended
