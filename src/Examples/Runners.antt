-- ===== src/Examples/Runners.antt =====
-- The theorems on the runner at a run whose graph answers, and at one whose graph is asked to stop.
use aegis_flow.Base.{String, true, Option, none, some, [], ◌∷◌, ◌≡◌, refl, ok, Result}
use aegis_flow.Base.Dicts.{Dict}
use aegis_flow.Base.Rows.{find_row, modify}
use aegis_flow.Workflows.Types.{published, NodeDefinition}
use aegis_flow.WorkflowRuntime.Compiler.{sequence_edges_from}
use aegis_flow.WorkflowRuntime.Runs.{RunStatus, Run, is_run, update_run}
use aegis_flow.WorkflowRuntime.Queue.{QueueItem, completed, finished, complete_queue_item}
use aegis_flow.WorkflowRuntime.Worker.{Db, Failure, complete_row, run_row, execute_queue_item}
use aegis_flow.WorkflowRuntime.Runner.{
  WorkflowVersion, RunRequest, PendingApproval, Checkpoint, Ran, answers, interrupts, raises,
  validate_version, should_stop, node_by_id, successor_node_ids, latest_pending_checkpoint,
  write_run, write_and_record, attempt, finish_run, execute_run, run_existing, finish_resumed,
  pending_approval_from_run, continue_run, resumable, resume,
}
use aegis_flow.WorkflowRuntime.Runner.Ends.{Ended}
use aegis_flow.WorkflowRuntime.Runner.Cancels.{execute_run_cancels}
use aegis_flow.WorkflowRuntime.Runner.Resumes.{Waits, resume_ends}
use aegis_flow.WorkflowRuntime.Runner.Work.{runner, RunEnded, execute_queue_item_ends}
use aegis_flow.Examples.{branching}
use aegis_flow.Examples.Queues.{early, redact, keeps_all, has_version, run}

abbrev version : WorkflowVersion
version = record {
  id = "v";
  project_id = "p";
  definition_hash = "h";
  status = published;
  definition = branching;
}

abbrev request : RunRequest
request = record {
  project_id = "p";
  actor_id = "amy";
  version = version;
  run_id = "r1";
  trace_id = "t";
}

-- A run of the version.
abbrev this_run : RunStatus → Run
this_run status = record (run status) { workflow_version_id = "v"; definition_hash = "h" }

abbrev before : RunStatus → Db
before status = record { runs = this_run status ∷ []; items = early ∷ []; events = [] }

abbrev answering : Db → Ran × Db
answering db = (answers "done", db)

runs_to_success :
    (run_existing redact keeps_all answering request
      (this_run RunStatus.queued)
      (before RunStatus.queued)).1.events
    ≡ "run.started" ∷ "run.succeeded" ∷ []
unfolding run_existing validate_version write_run update_run modify execute_run finish_run
    should_stop find_row attempt write_and_record
runs_to_success = refl

-- While the graph runs, the run is asked to stop; then a node fails.
abbrev interrupted : Db → Ran × Db
interrupted db = (
  raises none (record { class_name = "RuntimeError"; message = "boom" }),
  record db { runs = this_run RunStatus.cancel_requested ∷ [] },
)

execute_run_cancels_example :
    (r : Run) × (((execute_run redact keeps_all interrupted request "r1"
          (before RunStatus.running)).0
        ≡ ok r)
      × (r.status ≡ RunStatus.cancelled))
unfolding should_stop find_row
execute_run_cancels_example =
    execute_run_cancels redact keeps_all interrupted request "r1" (before RunStatus.running) refl
      refl

-- A graph that waits for an approval takes the request to stop back.
abbrev interrupted_for_approval : Db → Ran × Db
interrupted_for_approval db = (
  interrupts (("node_id", "deploy") ∷ []),
  record db { runs = this_run RunStatus.cancel_requested ∷ [] },
)

waits_again :
    find_row
      (is_run "p" "r1")
      (execute_run redact keeps_all interrupted_for_approval request "r1"
        (before RunStatus.running)).1.runs
    ≡ some (record (this_run RunStatus.pending_approval) {
      pending = ("node_id", "deploy") ∷ [];
      updated_by = "amy";
    })
unfolding write_run update_run modify execute_run finish_run find_row attempt write_and_record
waits_again = refl

-- A run that waits at its shell node.
abbrev waiting_run : Run
waiting_run = record (this_run RunStatus.pending_approval) { pending = ("node_id", "deploy") ∷ [] }

abbrev waiting : Db
waiting = record { runs = waiting_run ∷ []; items = []; events = [] }

abbrev parses : Dict String → Option PendingApproval
parses _ = some (record { node_id = "deploy"; approval_kind = "shell" })

abbrev deploys : NodeDefinition → Checkpoint → PendingApproval → Db → Option Ran × Db
deploys node checkpoint pending db = (none, db)

abbrev checkpoint : Checkpoint
checkpoint = record { node_id = "deploy"; is_pending_approval = true; state = "" }

abbrev resumed_run : Run
resumed_run = record (this_run RunStatus.success) { outputs_summary = "done"; updated_by = "amy" }

resumes :
    (resume redact keeps_all parses answering deploys
      (λ _ db. answering db)
      (λ _. "")
      request
      (checkpoint ∷ [])
      waiting).0
    ≡ ok resumed_run
unfolding resume resumable pending_approval_from_run latest_pending_checkpoint continue_run
    successor_node_ids sequence_edges_from finish_resumed validate_version write_run update_run
    modify should_stop find_row node_by_id
resumes = refl

resume_ends_example :
    ((r : Run) × Waits redact keeps_all parses answering deploys
        (λ _ db. answering db)
        (λ _. "")
        request
        (checkpoint ∷ [])
        waiting.runs
        r)
    × Ended "p" "r1" (
        resume redact keeps_all parses answering deploys
          (λ _ db. answering db)
          (λ _. "")
          request
          (checkpoint ∷ [])
          waiting)
resume_ends_example =
    resume_ends redact keeps_all parses answering deploys (λ _ db. answering db) (λ _. "") request
      (checkpoint ∷ []) waiting resumed_run resumes

-- The worker with the runner on the row of the run.
abbrev works : Result Failure QueueItem × Db
works =
    execute_queue_item redact keeps_all has_version
      (runner redact keeps_all has_version (λ _. version) (λ _ db. answering db)) early
      (before RunStatus.queued)

abbrev completed_row : QueueItem
completed_row = finished completed early

completes : works.0 ≡ ok completed_row
unfolding execute_queue_item run_row complete_row complete_queue_item run_existing validate_version
    write_run update_run modify execute_run finish_run should_stop find_row attempt write_and_record
completes = refl

execute_queue_item_ends_example :
    RunEnded redact keeps_all has_version (λ _. version) (λ _ db. answering db) early works.1
execute_queue_item_ends_example =
    execute_queue_item_ends redact keeps_all has_version (λ _. version) (λ _ db. answering db) early
      (before RunStatus.queued) completed_row completes
