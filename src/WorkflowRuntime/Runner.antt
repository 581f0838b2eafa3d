-- ===== src/WorkflowRuntime/Runner.antt =====
-- backend/app/workflow_runtime/runner.py: how a run starts, ends, waits and resumes. The graph of
-- LangGraph, with its nodes, is a parameter that may change every table, as other requests do while it
-- runs; of its last state what the runner reads is kept. A run result is the row it is built from.
pub mod Ends
pub mod Existing
pub mod Work
pub mod Cancels
pub mod Resumes
use aegis_flow.Base.{
  ℕ, String, Bool, true, false, not, ◌&&◌, ◌||◌, Option, none, some, List, [], ◌∷◌, ◌++◌, ◌==◌, map,
  keep, is_empty, any, ltb, Result, ok, err, ◌>>=◌, ◌>>◌, raise_if, if◌then◌else◌, str_append,
}
use aegis_flow.Base.Dicts.{Dict}
use aegis_flow.Base.Rows.{find_row}
use aegis_flow.Workflows.Types.{
  WorkflowStatus, published, NodeDefinition, EdgeDefinition, WorkflowDefinition,
}
use aegis_flow.WorkflowRuntime.Compiler.{sequence_edges_from}
use aegis_flow.WorkflowRuntime.Runs.{
  RunStatus, running, cancel_requested, success, failed, pending_approval, cancelled, Run,
  RunUpdate, StoreError, is_run, is_pending, create_run, update_run,
}
use aegis_flow.WorkflowRuntime.Worker.{Db, Failure, is_cancelled_run, record_event, no_result}

-- Of `WorkflowVersionRead`, what the runner reads.
pub record WorkflowVersion : Type 0 where
  pub id : String
  pub project_id : String
  pub definition_hash : String
  pub status : WorkflowStatus
  pub definition : WorkflowDefinition

-- `WorkflowRunRequest`, less the inputs, which go to the graph.
pub record RunRequest : Type 0 where
  pub project_id : String
  pub actor_id : String
  pub version : WorkflowVersion
  pub run_id : String
  pub trace_id : String

-- Of `WorkflowPendingApproval`, what the runner reads.
pub record PendingApproval : Type 0 where
  pub node_id : String
  pub approval_kind : String

-- Of `WorkflowRunCheckpointRead`, what the runner reads.
pub record Checkpoint : Type 0 where
  pub node_id : String
  pub is_pending_approval : Bool
  pub state : String

-- How the graph ends: with a state that holds outputs or an interrupt, or by an exception, one of the
-- runner's own or another. The status code is that of a `ToolGatewayServiceError`.
pub data Ran : Type 0 where
  answers : String → Ran
  interrupts : Dict String → Ran
  pends : Dict String → Ran
  stops : Ran
  raises : Option ℕ → Failure → Ran

abbrev pub runtime_error : String → Failure
runtime_error message = record { class_name = "WorkflowRuntimeError"; message = message }

abbrev pub is_published : WorkflowStatus → Bool
is_published published = true
is_published _ = false

-- `status in {"cancel_requested", "cancelled"}`
abbrev pub is_stopping : RunStatus → Bool
is_stopping cancel_requested = true
is_stopping cancelled = true
is_stopping _ = false

abbrev pub is_cancel_requested : RunStatus → Bool
is_cancel_requested cancel_requested = true
is_cancel_requested _ = false

-- `_validate_version`
unfoldable pub validate_version : WorkflowVersion → String → Result Failure (Unit {0})
validate_version version project_id = do
  raise_if (not (version.project_id == project_id))
      (runtime_error "workflow version is not in project scope")
  raise_if (not (is_published version.status && is_published version.definition.workflow.status))
      (runtime_error "workflow runtime can only run published workflow versions")

abbrev pub same_version : WorkflowVersion → Run → Bool
same_version version run =
    run.workflow_version_id == version.id && run.definition_hash == version.definition_hash

abbrev pub mismatch : Failure
mismatch = runtime_error "workflow run does not match workflow version"

abbrev pub ResultOfRun : Type 0
ResultOfRun = Result Failure Run × Db

abbrev pub status_update : RunRequest → String → RunStatus → RunUpdate
status_update request run_id status = record {
  project_id = request.project_id;
  run_id = run_id;
  actor_id = request.actor_id;
  status = status;
  outputs_summary = "";
  error_type = "";
  error_message = "";
  pending = [];
}

abbrev pub pending_update : RunRequest → String → Dict String → RunUpdate
pending_update request run_id pending = record (status_update request run_id pending_approval) {
  pending = pending;
}

abbrev pub success_update : RunRequest → String → String → RunUpdate
success_update request run_id summary = record (status_update request run_id success) {
  outputs_summary = summary;
}

abbrev pub failure_update : RunRequest → String → Failure → RunUpdate
failure_update request run_id f = record (status_update request run_id failed) {
  error_type = f.class_name;
  error_message = f.message;
}

abbrev pub cancelled_update : RunRequest → String → RunUpdate
cancelled_update request run_id = record (status_update request run_id cancelled) {
  outputs_summary = "cancelled by operator";
}

-- What `ensure_not_cancelled` and the handler of other exceptions look at.
unfoldable pub should_stop : String → String → List Run → Bool
should_stop project_id run_id runs = elim (find_row (is_run project_id run_id) runs) [
  | none ↦ false
  | some run ↦ is_stopping run.status
]

-- `_node_by_id`
unfoldable pub node_by_id : WorkflowDefinition → String → Result Failure NodeDefinition
node_by_id workflow node_id = elim (find_row (λ n. n.id == node_id) workflow.nodes) [
  | none ↦ err (runtime_error (str_append "workflow node does not exist: " node_id))
  | some n ↦ ok n
]

-- `_successor_node_ids`: the edges that the compiler follows in sequence.
unfoldable pub successor_node_ids : WorkflowDefinition → String → List String
successor_node_ids workflow node_id =
    map (λ e. e.target) (sequence_edges_from workflow.edges node_id)

-- `pending_checkpoints[-1]`
abbrev pub last_one : List Checkpoint → Option Checkpoint
last_one [] = none
last_one (c ∷ []) = some c
last_one (_ ∷ c ∷ cs) = last_one (c ∷ cs)

-- `_latest_pending_checkpoint`
unfoldable pub latest_pending_checkpoint :
    List Checkpoint → PendingApproval → Result Failure Checkpoint
latest_pending_checkpoint checkpoints pending =
    elim (last_one
      (keep (λ c. c.is_pending_approval && c.node_id == pending.node_id) checkpoints)) [
        | none ↦ err (runtime_error "workflow run pending checkpoint is missing")
        | some c ↦ ok c
      ]

module _ (redact : String → String) (sanitize : Dict String → Dict String) where
  -- The update of the run's row, whose failure is an exception like any other.
  unfoldable pub write_run : RunUpdate → Db → ResultOfRun
  write_run u db = elim (update_run redact sanitize u db.runs) [
    | err _ ↦ (err no_result, db)
    | ok (run, runs) ↦ (ok run, record db { runs = runs })
  ]

  -- An update and the event after it.
  unfoldable pub write_and_record : RunUpdate → String → Db → ResultOfRun
  write_and_record u event_type db =
      let written = write_run u db in
      elim written.0 [
        | err f ↦ (err f, written.1)
        | ok run ↦ (ok run, record_event event_type written.1)
      ]

  -- `except Exception`: a run that is asked to stop is cancelled, any other fails.
  unfoldable pub recover : RunRequest → String → Failure → Db → ResultOfRun
  recover request run_id f db =
      if should_stop request.project_id run_id db.runs
      then write_and_record (cancelled_update request run_id) "run.cancelled" db
      else write_and_record (failure_update request run_id f) "run.failed" db

  -- An update inside the `try`.
  unfoldable pub attempt : RunRequest → String → RunUpdate → String → Db → ResultOfRun
  attempt request run_id u event_type db =
      let written = write_and_record u event_type db in
      elim written.0 [ err f ↦ recover request run_id f written.1 | ok run ↦ (ok run, written.1) ]

  -- What follows the graph.
  unfoldable pub finish_run : RunRequest → String → Ran → Db → ResultOfRun
  finish_run request run_id (interrupts pending) db =
      attempt request run_id (pending_update request run_id pending) "run.pending_approval" db
  finish_run request run_id (answers summary) db =
      if should_stop request.project_id run_id db.runs
      then write_and_record (cancelled_update request run_id) "run.cancelled" db
      else attempt request run_id (success_update request run_id summary) "run.succeeded" db
  finish_run request run_id (pends pending) db =
      write_and_record (pending_update request run_id pending) "run.pending_approval" db
  finish_run request run_id stops db =
      write_and_record (cancelled_update request run_id) "run.cancelled" db
  finish_run request run_id (raises code f) db = recover request run_id f db

  module _ (graph : Db → Ran × Db) where
    -- `_execute_run`
    unfoldable pub execute_run : RunRequest → String → Db → ResultOfRun
    execute_run request run_id db =
        let done = graph (record_event "run.started" db) in finish_run request run_id done.0 done.1

    unfoldable pub run_existing : RunRequest → Run → Db → ResultOfRun
    run_existing request run_record db =
        elim (validate_version request.version request.project_id) [
          | err f ↦ (err f, db)
          | ok _ ↦
              if not (same_version request.version run_record)
              then (err mismatch, db)
              else if is_cancelled_run run_record.status
              then (ok run_record, db)
              else if is_cancel_requested run_record.status
              then write_and_record (cancelled_update request run_record.run_id) "run.cancelled" db
              else (let started = write_run (status_update request run_record.run_id running) db in
                  elim started.0 [
                    | err f ↦ (err f, started.1)
                    | ok run ↦ execute_run request run.run_id started.1
                  ])
        ]

    -- The run that `run` creates is the argument; it is the row of the request, running.
    unfoldable pub run : RunRequest → Run → Db → ResultOfRun
    run request new_run db = elim (validate_version request.version request.project_id) [
      | err f ↦ (err f, db)
      | ok _ ↦ elim (create_run redact sanitize new_run db.runs) [
        | err _ ↦ (err (record { class_name = "IntegrityError"; message = "" }), db)
        | ok (created, runs) ↦ execute_run request created.run_id (record db { runs = runs })
      ]
    ]

  -- What follows the graph in `resume`, where nothing looks for a request to cancel once the graph failed.
  unfoldable pub finish_resumed : RunRequest → String → Ran → Db → ResultOfRun
  finish_resumed request run_id (interrupts pending) db =
      let written = write_run (pending_update request run_id pending) db in
      elim written.0 [
        | err f ↦ write_run (failure_update request run_id f) written.1
        | ok run ↦ (ok run, written.1)
      ]
  finish_resumed request run_id (answers summary) db =
      if should_stop request.project_id run_id db.runs
      then write_and_record (cancelled_update request run_id) "run.cancelled" db
      else (let written = write_run (success_update request run_id summary) db in
          elim written.0 [
            | err f ↦ write_run (failure_update request run_id f) written.1
            | ok run ↦ (ok run, written.1)
          ])
  finish_resumed request run_id (pends pending) db =
      write_run (pending_update request run_id pending) db
  finish_resumed request run_id stops db =
      write_and_record (cancelled_update request run_id) "run.cancelled" db
  finish_resumed request run_id (raises none f) db = write_run (failure_update request run_id f) db
  finish_resumed request run_id (raises (some code) f) db =
      if ltb code 500
      then (err (runtime_error f.message), db)
      else write_run (failure_update request run_id f) db

  -- `WorkflowPendingApproval.model_validate`, the resumption of the interrupted graph, the resumption of
  -- one node, where `none` is that it returned, and the graph from a list of nodes.
  module _ (parse_pending : Dict String → Option PendingApproval) (resume_graph : Db → Ran × Db)
      (resume_node : NodeDefinition → Checkpoint → PendingApproval → Db → Option Ran × Db)
      (graph_from : List String → Db → Ran × Db) (final_summary : Checkpoint → String) where
    -- `_pending_approval_from_run`
    unfoldable pub pending_approval_from_run : Run → Result Failure PendingApproval
    pending_approval_from_run r =
        if is_empty r.pending
        then err (runtime_error "workflow run is missing pending approval payload")
        else elim (parse_pending r.pending) [
          | none ↦ err (runtime_error "workflow run pending approval payload is invalid")
          | some p ↦ ok p
        ]

    -- The run from where it waits.
    unfoldable pub continue_run :
        WorkflowDefinition → NodeDefinition → PendingApproval → Checkpoint → Db → Ran × Db
    continue_run workflow node pending checkpoint db =
        if pending.approval_kind == "human"
        then resume_graph db
        else (let done = resume_node node checkpoint pending db in
            elim done.0 [
              | some ran ↦ (ran, done.1)
              | none ↦
                  let next = successor_node_ids workflow node.id in
                  if is_empty next
                  then (answers (final_summary checkpoint), done.1)
                  else graph_from next done.1
            ])

    -- The checks that come before anything runs.
    unfoldable pub resumable :
        RunRequest
        → List Checkpoint
        → List Run
        → Result Failure (NodeDefinition × (PendingApproval × Checkpoint))
    resumable request checkpoints runs = do
      validate_version request.version request.project_id
      elim (find_row (is_run request.project_id request.run_id) runs) [
        | none ↦ err (runtime_error "workflow run not found")
        | some r ↦ (do
          raise_if (not (is_pending r.status))
              (runtime_error "workflow run is not pending approval")
          raise_if (not (same_version request.version r)) mismatch
          pending ← pending_approval_from_run r
          node ← node_by_id request.version.definition pending.node_id
          checkpoint ← latest_pending_checkpoint checkpoints pending
          ok (node, (pending, checkpoint)))
      ]

    unfoldable pub resume : RunRequest → List Checkpoint → Db → ResultOfRun
    resume request checkpoints db = elim (resumable request checkpoints db.runs) [
      | err f ↦ (err f, db)
      | ok (node, (pending, checkpoint)) ↦
          let done = continue_run request.version.definition node pending checkpoint db in
          finish_resumed request request.run_id done.0 done.1
    ]
