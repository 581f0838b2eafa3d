-- ===== src/WorkflowRuntime/Runs.antt =====
-- backend/app/workflow_runtime/sqlalchemy_store.py, the rows of `workflow_runs`. A table is the list
-- of its rows; a method that raises leaves the table as it is. The columns a method only carries
-- (definition hash, trace id) are kept as they are.
pub mod Cancel
use aegis_flow.Base.{
  String, Bool, true, false, ◌&&◌, none, some, List, [], ◌∷◌, ◌++◌, ◌==◌, Result, ok, err, ◌>>=◌,
  raise_if, if◌then◌else◌, is_some,
}
use aegis_flow.Base.Rows.{find_row, modify}
use aegis_flow.Base.Dicts.{Dict}

-- `WorkflowRunStatus`
pub data RunStatus : Type 0 where
  queued running cancel_requested success failed pending_approval cancelled : RunStatus

pub record Run : Type 0 where
  pub project_id : String
  pub actor_id : String
  pub workflow_version_id : String
  pub workflow_id : String
  pub workflow_ref : String
  pub definition_hash : String
  pub run_id : String
  pub trace_id : String
  pub status : RunStatus
  pub inputs_summary : String
  pub outputs_summary : String
  pub error_type : String
  pub error_message : String
  pub pending : Dict String
  pub created_by : String
  pub updated_by : String

pub record RunUpdate : Type 0 where
  pub project_id : String
  pub run_id : String
  pub actor_id : String
  pub status : RunStatus
  pub outputs_summary : String
  pub error_type : String
  pub error_message : String
  pub pending : Dict String

pub data StoreError : Type 0 where
  no_row not_unique not_pending_approval run_is_terminal bad_completion : StoreError

abbrev pub is_pending : RunStatus → Bool
is_pending pending_approval = true
is_pending _ = false

abbrev pub is_queued : RunStatus → Bool
is_queued queued = true
is_queued _ = false

-- `{"running", "cancel_requested"}`
abbrev pub is_cancellable : RunStatus → Bool
is_cancellable running = true
is_cancellable cancel_requested = true
is_cancellable _ = false

abbrev pub is_run : String → String → Run → Bool
is_run project_id run_id r = r.project_id == project_id && r.run_id == run_id

-- `_load_run`, under `scalar_one`.
unfoldable pub load_run : String → String → List Run → Result StoreError Run
load_run project_id run_id runs = elim (find_row (is_run project_id run_id) runs) [
  | none ↦ err no_row
  | some r ↦ ok r
]

-- The assignments of `cancel_pending_run` and of the end of `request_cancel_run`.
abbrev pub stopped : RunStatus → String → String → Run → Run
stopped status summary actor_id r = record r {
  status = status;
  outputs_summary = summary;
  error_type = "";
  error_message = "";
  pending = [];
  updated_by = actor_id;
}

unfoldable pub cancel_pending_run :
    String → String → String → List Run → Result StoreError (Run × List Run)
unfolding load_run
cancel_pending_run project_id run_id actor_id runs = do
  run ← load_run project_id run_id runs
  if is_pending run.status
      then modify no_row (is_run project_id run_id)
          (stopped cancelled "cancelled by operator" actor_id) runs
      else err not_pending_approval

unfoldable pub request_cancel_run :
    String → String → String → List Run → Result StoreError (Run × List Run)
unfolding load_run cancel_pending_run
request_cancel_run project_id run_id actor_id runs = do
  run ← load_run project_id run_id runs
  if is_pending run.status
      then cancel_pending_run project_id run_id actor_id runs
      else if is_queued run.status
      then modify no_row (is_run project_id run_id)
          (stopped cancelled "cancelled before runner started" actor_id) runs
      else if is_cancellable run.status
      then modify no_row (is_run project_id run_id)
          (stopped cancel_requested "cancellation requested by operator" actor_id) runs
      else err run_is_terminal

-- `redact_sensitive_text` and `_sanitize_runtime_json` are parameters.
module _ (redact : String → String) (sanitize : Dict String → Dict String) where
  -- The unique constraint is on the project and the id of the run.
  unfoldable pub create_run : Run → List Run → Result StoreError (Run × List Run)
  create_run request runs =
      let run = record request {
        inputs_summary = redact request.inputs_summary;
        outputs_summary = redact request.outputs_summary;
        pending = sanitize request.pending;
      } in
      raise_if (is_some (find_row (is_run request.project_id request.run_id) runs)) not_unique
      >>= λ _. ok (run, runs ++ run ∷ [])

  -- The assignments of `update_run`.
  abbrev pub updated : RunUpdate → Run → Run
  updated request r = record r {
    status = request.status;
    outputs_summary = redact request.outputs_summary;
    error_type = redact request.error_type;
    error_message = redact request.error_message;
    pending = sanitize request.pending;
    updated_by = request.actor_id;
  }

  unfoldable pub update_run : RunUpdate → List Run → Result StoreError (Run × List Run)
  update_run request runs =
      modify no_row (is_run request.project_id request.run_id) (updated request) runs
