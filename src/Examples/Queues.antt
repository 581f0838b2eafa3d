-- ===== src/Examples/Queues.antt =====
-- The theorems on the durable queue and its worker at a queue of two rows.
use aegis_flow.Base.{
  String, Bool, true, false, none, some, List, [], ◌∷◌, ◌≡◌, refl, arith, All, Result, ok,
}
use aegis_flow.Base.Dicts.{Dict}
use aegis_flow.Base.Rows.{modify}
use aegis_flow.WorkflowRuntime.Runs.{RunStatus, Run}
use aegis_flow.WorkflowRuntime.Queue.{
  QueueStatus, queued, QueueRequest, QueueItem, fresh_item, first_claimable, claimed,
  claim_next_queue_item, mark_queue_item_running, started, finished,
}
use aegis_flow.WorkflowRuntime.Queue.Sound.{IsSound}
use aegis_flow.WorkflowRuntime.Queue.Reconcile.{Counts}
use aegis_flow.WorkflowRuntime.Queue.Steps.{
  claims, marks_running, stop, then_step, queue_stays-IsSound,
}
use aegis_flow.WorkflowRuntime.Worker.{Db, Failure}

abbrev request : String → QueueRequest
request run_id = record {
  project_id = "p";
  actor_id = "amy";
  workflow_run_id = "w";
  workflow_version_id = "v";
  workflow_ref = "flow:3";
  run_id = run_id;
  trace_id = "t";
  encrypted_inputs = "x";
  encryption_key_ref = "k";
  input_keys = [];
  max_attempts = 2;
  expires_at = 1000;
  created_by = "amy";
}

abbrev pub early : QueueItem
early = fresh_item "a" 5 10 "amy" (request "r1")

abbrev late : QueueItem
late = fresh_item "b" 6 20 "amy" (request "r2")

abbrev rows : List QueueItem
rows = late ∷ early ∷ []

abbrev unlocked : QueueItem → Bool
unlocked _ = false

abbrev taken : QueueItem
taken = claimed "worker" 60 100 early

abbrev after_claim : List QueueItem
after_claim = late ∷ taken ∷ []

claims_early : claim_next_queue_item unlocked "worker" 60 100 rows ≡ ok (some taken, after_claim)
unfolding claim_next_queue_item first_claimable modify
claims_early = refl

abbrev pub redact : String → String
redact s = s

abbrev after_start : List QueueItem
after_start = late ∷ started "worker" taken ∷ []

starts_taken :
    mark_queue_item_running "a" "worker" after_claim ≡ ok (started "worker" taken, after_start)
unfolding mark_queue_item_running modify
starts_taken = refl

fresh :
    (q : QueueItem)
    → q.attempt_count ≡ 0
    → q.request.max_attempts ≡ 2
    → q.status ≡ queued
    → (q.leased_until ≡ none) × (q.lease_owner ≡ "")
    → IsSound q
fresh q a m s l = ground arith

rows-IsSound : All IsSound rows
rows-IsSound =
    (fresh late refl refl refl (refl, refl), (fresh early refl refl refl (refl, refl), tt))

queue_stays-IsSound_example : All IsSound after_start
queue_stays-IsSound_example =
    queue_stays-IsSound redact rows after_start
      (then_step rows after_claim after_start
        (claims unlocked "worker" 60 100 rows after_claim (some taken) claims_early)
        (then_step after_claim after_start after_start
          (marks_running "a" "worker" after_claim after_start (started "worker" taken) starts_taken)
          (stop after_start)))
      rows-IsSound

abbrev pub run : RunStatus → Run
run status = record {
  project_id = "p";
  actor_id = "amy";
  workflow_version_id = "v";
  workflow_id = "flow";
  workflow_ref = "flow:3";
  definition_hash = "h";
  run_id = "r1";
  trace_id = "t";
  status = status;
  inputs_summary = "";
  outputs_summary = "";
  error_type = "";
  error_message = "";
  pending = [];
  created_by = "amy";
  updated_by = "amy";
}

abbrev counts : Counts
counts = record { requeued = 1; cancelled_count = 0; dead_letter_count = 0; completed_count = 0 }

abbrev requeued_row : QueueItem
requeued_row = record taken {
  status = queued;
  lease_owner = "";
  leased_until = none;
  available_at = 500;
}

abbrev requeued_run : Run
requeued_run = record (run RunStatus.running) {
  status = RunStatus.queued;
  outputs_summary = "requeued during queue startup reconciliation";
}

-- A runner that succeeds.
abbrev pub succeeds : QueueItem → Run → Db → Result Failure RunStatus × Db
succeeds _ _ db = (ok RunStatus.success, db)

abbrev pub keeps_all : Dict String → Dict String
keeps_all d = d

abbrev pub has_version : QueueItem → Bool
has_version _ = true

abbrev db : Db
db = record { runs = run RunStatus.queued ∷ []; items = rows; events = [] }

abbrev done : Db
done = record {
  runs = run RunStatus.queued ∷ [];
  items = late ∷ finished QueueStatus.completed (started "worker" taken) ∷ [];
  events = "run.worker.claimed" ∷ [];
}
