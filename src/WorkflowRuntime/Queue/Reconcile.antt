-- ===== src/WorkflowRuntime/Queue/Reconcile.antt =====
-- backend/app/workflow_runtime/sqlalchemy_store.py, `reconcile_stale_queue_items`: at startup the rows
-- whose lease ran out are settled by the status of their run. The rows are taken in the order of the
-- table: a run has one row, so the order of the rows changes nothing.
pub mod Settles
use aegis_flow.Base.{
  ℕ, Bool, true, false, ◌&&◌, ◌||◌, none, some, List, [], ◌∷◌, Result, ok, ◌>>=◌, if◌then◌else◌,
  suc, ◌+◌, ◌<◌, leb, ◌≡◌, refl, subst, ◌⊎◌, inl, inr, arith, All, keep, length, Bool-cases,
  >>=-eq-ok,
}
use aegis_flow.Base.Rows.{modify}
use aegis_flow.WorkflowRuntime.Runs.{RunStatus, Run, StoreError, no_row, is_run, load_run}
use aegis_flow.WorkflowRuntime.Queue.{
  queued, completed, dead_letter, cancelled, QueueItem, is_held, is_terminal,
}
use aegis_flow.WorkflowRuntime.Queue.Sound.{IsSound}

pub data Verdict : Type 0 where
  cancels completes buries requeues : Verdict

pub record Counts : Type 0 where
  pub requeued : ℕ
  pub cancelled_count : ℕ
  pub dead_letter_count : ℕ
  pub completed_count : ℕ

-- `{"cancel_requested", "cancelled"}`
abbrev pub is_cancelling : RunStatus → Bool
is_cancelling RunStatus.cancel_requested = true
is_cancelling RunStatus.cancelled = true
is_cancelling _ = false

-- `{"success", "failed", "pending_approval"}`
abbrev pub is_settled : RunStatus → Bool
is_settled RunStatus.success = true
is_settled RunStatus.failed = true
is_settled RunStatus.pending_approval = true
is_settled _ = false

abbrev pub is_cancelled : RunStatus → Bool
is_cancelled RunStatus.cancelled = true
is_cancelled _ = false

-- `{"running", "queued"}`
abbrev pub is_active : RunStatus → Bool
is_active RunStatus.running = true
is_active RunStatus.queued = true
is_active _ = false

-- The `where` of the statement.
abbrev pub is_stale : ℕ → QueueItem → Bool
is_stale now q = is_held q.status && elim q.leased_until [ none ↦ false | some t ↦ leb t now ]

-- The branch the loop takes for a row, by its run.
unfoldable pub verdict : Run → QueueItem → Verdict
verdict run q =
    if is_cancelling run.status
    then cancels
    else if is_settled run.status
    then completes
    else if leb q.request.max_attempts q.attempt_count
    then buries
    else requeues

-- What the branch makes of the row.
unfoldable pub settled_item : ℕ → Verdict → QueueItem → QueueItem
settled_item now v q =
    let freed = record q {
      lease_owner = "";
      leased_until = none;
      updated_by = q.request.actor_id;
    } in
    elim v [
      | cancels ↦ record freed { status = cancelled }
      | completes ↦ record freed { status = completed }
      | buries ↦ record freed {
        status = dead_letter;
        dead_letter_reason = "max attempts reached during startup reconciliation";
      }
      | requeues ↦ record freed { status = queued; available_at = now }
    ]

-- What the branch makes of the run.
unfoldable pub settled_run : Verdict → QueueItem → Run → Run
settled_run cancels q r = if is_cancelled r.status then r else record r {
  status = RunStatus.cancelled;
  outputs_summary = "cancelled during queue startup reconciliation";
  updated_by = q.request.actor_id;
}
settled_run completes q r = r
settled_run buries q r = if is_settled r.status || is_cancelled r.status then r else record r {
  status = RunStatus.failed;
  error_type = "WorkflowQueueDeadLetter";
  error_message = "max attempts reached during startup reconciliation";
  updated_by = q.request.actor_id;
}
settled_run requeues q r =
    if is_active r.status
    then record r {
      status = RunStatus.queued;
      outputs_summary = "requeued during queue startup reconciliation";
      updated_by = q.request.actor_id;
    }
    else r

abbrev pub count : Verdict → Counts → Counts
count cancels c = record c { cancelled_count = c.cancelled_count + 1 }
count completes c = record c { completed_count = c.completed_count + 1 }
count buries c = record c { dead_letter_count = c.dead_letter_count + 1 }
count requeues c = record c { requeued = c.requeued + 1 }

abbrev pub total : Counts → ℕ
total c = c.requeued + c.cancelled_count + c.dead_letter_count + c.completed_count

-- The loop over the stale rows: `_load_run` raises where a row has no run.
unfoldable pub reconcile_rows :
    ℕ
    → List QueueItem
    → List Run
    → Counts
    → Result StoreError (Counts × (List QueueItem × List Run))
reconcile_rows now [] runs c = ok (c, ([], runs))
reconcile_rows now (q ∷ qs) runs c =
    let stays = reconcile_rows now qs runs c in
    if is_stale now q
    then (do
      run ← load_run q.request.project_id q.request.run_id runs
      let v = verdict run q
      r ← modify no_row (is_run q.request.project_id q.request.run_id) (settled_run v q) runs
      rest ← reconcile_rows now qs r.1 (count v c)
      ok (rest.0, (settled_item now v q ∷ rest.1.0, rest.1.1)))
    else (stays >>= λ rest. ok (rest.0, (q ∷ rest.1.0, rest.1.1)))

unfoldable pub reconcile_stale_queue_items :
    ℕ → List QueueItem → List Run → Result StoreError (Counts × (List QueueItem × List Run))
reconcile_stale_queue_items now items runs =
    reconcile_rows now items runs
      (record { requeued = 0; cancelled_count = 0; dead_letter_count = 0; completed_count = 0 })
