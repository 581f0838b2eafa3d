-- ===== src/WorkflowRuntime/Runner/Cancels.antt =====
-- A request to cancel a run that is running is honoured where the graph does not stop at an approval.
use aegis_flow.Base.{
  String, Bool, true, false, ◌≡◌, refl, inl, inr, arith, Option-cases, Result, ok,
}
use aegis_flow.Base.Dicts.{Dict}
use aegis_flow.Base.Rows.{find_row}
use aegis_flow.WorkflowRuntime.Runs.{cancelled, Run, is_run}
use aegis_flow.WorkflowRuntime.Worker.{Db, Failure, record_event}
use aegis_flow.WorkflowRuntime.Runner.{
  RunRequest, Ran, answers, interrupts, pends, stops, raises, should_stop, cancelled_update,
  write_and_record, recover, finish_run, execute_run,
}
use aegis_flow.WorkflowRuntime.Runner.Ends.{HasRun, write_run-returns, write-Ended}

-- The graph stops for an approval.
abbrev pub waits : Ran → Bool
waits (interrupts _) = true
waits (pends _) = true
waits _ = false

should_stop-HasRun :
    (project_id run_id : String) (db : Db)
    → should_stop project_id run_id db.runs ≡ true
    → HasRun project_id run_id db
unfolding should_stop
should_stop-HasRun project_id run_id db h =
    elim (Option-cases (find_row (is_run project_id run_id) db.runs)) [
      | inl e ↦ absurd (ground (arith, e, h))
      | inr (run, e) ↦ (run, e)
    ]

module _ (redact : String → String) (sanitize : Dict String → Dict String) where
  abbrev CancelledRun : Result Failure Run × Db → Type 0
  CancelledRun r = (run : Run) × ((r.0 ≡ ok run) × (run.status ≡ cancelled))

  write-CancelledRun :
      (request : RunRequest) (run_id : String) (db : Db)
      → HasRun request.project_id run_id db
      → CancelledRun
          (write_and_record redact sanitize (cancelled_update request run_id) "run.cancelled" db)
  unfolding write_and_record
  write-CancelledRun request run_id db has =
      let u = cancelled_update request run_id in
      let (run, w) = write_run-returns redact sanitize u db has in
      let (_, status) = write-Ended redact sanitize u db run w in
      simp (w, write_and_record) (run, (refl, status))

  finish-CancelledRun :
      (request : RunRequest) (run_id : String) (ran : Ran) (db : Db)
      → waits ran ≡ false
      → should_stop request.project_id run_id db.runs ≡ true
      → CancelledRun (finish_run redact sanitize request run_id ran db)
  unfolding finish_run recover
  finish-CancelledRun request run_id (interrupts pending) db n h = absurd (ground (arith, n))
  finish-CancelledRun request run_id (pends pending) db n h = absurd (ground (arith, n))
  finish-CancelledRun request run_id (answers summary) db n h =
      simp (h, finish_run)
        (write-CancelledRun request run_id db (should_stop-HasRun request.project_id run_id db h))
  finish-CancelledRun request run_id stops db n h =
      write-CancelledRun request run_id db (should_stop-HasRun request.project_id run_id db h)
  finish-CancelledRun request run_id (raises code f) db n h =
      simp (h, recover)
        (write-CancelledRun request run_id db (should_stop-HasRun request.project_id run_id db h))

  -- Where the row asks to stop, or is cancelled, when the graph is done, and the graph does not wait for an
  -- approval, the runner returns the run as cancelled: not as a success, and not as a failure.
  pub execute_run_cancels :
      (graph : Db → Ran × Db) (request : RunRequest) (run_id : String) (db : Db)
      → waits (graph (record_event "run.started" db)).0 ≡ false
      → should_stop request.project_id run_id (graph (record_event "run.started" db)).1.runs ≡ true
      → (run : Run) × (((execute_run redact sanitize graph request run_id db).0 ≡ ok run)
          × (run.status ≡ cancelled))
  unfolding execute_run
  execute_run_cancels graph request run_id db n h =
      finish-CancelledRun request run_id (graph (record_event "run.started" db)).0
        (graph (record_event "run.started" db)).1 n h
