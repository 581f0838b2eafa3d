-- ===== src/WorkflowRuntime/Runner/Work.antt =====
-- The worker of the queue with the runner of the runs.
use aegis_flow.Base.{
  String, Bool, true, some, ◌≡◌, refl, sym, ap, subst, inl, inr, arith, Bool-cases, Option-cases,
  Result-cases, Result, ok, err, if◌then◌else◌, eq_iff,
}
use aegis_flow.Base.Dicts.{Dict}
use aegis_flow.Base.Rows.{find_row, find_row_sound}
use aegis_flow.WorkflowRuntime.Runs.{RunStatus, Run, is_run}
use aegis_flow.WorkflowRuntime.Queue.{
  QueueStatus, completed, cancelled, QueueItem, complete_queue_item,
}
use aegis_flow.WorkflowRuntime.Worker.{
  Db, Failure, is_ended, is_cancelled_run, complete_row, run_row, execute_queue_item,
}
use aegis_flow.WorkflowRuntime.Runner.{WorkflowVersion, RunRequest, Ran, run_existing}
use aegis_flow.WorkflowRuntime.Runner.Existing.{run_existing-Ended}

-- The request that the worker builds of its row, the run and the version.
abbrev pub request_of : (QueueItem → WorkflowVersion) → QueueItem → Run → RunRequest
request_of version q run = record {
  project_id = q.request.project_id;
  actor_id = q.request.actor_id;
  version = version q;
  run_id = run.run_id;
  trace_id = run.trace_id;
}

abbrev pub status_of : Result Failure Run → Result Failure RunStatus
status_of (ok run) = ok run.status
status_of (err f) = err f

module _ (redact : String → String) (sanitize : Dict String → Dict String)
    (has_version : QueueItem → Bool) (version : QueueItem → WorkflowVersion)
    (graph : QueueItem → Db → Ran × Db) where
  abbrev pub runner : QueueItem → Run → Db → Result Failure RunStatus × Db
  runner q run db =
      let done = run_existing redact sanitize (graph q) (request_of version q run) run db in
      (status_of done.0, done.1)

  -- The row of the run of `q` has a last status.
  abbrev pub RunEnded : QueueItem → Db → Type 0
  RunEnded q db =
      (run : Run) × ((find_row (is_run q.request.project_id q.request.run_id) db.runs ≡ some run)
        × (is_ended run.status ≡ true))

  complete_row-runs :
      (q : QueueItem) (status : QueueStatus) (db : Db)
      → (complete_row redact sanitize has_version runner q status db).1.runs ≡ db.runs
  unfolding complete_row
  complete_row-runs q status db = elim (Result-cases (complete_queue_item q.id status db.items)) [
    | inl (r, e) ↦ simp (e, complete_row) refl
    | inr (f, e) ↦ simp (e, complete_row) refl
  ]

  run_row-completes :
      (q : QueueItem) (run : Run) (db : Db) (status : RunStatus)
      → (runner q run db).0 ≡ ok status
      → run_row redact sanitize has_version runner q run db
        ≡ complete_row redact sanitize has_version runner q
            (if is_cancelled_run status then cancelled else completed)
            (runner q run db).1
  unfolding run_row
  run_row-completes q run db status h = ground (arith, h)

  run_row-fails :
      (q : QueueItem) (run : Run) (db : Db) (f : Failure)
      → (runner q run db).0 ≡ err f
      → (run_row redact sanitize has_version runner q run db).0 ≡ err f
  unfolding run_row
  run_row-fails q run db f h = ground (arith, h)

  run_row-RunEnded :
      (q : QueueItem) (run : Run) (db : Db) (item : QueueItem)
      → find_row (is_run q.request.project_id q.request.run_id) db.runs ≡ some run
      → (run_row redact sanitize has_version runner q run db).0 ≡ ok item
      → RunEnded q (run_row redact sanitize has_version runner q run db).1
  unfolding run_row
  run_row-RunEnded q run db item found h =
      let (m, own) =
        find_row_sound (is_run q.request.project_id q.request.run_id) db.runs run found in
      let same : q.request.run_id ≡ run.run_id =
        sym ((eq_iff run.run_id q.request.run_id).0 (ground (arith, own))) in
      let there =
        subst (λ i. find_row (is_run q.request.project_id i) db.runs ≡ some run) same found in
      let request = request_of version q run in
      let done = run_existing redact sanitize (graph q) request run db in
      let ended = run_existing-Ended redact sanitize (graph q) request run db there in
      elim (Result-cases done.0) [
        | inr (f, e) ↦ absurd (ground (arith, run_row-fails q run db f (ap status_of e), h))
        | inl (last, e) ↦
            let (row, status) = ended last e in
            let final = if is_cancelled_run last.status then cancelled else completed in
            let completes = run_row-completes q run db last.status (ap status_of e) in
            subst (λ (r : Result Failure QueueItem × Db). RunEnded q r.1) (sym completes)
              (
                last,
                (
                  rw (complete_row-runs q final done.1) (
                      subst (λ i. find_row (is_run q.request.project_id i) done.1.runs ≡ some last)
                        (sym same) row),
                  status,
                ),
              )
      ]

  -- Where the worker completes a row of the queue with the runner of the runs, the run of the row has ended: it
  -- is success, failed, pending_approval or cancelled, whatever its graph did.
  pub execute_queue_item_ends :
      (q : QueueItem) (db : Db) (item : QueueItem)
      → (execute_queue_item redact sanitize has_version runner q db).0 ≡ ok item
      → RunEnded q (execute_queue_item redact sanitize has_version runner q db).1
  unfolding execute_queue_item
  execute_queue_item_ends q db item h = elim (Bool-cases (has_version q)) [
    | inr n ↦ absurd (ground (arith, n, h))
    | inl v ↦
        elim (Option-cases (find_row (is_run q.request.project_id q.request.run_id) db.runs)) [
          | inl e ↦ absurd (ground (arith, v, e, h))
          | inr (run, e) ↦ elim (Bool-cases (is_cancelled_run run.status)) [
            | inl c ↦
                simp (v, e, c, execute_queue_item)
                  (run, (rw (complete_row-runs q cancelled db) e, ground (arith, c)))
            | inr c ↦
                simp (v, e, c, execute_queue_item)
                  (run_row-RunEnded q run db item e (ground (arith, v, e, c, h)))
          ]
        ]
  ]
