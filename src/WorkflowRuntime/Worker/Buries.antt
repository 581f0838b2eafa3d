-- ===== src/WorkflowRuntime/Worker/Buries.antt =====
-- What becomes of the run of a row that is a dead letter.
use aegis_flow.Base.{
  ℕ, String, Bool, true, some, List, Result, ok, ◌≡◌, refl, sym, subst, inl, inr, arith, Bool-cases,
  Option-cases, >>=-eq-ok,
}
use aegis_flow.Base.Dicts.{Dict}
use aegis_flow.Base.Rows.{find_row, modify-row, find_row-modify}
use aegis_flow.WorkflowRuntime.Runs.{RunStatus, Run, no_row, is_run, update_run, updated}
use aegis_flow.WorkflowRuntime.Queue.{QueueItem, dead_letter, fail_queue_item}
use aegis_flow.WorkflowRuntime.Worker.{
  Db, Failure, is_ended, record_event, next_backoff_seconds, mark_run_failed, failed_update,
  handle_queue_failure,
}

module _ (redact : String → String) (sanitize : Dict String → Dict String)
    (has_version : QueueItem → Bool)
    (run_existing : QueueItem → Run → Db → Result Failure RunStatus × Db) where
  mark_run_failed_ends :
      (q : QueueItem) (f : Failure) (runs after : List Run) (run : Run)
      → mark_run_failed redact sanitize has_version run_existing q f runs ≡ ok after
      → find_row (is_run q.request.project_id q.request.run_id) after ≡ some run
      → is_ended run.status ≡ true
  unfolding mark_run_failed update_run
  mark_run_failed_ends q f runs after run h e =
      elim (Option-cases (find_row (is_run q.request.project_id q.request.run_id) runs)) [
        | inl n ↦ absurd (ground arith)
        | inr (old, n) ↦ elim (Bool-cases (is_ended old.status)) [
          | inl t ↦
              let same : runs ≡ after = ground arith in
              let found : run ≡ old = ground arith in
              subst (λ x. is_ended x.status ≡ true) (sym found) t
          | inr t ↦
              let (r, m, k) =
                >>=-eq-ok {B = List Run} (update_run redact sanitize (failed_update q f) runs)
                  (λ r. ok r.1) {b = after} (ground arith) in
              let same : r.1 ≡ after = ground (arith, k) in
              let test = is_run q.request.project_id q.request.run_id in
              let written = updated redact sanitize (failed_update q f) in
              let found = find_row-modify no_row test written runs r.0 r.1 (λ x. refl) m in
              let (b, (i, (u, (row, o)))) = modify-row no_row test written runs r.0 r.1 m in
              let one : run ≡ r.0 = ground (arith, found, same) in
              subst (λ x. is_ended x.status ≡ true) (sym one) (rw row refl)
        ]
      ]

  -- Where handling a failure makes the row a dead letter, the run of the row, if there is one, has ended or
  -- waits for an approval afterwards: it is not left queued, running or asked to stop.
  pub handle_queue_failure_ends :
      (base now : ℕ) (q item : QueueItem) (items : List QueueItem) (f : Failure) (db after : Db)
      (run : Run)
      → fail_queue_item redact q.id f.class_name f.message
          (next_backoff_seconds base q)
          now
          db.items
        ≡ ok (item, items)
      → item.status ≡ dead_letter
      → handle_queue_failure redact sanitize has_version run_existing base now q f db ≡ ok after
      → find_row (is_run q.request.project_id q.request.run_id) after.runs ≡ some run
      → is_ended run.status ≡ true
  unfolding handle_queue_failure
  handle_queue_failure_ends base now q item items f db after run failed buried h e =
      let (runs, p, n) =
        >>=-eq-ok {B = Db} (mark_run_failed redact sanitize has_version run_existing q f db.runs)
          (λ runs.
            ok (record_event "run.worker.dead_letter" (record db { items = items; runs = runs })))
          {b = after} (rw (failed, handle_queue_failure, buried) at h) in
      let same : runs ≡ after.runs = ground (arith, n) in
      mark_run_failed_ends q f db.runs after.runs run
        (subst (λ x. mark_run_failed redact sanitize has_version run_existing q f db.runs ≡ ok x)
          same p)
        e
