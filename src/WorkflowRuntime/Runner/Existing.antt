-- ===== src/WorkflowRuntime/Runner/Existing.antt =====
-- A run that is there is brought to an end.
use aegis_flow.Base.{
  String, true, false, some, ◌≡◌, refl, sym, ap, ◌∙◌, subst, inl, inr, arith, Bool-cases,
  Result-cases, ok, eq_iff,
}
use aegis_flow.Base.Dicts.{Dict}
use aegis_flow.Base.Rows.{find_row, find_row_sound}
use aegis_flow.WorkflowRuntime.Runs.{running, Run, is_run}
use aegis_flow.WorkflowRuntime.Worker.{Db, is_ended, is_cancelled_run, record_event}
use aegis_flow.WorkflowRuntime.Runner.{
  RunRequest, Ran, validate_version, same_version, is_cancel_requested, status_update,
  cancelled_update, write_run, execute_run, run_existing,
}
use aegis_flow.WorkflowRuntime.Runner.Ends.{
  Ended, HasRun, write-Ended, write_and_record-Ended, finish_run-Ended,
}

module _ (redact : String → String) (sanitize : Dict String → Dict String)
    (graph : Db → Ran × Db) where
  -- The graph does not delete the run.
  abbrev pub KeepsRun : String → String → Type 0
  KeepsRun project_id run_id =
      (db : Db) → HasRun project_id run_id db → HasRun project_id run_id (graph db).1

  start-Ended :
      (request : RunRequest) (run_record : Run) (db : Db)
      → validate_version request.version request.project_id ≡ ok tt
      → same_version request.version run_record ≡ true
      → is_cancelled_run run_record.status ≡ false
      → is_cancel_requested run_record.status ≡ false
      → Ended request.project_id run_record.run_id
          (run_existing redact sanitize graph request run_record db)
  unfolding run_existing execute_run
  start-Ended request run_record db valid same c q =
      let u = status_update request run_record.run_id running in
      let started = write_run redact sanitize u db in
      elim (Result-cases started.0) [
        | inr (f, w) ↦ simp (valid, same, c, q, w, run_existing) (λ run h. absurd (cc h))
        | inl (run, w) ↦
            let (there, _) = write-Ended redact sanitize u db run w in
            let (m, own) =
              find_row_sound (is_run request.project_id run_record.run_id) started.1.runs run
                there in
            let same_id : run_record.run_id ≡ run.run_id =
              sym ((eq_iff run.run_id run_record.run_id).0 (ground (arith, own))) in
            let done = graph (record_event "run.started" started.1) in
            simp (valid, same, c, q, w, run_existing)
              (subst
                (λ i.
                  Ended request.project_id run_record.run_id
                    (execute_run redact sanitize graph request i started.1))
                same_id (finish_run-Ended redact sanitize request run_record.run_id done.0 done.1))
      ]

  -- Where the runner returns a run that is there, the run has ended.
  pub run_existing-Ended :
      (request : RunRequest) (run_record : Run) (db : Db)
      → find_row (is_run request.project_id run_record.run_id) db.runs ≡ some run_record
      → Ended request.project_id run_record.run_id
          (run_existing redact sanitize graph request run_record db)
  unfolding run_existing
  run_existing-Ended request run_record db found =
      elim (Result-cases (validate_version request.version request.project_id)) [
        | inr (f, e) ↦ simp (e, run_existing) (λ run h. absurd (cc h))
        | inl (_, valid) ↦ elim (Bool-cases (same_version request.version run_record)) [
          | inr same ↦ simp (valid, same, run_existing) (λ run h. absurd (cc h))
          | inl same ↦ elim (Bool-cases (is_cancelled_run run_record.status)) [
            | inl c ↦
                simp (valid, same, c, run_existing)
                  (λ run h.
                    let e : run_record ≡ run = cc in
                    (
                      found ∙ ap some e,
                      subst (λ (x : Run). is_ended x.status ≡ true) e (ground (arith, c)),
                    ))
            | inr c ↦ elim (Bool-cases (is_cancel_requested run_record.status)) [
              | inl q ↦
                  simp (valid, same, c, q, run_existing)
                    (write_and_record-Ended redact sanitize
                      (cancelled_update request run_record.run_id) "run.cancelled" db refl)
              | inr q ↦ start-Ended request run_record db valid same c q
            ]
          ]
        ]
      ]
