-- ===== src/WorkflowRuntime/Runner/Ends.antt =====
-- A run that the runner returns from has ended, or waits for an approval, in its row.
use aegis_flow.Base.{
  String, true, some, ◌≡◌, refl, sym, ap, ◌∙◌, subst, inl, inr, arith, Bool-cases, Result-cases, ok,
}
use aegis_flow.Base.Dicts.{Dict}
use aegis_flow.Base.Rows.{
  find_row, find_row_sound, modify, modify-row, modify-total, find_row-modify,
}
use aegis_flow.WorkflowRuntime.Runs.{Run, RunUpdate, no_row, is_run, updated, update_run}
use aegis_flow.WorkflowRuntime.Worker.{Db, Failure, is_ended}
use aegis_flow.WorkflowRuntime.Runner.{
  RunRequest, Ran, answers, interrupts, pends, stops, raises, should_stop, ResultOfRun,
  pending_update, success_update, failure_update, cancelled_update, write_run, write_and_record,
  recover, attempt, finish_run,
}

-- The run that is returned is the row of the table, and its status is a last one.
abbrev pub Ended : String → String → ResultOfRun → Type 0
Ended project_id run_id r =
    (run : Run)
    → r.0 ≡ ok run
    → (find_row (is_run project_id run_id) r.1.runs ≡ some run) × (is_ended run.status ≡ true)

-- The row is there.
abbrev pub HasRun : String → String → Db → Type 0
HasRun project_id run_id db = (run : Run) × (find_row (is_run project_id run_id) db.runs ≡ some run)

module _ (redact : String → String) (sanitize : Dict String → Dict String) where
  -- A write that returns leaves the row with its status.
  pub write-Ended :
      (u : RunUpdate) (db : Db) (run : Run)
      → (write_run redact sanitize u db).0 ≡ ok run
      → (find_row (is_run u.project_id u.run_id) (write_run redact sanitize u db).1.runs ≡ some run)
        × (run.status ≡ u.status)
  unfolding write_run update_run
  write-Ended u db run h =
      elim (Result-cases
        (modify no_row (is_run u.project_id u.run_id) (updated redact sanitize u) db.runs)) [
          | inr (e, m) ↦ absurd (ground (arith, m, h))
          | inl ((r, runs), m) ↦
              let same : r ≡ run = ground (arith, m, h) in
              let found =
                find_row-modify no_row (is_run u.project_id u.run_id) (updated redact sanitize u)
                  db.runs r runs (λ x. refl) m in
              let (b, (_, (_, (row, _)))) =
                modify-row no_row (is_run u.project_id u.run_id) (updated redact sanitize u) db.runs
                  r runs m in
              (
                simp (m, write_run, update_run) (found ∙ ap some same),
                ap (λ (x : Run). x.status) (sym same ∙ row),
              )
        ]

  pub write_run-Ended :
      (u : RunUpdate) (db : Db)
      → is_ended u.status ≡ true
      → Ended u.project_id u.run_id (write_run redact sanitize u db)
  write_run-Ended u db e run h =
      let (found, status) = write-Ended u db run h in (found, rw status e)

  pub write_and_record-Ended :
      (u : RunUpdate) (event_type : String) (db : Db)
      → is_ended u.status ≡ true
      → Ended u.project_id u.run_id (write_and_record redact sanitize u event_type db)
  unfolding write_and_record
  write_and_record-Ended u event_type db e run h =
      elim (Result-cases (write_run redact sanitize u db).0) [
        | inr (f, w) ↦ absurd (ground (arith, w, h))
        | inl (r, w) ↦
            let same : r ≡ run = ground (arith, w, h) in
            let (found, status) = write_run-Ended u db e r w in
            (
              simp (w, write_and_record) (found ∙ ap some same),
              subst (λ (x : Run). is_ended x.status ≡ true) same status,
            )
      ]

  recover-Ended :
      (request : RunRequest) (run_id : String) (f : Failure) (db : Db)
      → Ended request.project_id run_id (recover redact sanitize request run_id f db)
  unfolding recover
  recover-Ended request run_id f db =
      elim (Bool-cases (should_stop request.project_id run_id db.runs)) [
        | inl t ↦
            simp (t, recover)
              (write_and_record-Ended (cancelled_update request run_id) "run.cancelled" db refl)
        | inr t ↦
            simp (t, recover)
              (write_and_record-Ended (failure_update request run_id f) "run.failed" db refl)
      ]

  attempt-Ended :
      (request : RunRequest) (run_id : String) (u : RunUpdate) (event_type : String) (db : Db)
      → u.project_id ≡ request.project_id
      → u.run_id ≡ run_id
      → is_ended u.status ≡ true
      → Ended request.project_id run_id (attempt redact sanitize request run_id u event_type db)
  unfolding attempt
  attempt-Ended request run_id u event_type db p i e =
      elim (Result-cases (write_and_record redact sanitize u event_type db).0) [
        | inr (f, w) ↦
            simp (w, attempt)
              (recover-Ended request run_id f (write_and_record redact sanitize u event_type db).1)
        | inl (r, w) ↦
            simp (w, attempt)
              (λ run h.
                let same : r ≡ run = cc in
                let (found, status) = write_and_record-Ended u event_type db e r w in
                (
                  subst
                      (λ x.
                        find_row (is_run x run_id)
                          (write_and_record redact sanitize u event_type db).1.runs
                        ≡ some run)
                      p
                      (subst
                        (λ x.
                          find_row (is_run u.project_id x)
                            (write_and_record redact sanitize u event_type db).1.runs
                          ≡ some run)
                        i (found ∙ ap some same)),
                  subst (λ (x : Run). is_ended x.status ≡ true) same status,
                ))
      ]

  pub finish_run-Ended :
      (request : RunRequest) (run_id : String) (ran : Ran) (db : Db)
      → Ended request.project_id run_id (finish_run redact sanitize request run_id ran db)
  unfolding finish_run
  finish_run-Ended request run_id (interrupts pending) db =
      attempt-Ended request run_id (pending_update request run_id pending) "run.pending_approval" db
        refl refl refl
  finish_run-Ended request run_id (answers summary) db =
      elim (Bool-cases (should_stop request.project_id run_id db.runs)) [
        | inl t ↦
            simp (t, finish_run)
              (write_and_record-Ended (cancelled_update request run_id) "run.cancelled" db refl)
        | inr t ↦
            simp (t, finish_run)
              (attempt-Ended request run_id (success_update request run_id summary) "run.succeeded"
                db refl refl refl)
      ]
  finish_run-Ended request run_id (pends pending) db =
      write_and_record-Ended (pending_update request run_id pending) "run.pending_approval" db refl
  finish_run-Ended request run_id stops db =
      write_and_record-Ended (cancelled_update request run_id) "run.cancelled" db refl
  finish_run-Ended request run_id (raises code f) db = recover-Ended request run_id f db

  pub write_run-returns :
      (u : RunUpdate) (db : Db)
      → HasRun u.project_id u.run_id db
      → (run : Run) × ((write_run redact sanitize u db).0 ≡ ok run)
  unfolding write_run update_run
  write_run-returns u db (r, found) =
      let (m, q) = find_row_sound (is_run u.project_id u.run_id) db.runs r found in
      let ((w, runs), h) =
        modify-total no_row (is_run u.project_id u.run_id) (updated redact sanitize u) db.runs r m
          q in
      (w, simp (h, write_run, update_run) refl)

  pub write_and_record-returns :
      (u : RunUpdate) (event_type : String) (db : Db)
      → HasRun u.project_id u.run_id db
      → (run : Run) × ((write_and_record redact sanitize u event_type db).0 ≡ ok run)
  unfolding write_and_record
  write_and_record-returns u event_type db has =
      let (run, h) = write_run-returns u db has in (run, simp (h, write_and_record) refl)

  attempt-returns :
      (request : RunRequest) (run_id : String) (u : RunUpdate) (event_type : String) (db : Db)
      → HasRun u.project_id u.run_id db
      → (run : Run) × ((attempt redact sanitize request run_id u event_type db).0 ≡ ok run)
  unfolding attempt
  attempt-returns request run_id u event_type db has =
      let (run, h) = write_and_record-returns u event_type db has in (run, simp (h, attempt) refl)

  recover-returns :
      (request : RunRequest) (run_id : String) (f : Failure) (db : Db)
      → HasRun request.project_id run_id db
      → (run : Run) × ((recover redact sanitize request run_id f db).0 ≡ ok run)
  unfolding recover
  recover-returns request run_id f db has =
      elim (Bool-cases (should_stop request.project_id run_id db.runs)) [
        | inl t ↦
            simp (t, recover)
              (write_and_record-returns (cancelled_update request run_id) "run.cancelled" db has)
        | inr t ↦
            simp (t, recover)
              (write_and_record-returns (failure_update request run_id f) "run.failed" db has)
      ]

  pub finish_run-returns :
      (request : RunRequest) (run_id : String) (ran : Ran) (db : Db)
      → HasRun request.project_id run_id db
      → (run : Run) × ((finish_run redact sanitize request run_id ran db).0 ≡ ok run)
  unfolding finish_run
  finish_run-returns request run_id (interrupts pending) db has =
      attempt-returns request run_id (pending_update request run_id pending) "run.pending_approval"
        db has
  finish_run-returns request run_id (answers summary) db has =
      elim (Bool-cases (should_stop request.project_id run_id db.runs)) [
        | inl t ↦
            simp (t, finish_run)
              (write_and_record-returns (cancelled_update request run_id) "run.cancelled" db has)
        | inr t ↦
            simp (t, finish_run)
              (attempt-returns request run_id (success_update request run_id summary)
                "run.succeeded" db has)
      ]
  finish_run-returns request run_id (pends pending) db has =
      write_and_record-returns (pending_update request run_id pending) "run.pending_approval" db has
  finish_run-returns request run_id stops db has =
      write_and_record-returns (cancelled_update request run_id) "run.cancelled" db has
  finish_run-returns request run_id (raises code f) db has = recover-returns request run_id f db has
