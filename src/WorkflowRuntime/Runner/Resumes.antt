-- ===== src/WorkflowRuntime/Runner/Resumes.antt =====
-- Only a run that waits for an approval is resumed, and it ends or waits again.
use aegis_flow.Base.{
  String, true, Option, none, some, List, ◌≡◌, refl, ◌∙◌, inl, inr, arith, Bool-cases, Option-cases,
  Result-cases, ok, >>=-eq-ok, ltb,
}
use aegis_flow.Base.Dicts.{Dict}
use aegis_flow.Base.Rows.{find_row}
use aegis_flow.Workflows.Types.{NodeDefinition}
use aegis_flow.WorkflowRuntime.Runs.{RunStatus, pending_approval, Run, is_run, is_pending}
use aegis_flow.WorkflowRuntime.Worker.{Db}
use aegis_flow.WorkflowRuntime.Runner.{
  RunRequest, PendingApproval, Checkpoint, Ran, answers, interrupts, pends, stops, raises,
  validate_version, same_version, should_stop, pending_update, success_update, failure_update,
  cancelled_update, write_run, finish_resumed, continue_run, resumable, resume,
}
use aegis_flow.WorkflowRuntime.Runner.Ends.{Ended, write_run-Ended, write_and_record-Ended}

module _ (redact : String → String) (sanitize : Dict String → Dict String) where
  finish_resumed-Ended :
      (request : RunRequest) (ran : Ran) (db : Db)
      → Ended request.project_id request.run_id
          (finish_resumed redact sanitize request request.run_id ran db)
  unfolding finish_resumed
  finish_resumed-Ended request (interrupts pending) db =
      let u = pending_update request request.run_id pending in
      elim (Result-cases (write_run redact sanitize u db).0) [
        | inr (f, w) ↦
            simp (w, finish_resumed)
              (write_run-Ended redact sanitize (failure_update request request.run_id f)
                (write_run redact sanitize u db).1 refl)
        | inl (r, w) ↦
            simp (w, finish_resumed)
              (λ run h. write_run-Ended redact sanitize u db refl run (w ∙ h))
      ]
  finish_resumed-Ended request (answers summary) db =
      let u = success_update request request.run_id summary in
      elim (Bool-cases (should_stop request.project_id request.run_id db.runs)) [
        | inl t ↦
            simp (t, finish_resumed)
              (write_and_record-Ended redact sanitize (cancelled_update request request.run_id)
                "run.cancelled" db refl)
        | inr t ↦ elim (Result-cases (write_run redact sanitize u db).0) [
          | inr (f, w) ↦
              simp (t, w, finish_resumed)
                (write_run-Ended redact sanitize (failure_update request request.run_id f)
                  (write_run redact sanitize u db).1 refl)
          | inl (r, w) ↦
              simp (t, w, finish_resumed)
                (λ run h. write_run-Ended redact sanitize u db refl run (w ∙ h))
        ]
      ]
  finish_resumed-Ended request (pends pending) db =
      write_run-Ended redact sanitize (pending_update request request.run_id pending) db refl
  finish_resumed-Ended request stops db =
      write_and_record-Ended redact sanitize (cancelled_update request request.run_id)
        "run.cancelled" db refl
  finish_resumed-Ended request (raises none f) db =
      write_run-Ended redact sanitize (failure_update request request.run_id f) db refl
  finish_resumed-Ended request (raises (some code) f) db = elim (Bool-cases (ltb code 500)) [
    | inl t ↦ simp (t, finish_resumed) (λ run h. absurd (cc h))
    | inr t ↦
        simp (t, finish_resumed)
          (write_run-Ended redact sanitize (failure_update request request.run_id f) db refl)
  ]

is_pending_sound : (s : RunStatus) → is_pending s ≡ true → s ≡ pending_approval
is_pending_sound s h = ground (arith, h)

module _ (redact : String → String) (sanitize : Dict String → Dict String)
    (parse_pending : Dict String → Option PendingApproval) (resume_graph : Db → Ran × Db)
    (resume_node : NodeDefinition → Checkpoint → PendingApproval → Db → Option Ran × Db)
    (graph_from : List String → Db → Ran × Db) (final_summary : Checkpoint → String)
    (request : RunRequest) (checkpoints : List Checkpoint) where
  -- The run waits for an approval, under the version of the request, which is published in its project.
  abbrev pub Waits : List Run → Run → Type 0
  Waits runs r =
      (find_row (is_run request.project_id request.run_id) runs ≡ some r)
      × ((r.status ≡ pending_approval)
          × ((same_version request.version r ≡ true)
              × (validate_version request.version request.project_id ≡ ok tt)))

  resumable-Waits :
      (runs : List Run) (x : NodeDefinition × (PendingApproval × Checkpoint))
      → resumable redact sanitize parse_pending resume_graph resume_node graph_from final_summary
          request checkpoints runs
        ≡ ok x
      → (r : Run) × Waits runs r
  unfolding resumable
  resumable-Waits runs x h =
      let (_, valid, k) =
        >>=-eq-ok (validate_version request.version request.project_id) _ {b = x} h in
      elim (Option-cases (find_row (is_run request.project_id request.run_id) runs)) [
        | inl e ↦ absurd (ground (arith, e, k))
        | inr (r, e) ↦ elim (Bool-cases (is_pending r.status)) [
          | inr p ↦ absurd (ground (arith, e, p, k))
          | inl p ↦ elim (Bool-cases (same_version request.version r)) [
            | inr s ↦ absurd (ground (arith, e, p, s, k))
            | inl s ↦ (r, (e, (is_pending_sound r.status p, (s, valid))))
          ]
        ]
      ]

  -- A resumption that returns found the run waiting for an approval, under the version of the request,
  -- published in its project; the run it returns is then the row of the table, which is success, failed,
  -- pending_approval or cancelled.
  pub resume_ends :
      (db : Db) (run : Run)
      → (resume redact sanitize parse_pending resume_graph resume_node graph_from final_summary
          request checkpoints db).0
        ≡ ok run
      → ((r : Run) × Waits db.runs r)
        × Ended request.project_id request.run_id (
            resume redact sanitize parse_pending resume_graph resume_node graph_from final_summary
              request checkpoints db)
  unfolding resume
  resume_ends db run h =
      elim (Result-cases (
        resumable redact sanitize parse_pending resume_graph resume_node graph_from final_summary
          request checkpoints db.runs)) [
            | inr (f, e) ↦ absurd (ground (arith, e, h))
            | inl ((node, (pending, checkpoint)), e) ↦
                let done =
                  continue_run redact sanitize parse_pending resume_graph resume_node graph_from
                    final_summary request.version.definition node pending checkpoint db in
                (
                  resumable-Waits db.runs (node, (pending, checkpoint)) e,
                  simp (e, resume) (finish_resumed-Ended redact sanitize request done.0 done.1),
                )
          ]
