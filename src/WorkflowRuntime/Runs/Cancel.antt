-- ===== src/WorkflowRuntime/Runs/Cancel.antt =====
-- Which runs can be cancelled, and what a cancellation makes of them.
use aegis_flow.Base.{
  String, true, false, some, List, ok, ◌≡◌, refl, sym, subst, ap, inl, inr, arith, Bool-cases,
  Option-cases,
}
use aegis_flow.Base.Rows.{
  find_row, modify, find_row_sound, modify-row, modify-total, find_row-modify,
}
use aegis_flow.WorkflowRuntime.Runs.{
  RunStatus, queued, running, cancel_requested, pending_approval, cancelled, Run, no_row,
  is_pending, is_queued, is_cancellable, is_run, load_run, stopped, cancel_pending_run,
  request_cancel_run,
}

-- The status that a request to cancel gives, where it is granted.
pub data Cancels : RunStatus → RunStatus → Type 0 where
  before_start : Cancels queued cancelled
  while_waiting : Cancels pending_approval cancelled
  while_running : Cancels running cancel_requested
  once_more : Cancels cancel_requested cancel_requested

stop-row :
    (project_id run_id actor_id summary : String) (to : RunStatus) (runs after : List Run)
    (run : Run)
    → modify no_row (is_run project_id run_id) (stopped to summary actor_id) runs ≡ ok (run, after)
    → (find_row (is_run project_id run_id) after ≡ some run) × (run.status ≡ to)
stop-row project_id run_id actor_id summary to runs after run h =
    let (b, (i, (t, (row, o)))) =
      modify-row no_row (is_run project_id run_id) (stopped to summary actor_id) runs run after h in
    (
      find_row-modify no_row (is_run project_id run_id) (stopped to summary actor_id) runs run after
          (λ x. refl) h,
      ap (λ x. x.status) row,
    )

-- A request to cancel that succeeds found the run queued, waiting for an approval, running or already
-- asked to stop; the run is then found in the table cancelled in the first two cases, and asked to
-- stop in the others.
pub request_cancel_run_lem :
    (project_id run_id actor_id : String) (runs after : List Run) (run : Run)
    → request_cancel_run project_id run_id actor_id runs ≡ ok (run, after)
    → (old : Run) × ((find_row (is_run project_id run_id) runs ≡ some old)
        × (Cancels old.status run.status × (find_row (is_run project_id run_id) after ≡ some run)))
unfolding request_cancel_run cancel_pending_run load_run
request_cancel_run_lem project_id run_id actor_id runs after run h =
    elim (Option-cases (find_row (is_run project_id run_id) runs)) [
      | inl e ↦ absurd (ground arith)
      | inr (old, e) ↦ (old, (e, by_status old e))
    ]
  where
    by_status :
        (old : Run)
        → find_row (is_run project_id run_id) runs ≡ some old
        → Cancels old.status run.status × (find_row (is_run project_id run_id) after ≡ some run)
    by_status old e =
        elim old.status
            as (λ s.
              old.status ≡ s
              → Cancels s run.status × (find_row (is_run project_id run_id) after ≡ some run)) [
                | queued ↦ λ q.
                    let (f, s) =
                      stop-row project_id run_id actor_id "cancelled before runner started"
                        cancelled runs after run (ground arith) in
                    (subst (Cancels queued) (sym s) before_start, f)
                | pending_approval ↦ λ q.
                    let (f, s) =
                      stop-row project_id run_id actor_id "cancelled by operator" cancelled runs
                        after run (ground arith) in
                    (subst (Cancels pending_approval) (sym s) while_waiting, f)
                | running ↦ λ q.
                    let (f, s) =
                      stop-row project_id run_id actor_id "cancellation requested by operator"
                        cancel_requested runs after run (ground arith) in
                    (subst (Cancels running) (sym s) while_running, f)
                | cancel_requested ↦ λ q.
                    let (f, s) =
                      stop-row project_id run_id actor_id "cancellation requested by operator"
                        cancel_requested runs after run (ground arith) in
                    (subst (Cancels cancel_requested) (sym s) once_more, f)
                | RunStatus.success ↦ λ q. absurd (ground arith)
                | RunStatus.failed ↦ λ q. absurd (ground arith)
                | cancelled ↦ λ q. absurd (ground arith)
              ]
          refl

cancellable :
    (from to : RunStatus)
    → Cancels from to
    → is_pending from ≡ false
    → is_queued from ≡ false
    → is_cancellable from ≡ true
cancellable _ _ before_start p q = cc
cancellable _ _ while_waiting p q = cc
cancellable _ _ while_running p q = refl
cancellable _ _ once_more p q = refl

-- A run that was found queued, waiting, running or asked to stop can always be cancelled.
pub request_cancel_run_returns :
    (project_id run_id actor_id : String) (runs : List Run) (old : Run) (to : RunStatus)
    → find_row (is_run project_id run_id) runs ≡ some old
    → Cancels old.status to
    → (r : Run × List Run) × (request_cancel_run project_id run_id actor_id runs ≡ ok r)
unfolding request_cancel_run cancel_pending_run load_run
request_cancel_run_returns project_id run_id actor_id runs old to e c =
    let (i, t) = find_row_sound (is_run project_id run_id) runs old e in
    let stops = λ (summary : String) (status : RunStatus).
      modify-total no_row (is_run project_id run_id) (stopped status summary actor_id) runs old i
        t in
    by_status (stops "cancelled by operator" cancelled)
      (stops "cancelled before runner started" cancelled)
      (stops "cancellation requested by operator" cancel_requested)
  where
    Stops : String → RunStatus → Type 0
    Stops summary status =
        (r : Run × List Run) × (modify no_row (is_run project_id run_id)
            (stopped status summary actor_id) runs
          ≡ ok r)

    by_status :
        Stops "cancelled by operator" cancelled
        → Stops "cancelled before runner started" cancelled
        → Stops "cancellation requested by operator" cancel_requested
        → (r : Run × List Run) × (request_cancel_run project_id run_id actor_id runs ≡ ok r)
    by_status (r, a) (q, b) (s, d) = elim (Bool-cases (is_pending old.status)) [
      | inl w ↦ (r, ground arith)
      | inr w ↦ elim (Bool-cases (is_queued old.status)) [
        | inl k ↦ (q, ground arith)
        | inr k ↦
            let stops : is_cancellable old.status ≡ true = cancellable old.status to c w k in
            (s, ground arith)
      ]
    ]
