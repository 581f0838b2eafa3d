-- ===== src/RuntimeApprovals/Once.antt =====
-- An approval task is decided once, by an account that may.
use aegis_flow.Base.{
  ℕ, String, Bool, true, false, some, List, ok, err, ◌≡◌, refl, ap, inl, inr, arith, Bool-cases,
  Option-cases,
}
use aegis_flow.Base.Rows.{find_row, modify, modify-row, find_row-modify}
use aegis_flow.IamAccess.{AccountPrincipal}
use aegis_flow.RuntimeApprovals.{
  pending, ApprovalDecision, ApprovalTask, task_not_found, already_decided, is_task, is_pending,
  decision_status, get_approval_task, decided, decide_approval_task, permitted,
  decide_runtime_approval,
}

decided_not_pending : (decision : ApprovalDecision) → is_pending (decision_status decision) ≡ false
decided_not_pending decision = ground arith

module _ (has_permission : AccountPrincipal → String → String → Bool) (account : AccountPrincipal)
    (project_id task_id : String) (decision : ApprovalDecision) (reason : String) (now : ℕ)
    (tasks after : List ApprovalTask) (task : ApprovalTask) where
  -- A decision that succeeds comes from an account that is permitted, on a task that was pending, and
  -- leaves in the table the task with that decision, its author and its time.
  pub decide_runtime_approval_lem :
      decide_runtime_approval has_permission account project_id task_id decision reason now tasks
        ≡ ok (task, after)
      → (permitted has_permission account project_id ≡ true)
        × ((old : ApprovalTask) × ((get_approval_task project_id task_id tasks ≡ some old)
              × ((old.status ≡ pending)
                  × (get_approval_task project_id task_id after ≡ some task)
                  × (task.status ≡ decision_status decision)
                  × (task.decided_by ≡ some account.account_id))))
  unfolding decide_runtime_approval decide_approval_task get_approval_task
  decide_runtime_approval_lem h = elim (Bool-cases (permitted has_permission account project_id)) [
    | inr n ↦ absurd (ground arith)
    | inl p ↦ elim (Option-cases (find_row (is_task project_id task_id) tasks)) [
      | inl e ↦ absurd (ground arith)
      | inr (old, e) ↦ elim (Bool-cases (is_pending old.status)) [
        | inr n ↦ absurd (ground arith)
        | inl w ↦
            let k : modify task_not_found (is_task project_id task_id)
                  (decided account.account_id decision reason now) tasks
                ≡ ok (task, after) =
              ground arith in
            let found =
              find_row-modify task_not_found (is_task project_id task_id)
                (decided account.account_id decision reason now) tasks task after (λ x. refl) k in
            let (b, (i, (t, (row, o)))) =
              modify-row task_not_found (is_task project_id task_id)
                (decided account.account_id decision reason now) tasks task after k in
            let was : old.status ≡ pending = ground arith in
            (p, (old, (e, (was, found, ap (λ x. x.status) row, ap (λ x. x.decided_by) row))))
      ]
    ]
  ]

  -- After a decision that succeeds, a second one on the same task, by any account that is permitted and
  -- at any time, is refused as already decided.
  pub decide_runtime_approval_once :
      (other : AccountPrincipal) (again : ApprovalDecision) (why : String) (later : ℕ)
      → decide_runtime_approval has_permission account project_id task_id decision reason now tasks
        ≡ ok (task, after)
      → permitted has_permission other project_id ≡ true
      → decide_runtime_approval has_permission other project_id task_id again why later after
        ≡ err already_decided
  unfolding decide_runtime_approval
  decide_runtime_approval_once other again why later h p =
      let (_, (old, (_, (_, found, status, _)))) = decide_runtime_approval_lem h in
      let no = decided_not_pending decision in ground arith
