-- ===== src/Examples/Approvals.antt =====
-- The theorems on approval tasks at a table of one task.
use aegis_flow.Base.{String, Bool, true, false, none, [], ◌∷◌, ◌≡◌, refl, ok, err}
use aegis_flow.Base.Rows.{find_row, modify}
use aegis_flow.IamAccess.{PrincipalStatus, AccountPrincipal}
use aegis_flow.RuntimeApprovals.{
  pending, approve, revoke, ApprovalTargetKind, ApprovalRequest, ApprovalTask, already_decided,
  create_approval_task, decided, get_approval_task, decide_approval_task, decide_runtime_approval,
}
use aegis_flow.RuntimeApprovals.Once.{decide_runtime_approval_once}

abbrev account : String → AccountPrincipal
account id = record { account_id = id; status = PrincipalStatus.active; is_super_admin = false }

abbrev has_permission : AccountPrincipal → String → String → Bool
has_permission _ _ permission = true

abbrev request : ApprovalRequest
request = record {
  project_id = "p";
  actor_id = "amy";
  target_kind = ApprovalTargetKind.shell_execution;
  target_ref = "restart";
  invocation_ref = "i";
  workflow_ref = "flow:3";
  run_id = "r1";
  node_id = "deploy";
  trace_id = "t";
  risk_level = "high";
  request_payload = "";
  public_payload = "";
  target_snapshot = "";
  expires_at = 1000;
  created_by = "amy";
}

abbrev task : ApprovalTask
task = record {
  id = "a";
  request = request;
  status = pending;
  decision = none;
  decision_reason = "";
  decided_by = none;
  decided_at = none;
  resumed_at = none;
  updated_by = "amy";
}

creates_task : create_approval_task "a" "amy" request [] ≡ (task, task ∷ [])
unfolding create_approval_task
creates_task = refl

abbrev approved_task : ApprovalTask
approved_task = decided "bob" approve "fine" 50 task

approves_task :
    decide_runtime_approval has_permission (account "bob") "p" "a" approve "fine" 50 (task ∷ [])
    ≡ ok (approved_task, approved_task ∷ [])
unfolding decide_runtime_approval decide_approval_task get_approval_task find_row modify
approves_task = refl

decide_runtime_approval_once_example :
    decide_runtime_approval has_permission
      (account "cid")
      "p"
      "a"
      revoke
      "late"
      60
      (approved_task ∷ [])
    ≡ err already_decided
decide_runtime_approval_once_example =
    decide_runtime_approval_once has_permission (account "bob") "p" "a" approve "fine" 50
      (task ∷ []) (approved_task ∷ []) approved_task (account "cid") revoke "late" 60 approves_task
      refl
