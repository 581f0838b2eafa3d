-- ===== src/RuntimeApprovals.antt =====
-- backend/app/runtime_approvals/sqlalchemy_store.py, the rows of approval tasks, and the decision on one
-- in backend/app/api/routes/runtime_approvals.py. Whether an account has a permission in a project is an
-- argument; the audit event is not modelled; a JSON payload is a text.
pub mod Once
use aegis_flow.Base.{
  ℕ, String, Bool, true, false, not, ◌&&◌, ◌||◌, Option, none, some, List, [], ◌∷◌, ◌++◌, ◌==◌,
  Result, ok, err, ◌>>=◌, ◌>>◌, raise_if, if◌then◌else◌,
}
use aegis_flow.Base.Rows.{find_row, modify}
use aegis_flow.IamAccess.{AccountPrincipal}

-- `RuntimeApprovalStatus`
pub data ApprovalStatus : Type 0 where
  pending approved rejected revoked expired resumed : ApprovalStatus

-- `RuntimeApprovalDecisionRead`
pub data ApprovalDecision : Type 0 where
  approve reject revoke : ApprovalDecision

pub data ApprovalTargetKind : Type 0 where
  shell_execution model_invocation : ApprovalTargetKind

-- What a task is created with and no method changes.
pub record ApprovalRequest : Type 0 where
  pub project_id : String
  pub actor_id : String
  pub target_kind : ApprovalTargetKind
  pub target_ref : String
  pub invocation_ref : String
  pub workflow_ref : String
  pub run_id : String
  pub node_id : String
  pub trace_id : String
  pub risk_level : String
  pub request_payload : String
  pub public_payload : String
  pub target_snapshot : String
  pub expires_at : ℕ
  pub created_by : String

pub record ApprovalTask : Type 0 where
  pub id : String
  pub request : ApprovalRequest
  pub status : ApprovalStatus
  pub decision : Option ApprovalDecision
  pub decision_reason : String
  pub decided_by : Option String
  pub decided_at : Option ℕ
  pub resumed_at : Option ℕ
  pub updated_by : String

pub data ApprovalError : Type 0 where
  task_not_found already_decided insufficient_permission : ApprovalError

abbrev pub is_task : String → String → ApprovalTask → Bool
is_task project_id approval_task_id t =
    t.request.project_id == project_id && t.id == approval_task_id

abbrev pub is_pending : ApprovalStatus → Bool
is_pending pending = true
is_pending _ = false

-- `task.status = decision`
abbrev pub decision_status : ApprovalDecision → ApprovalStatus
decision_status approve = approved
decision_status reject = rejected
decision_status revoke = revoked

-- `id` is given by the session.
unfoldable pub create_approval_task :
    String → String → ApprovalRequest → List ApprovalTask → ApprovalTask × List ApprovalTask
create_approval_task id updated_by request tasks =
    let task : ApprovalTask = record {
      id = id;
      request = request;
      status = pending;
      decision = none;
      decision_reason = "";
      decided_by = none;
      decided_at = none;
      resumed_at = none;
      updated_by = updated_by;
    } in
    (task, tasks ++ task ∷ [])

unfoldable pub get_approval_task : String → String → List ApprovalTask → Option ApprovalTask
get_approval_task project_id approval_task_id tasks =
    find_row (is_task project_id approval_task_id) tasks

abbrev pub decided : String → ApprovalDecision → String → ℕ → ApprovalTask → ApprovalTask
decided actor_id decision reason now t = record t {
  status = decision_status decision;
  decision = some decision;
  decision_reason = reason;
  decided_by = some actor_id;
  decided_at = some now;
  updated_by = actor_id;
}

unfoldable pub decide_approval_task :
    String
    → String
    → String
    → ApprovalDecision
    → String
    → ℕ
    → List ApprovalTask
    → Result ApprovalError (ApprovalTask × List ApprovalTask)
decide_approval_task project_id approval_task_id actor_id decision reason now tasks =
    modify task_not_found (is_task project_id approval_task_id)
      (decided actor_id decision reason now) tasks

unfoldable pub mark_approval_task_resumed :
    String
    → String
    → String
    → ℕ
    → List ApprovalTask
    → Result ApprovalError (ApprovalTask × List ApprovalTask)
mark_approval_task_resumed project_id approval_task_id actor_id now tasks =
    modify task_not_found (is_task project_id approval_task_id)
      (λ t. record t { status = resumed; resumed_at = some now; updated_by = actor_id }) tasks

module _ (has_permission : AccountPrincipal → String → String → Bool) where
  -- `_require_project_permission`: a super admin passes.
  abbrev pub permitted : AccountPrincipal → String → Bool
  permitted account project_id =
      account.is_super_admin || has_permission account project_id "tool-gateway:approve"

  unfoldable pub decide_runtime_approval :
      AccountPrincipal
      → String
      → String
      → ApprovalDecision
      → String
      → ℕ
      → List ApprovalTask
      → Result ApprovalError (ApprovalTask × List ApprovalTask)
  decide_runtime_approval account project_id approval_task_id decision reason now tasks =
      if not (permitted account project_id)
      then err insufficient_permission
      else elim (get_approval_task project_id approval_task_id tasks) [
        | none ↦ err task_not_found
        | some task ↦
            if not (is_pending task.status)
            then err already_decided
            else decide_approval_task project_id approval_task_id account.account_id decision reason
                now tasks
      ]
