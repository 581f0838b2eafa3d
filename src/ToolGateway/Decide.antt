-- ===== src/ToolGateway/Decide.antt =====
-- backend/app/api/routes/tool_gateway.py: the decision on an approval task of a tool. Whether the
-- account has a permission in the project is an argument.
use aegis_flow.Base.{ℕ, String, Bool, true, false, not, none, some, Result, ok, err, if◌then◌else◌}
use aegis_flow.Base.Texts.{Text, codes}
use aegis_flow.PolicyCenter.{denied}
use aegis_flow.ToolGateway.{
  InvocationStatus, ToolApprovalStatus, pending, ToolApprovalDecision, ToolApprovalTask, succeeded,
  Gateway, GatewayError, service_error, StatusUpdate, update_invocation_status,
  get_tool_approval_task, decide_tool_approval_task, audit_approval,
}
use aegis_flow.ToolGateway.Service.{stopped_with}

abbrev pub is_undecided : ToolApprovalStatus → Bool
is_undecided pending = true
is_undecided _ = false

-- What a rejection or a revocation writes on the invocation; an approval writes nothing there.
abbrev pub rejection : ToolApprovalDecision → Text → StatusUpdate
rejection ToolApprovalDecision.rejected reason =
    stopped_with InvocationStatus.denied denied "tool invocation approval rejected"
      "approval_rejected" reason
rejection _ reason =
    stopped_with InvocationStatus.cancelled denied "tool invocation approval revoked"
      "approval_revoked" reason

abbrev pub approval_action : ToolApprovalDecision → String
approval_action ToolApprovalDecision.approved = "tool_gateway.approval.approved"
approval_action ToolApprovalDecision.rejected = "tool_gateway.approval.rejected"
approval_action ToolApprovalDecision.revoked = "tool_gateway.approval.revoked"

abbrev pub approves : ToolApprovalDecision → Bool
approves ToolApprovalDecision.approved = true
approves _ = false

module _ (project_id account_id : String) (decision : ToolApprovalDecision) (reason : Text)
    (now : ℕ) where
  -- The decision is written before the invocation is.
  unfoldable pub write_decision :
      ToolApprovalTask → Gateway → Result GatewayError ToolApprovalTask × Gateway
  write_decision task g =
      elim (decide_tool_approval_task project_id task.id account_id decision reason now
        g.approval_tasks) [
          | err raised ↦ (err raised, g)
          | ok (decided_task, tasks) ↦
              let after = record g { approval_tasks = tasks } in
              if approves decision
              then (
                ok decided_task,
                audit_approval account_id (approval_action decision) succeeded decided_task after,
              )
              else elim (update_invocation_status project_id task.invocation_id account_id
                  (rejection decision reason) g.invocations) [
                    | err raised ↦ (err raised, after)
                    | ok (_, rows) ↦ (
                      ok decided_task,
                      audit_approval account_id (approval_action decision) succeeded decided_task
                          (record after { invocations = rows }),
                    )
                  ]
        ]

  unfoldable pub decide_tool_approval :
      Bool → String → Gateway → Result GatewayError ToolApprovalTask × Gateway
  decide_tool_approval permitted approval_task_id g =
      if not permitted
      then (err (service_error 403 (codes "Missing required project permission")), g)
      else elim (get_tool_approval_task project_id approval_task_id g.approval_tasks) [
        | none ↦ (err (service_error 404 (codes "Approval task not found")), g)
        | some task ↦
            if not (is_undecided task.status)
            then (err (service_error 409 (codes "Approval task has already been decided")), g)
            else write_decision task g
      ]
