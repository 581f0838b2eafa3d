-- ===== src/ToolGateway/Policies.antt =====
-- The gateway with the evaluator of policy_center/runtime.py: what a published policy lets it call.
use aegis_flow.Base.{
  String, false, Option, some, ◌≡◌, ◌≢◌, refl, ap, ◌∙◌, subst, ◌⊎◌, ⊎_elim, arith,
}
use aegis_flow.Workflows.Impact.{is_high_risk}
use aegis_flow.PolicyCenter.{
  allowed, denied, allow, deny, DecisionResult, PolicyVersion, evaluate_policy,
}
use aegis_flow.PolicyCenter.Decisions.{
  DecidedBy, NoMatch, evaluate_policy_allowed, evaluate_policy_denied,
}
use aegis_flow.ToolGateway.{
  ToolInvocationRequest, AuthorizedTool, ToolApprovalTask, Gateway, get_tool_approval_task,
}
use aegis_flow.ToolGateway.Service.{
  ToolGatewayService, Fresh, policy_request, resolve_authorized_tool, evaluate_approval_policy,
}
use aegis_flow.ToolGateway.Invoke.{invoke}
use aegis_flow.ToolGateway.Resume.{resume_approval}
use aegis_flow.ToolGateway.ResumeEnds.{Live}
use aegis_flow.ToolGateway.Calls.{invoke_calls}
use aegis_flow.ToolGateway.Approvals.{resume_calls}

-- The service whose evaluator decides by `policy`.
abbrev pub with_policy :
    (String → String) → Option PolicyVersion → ToolGatewayService → ToolGatewayService
with_policy redact policy service = record service {
  approval_evaluator = some (λ q. evaluate_policy redact q policy);
}

module _ (service : ToolGatewayService) (redact : String → String) (policy : Option PolicyVersion)
    (project_id actor_id : String) (fresh : Fresh) where
  evaluated :
      (request : ToolInvocationRequest) (tool : AuthorizedTool)
      → evaluate_approval_policy (with_policy redact policy service) request tool
        ≡ evaluate_policy redact (policy_request request tool) policy
  unfolding evaluate_approval_policy
  evaluated request tool = refl

  -- Under a published policy, or none, a tool that an invocation calls without approval is of a risk that
  -- is neither high nor critical, and the first rule that matches the request allows it, or no rule
  -- matches and the tool does not require approval.
  pub invoke_calls_low_risk :
      (request : ToolInvocationRequest) (g : Gateway)
      → (invoke (with_policy redact policy service) project_id actor_id fresh request g).1.calls
        ≢ g.calls
      → (tool : AuthorizedTool) × ((resolve_authorized_tool
              (with_policy redact policy service)
              project_id
              request
            ≡ some tool)
          × ((is_high_risk tool.effective_risk_level ≡ false)
              × (DecidedBy policy (policy_request request tool) allow
                  ⊎ (NoMatch policy (policy_request request tool)
                      × (tool.approval_required ≡ false)))))
  invoke_calls_low_risk request g calls =
      ⊎_elim (λ same. absurd (calls same))
        (λ (tool, (server, (lease, (c, e)))).
          let decided : (evaluate_policy redact (policy_request request tool) policy).decision
              ≡ allowed =
            subst (λ (d : DecisionResult). d.decision ≡ allowed) (evaluated request tool)
              c.permitted in
          (
            tool,
            (
              c.authorized,
              evaluate_policy_allowed redact (policy_request request tool) policy decided,
            ),
          ))
        (invoke_calls (with_policy redact policy service) project_id actor_id fresh request g)

  same_tool :
      (request : ToolInvocationRequest) (found tool : AuthorizedTool)
      → resolve_authorized_tool (with_policy redact policy service) project_id request ≡ some found
      → resolve_authorized_tool (with_policy redact policy service) project_id request ≡ some tool
      → (evaluate_policy redact (policy_request request tool) policy).decision ≡ denied
      → (evaluate_approval_policy (with_policy redact policy service) request found).decision
        ≡ denied
  unfolding evaluate_approval_policy
  same_tool request found tool a b d =
      let same : tool ≡ found = cc in
      subst (λ t. (evaluate_policy redact (policy_request request t) policy).decision ≡ denied) same
        d

  same_payload :
      (again task : ToolApprovalTask) (id : String) (g : Gateway)
      → get_tool_approval_task project_id id g.approval_tasks ≡ some again
      → get_tool_approval_task project_id id g.approval_tasks ≡ some task
      → again.request_payload ≡ task.request_payload
  same_payload again task id g a b =
      let same : again ≡ task = cc in ap (λ (t : ToolApprovalTask). t.request_payload) same

  -- A tool that the first matching rule denies is not called: not by an invocation of it, and not by the
  -- resumption of an invocation that was approved before.
  pub denied_calls :
      (request : ToolInvocationRequest) (tool : AuthorizedTool) (g : Gateway)
      → resolve_authorized_tool (with_policy redact policy service) project_id request ≡ some tool
      → DecidedBy policy (policy_request request tool) deny
      → ((invoke (with_policy redact policy service) project_id actor_id fresh request g).1.calls
          ≡ g.calls)
        × ((id : String) (task : ToolApprovalTask)
            → Live project_id id fresh.now g task
            → task.request_payload ≡ request
            → (resume_approval
                (with_policy redact policy service)
                project_id
                actor_id
                fresh
                id
                g).1.calls
              ≡ g.calls)
  denied_calls request tool g authorized by_deny =
      let d : (evaluate_policy redact (policy_request request tool) policy).decision ≡ denied =
        (evaluate_policy_denied redact (policy_request request tool) policy).1 by_deny in
      (
        ⊎_elim (λ same. same)
            (λ (found, (server, (lease, (c, e)))).
              let no = same_tool request found tool c.authorized authorized d in
              absurd (ground (arith, no, c.permitted)))
            (invoke_calls (with_policy redact policy service) project_id actor_id fresh request g),
        λ id task live payload.
            ⊎_elim (λ same. same)
              (λ (again, (found, (server, (lease, (live_again, (c, e)))))).
                let same = same_payload again task id g live_again.found live.found ∙ payload in
                let resolved =
                  subst
                    (λ q.
                      resolve_authorized_tool (with_policy redact policy service) project_id q
                      ≡ some found)
                    same c.authorized in
                let undenied =
                  subst
                    (λ q.
                      (evaluate_approval_policy (with_policy redact policy service) q
                        found).decision
                      ≢ denied)
                    same c.undenied in
                absurd (undenied (same_tool request found tool resolved authorized d)))
              (resume_calls (with_policy redact policy service) project_id actor_id fresh id g),
      )
