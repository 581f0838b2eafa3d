-- ===== src/ToolGateway/Invoke.antt =====
-- tool_gateway/service.py: the invocation of a tool, in the order of its checks.
use aegis_flow.Base.{
  ◌+◌, String, Bool, true, false, Option, none, some, [], ◌∷◌, ◌++◌, ◌==◌, ok, err, if◌then◌else◌,
}
use aegis_flow.Base.Texts.{codes}
use aegis_flow.Workflows.Types.{medium}
use aegis_flow.PolicyCenter.{allowed, denied, approval_required}
use aegis_flow.ToolGateway.{
  InvocationStatus, ToolApprovalStatus, ToolInvocationRequest, AuthorizedTool, McpServerCredential,
  Invocation, ToolApprovalTask, failure, waiting, McpToolCall, Gateway, GatewayError, service_error,
  StatusUpdate, record_invocation, create_tool_approval_task, audit_invocation, audit_approval,
}
use aegis_flow.ToolGateway.Service.{
  SecretLease, ToolCallResult, ToolGatewayService, Fresh, Invoked, stopped_with,
  inactive_credential, called, call_status, call_audit, resolve_authorized_tool,
  evaluate_approval_policy, summarize_payload, tool_call,
}

module _ (service : ToolGatewayService) (project_id actor_id : String) (fresh : Fresh)
    (request : ToolInvocationRequest) where
  -- The row that `_record_invocation` writes.
  abbrev pub new_invocation :
      Option AuthorizedTool → Option McpServerCredential → Option Bool → StatusUpdate → Invocation
  new_invocation tool server required u = record {
    id = fresh.invocation_id;
    project_id = project_id;
    actor_id = actor_id;
    tool_ref = request.tool_ref;
    tool_name = elim tool [ none ↦ "" | some t ↦ t.tool_name ];
    server_ref = elim server [
      | some s ↦ s.server_ref
      | none ↦ elim tool [ none ↦ "" | some t ↦ t.server_ref ]
    ];
    tool_group_refs = request.tool_group_refs;
    workflow_ref = request.workflow_ref;
    agent_ref = request.agent_ref;
    role_refs = request.role_refs;
    run_id = request.run_id;
    node_id = request.node_id;
    trace_id = request.trace_id;
    tool_call_id = if request.tool_call_id == "" then fresh.tool_call_id else request.tool_call_id;
    effective_risk_level = elim tool [ none ↦ medium | some t ↦ t.effective_risk_level ];
    approval_required = elim required [
      | some b ↦ b
      | none ↦ elim tool [ none ↦ false | some t ↦ t.approval_required ]
    ];
    policy_decision = u.policy_decision;
    status = u.status;
    input_summary = summarize_payload service request.arguments;
    output_summary = u.output_summary;
    error_type = u.error_type;
    error_message = u.error_message;
    duration_ms = fresh.duration_ms;
    credential_ref = u.credential_ref;
    secret_lease_id = u.secret_lease_id;
    secret_lease_ref = u.secret_lease_ref;
    updated_by = actor_id;
  }

  -- The invocation is recorded and audited as a failure, and the error raised.
  unfoldable pub refuse_invocation : Invocation → GatewayError → Gateway → Invoked
  refuse_invocation invocation error g = elim (record_invocation invocation g) [
    | err raised ↦ (err raised, g)
    | ok after ↦
        (err error, audit_invocation actor_id "tool_gateway.invoke" failure invocation after)
  ]

  abbrev pub answered_invocation :
      AuthorizedTool → McpServerCredential → Option SecretLease → ToolCallResult → Invocation
  answered_invocation tool server lease r = new_invocation (some tool) (some server) none (
      called server lease (record (stopped_with (call_status r) allowed "" "" []) {
        output_summary = summarize_payload service r.content;
      }))

  -- The call of an allowed tool and what is recorded of it.
  unfoldable pub call_authorized_tool :
      AuthorizedTool → McpServerCredential → Option SecretLease → Gateway → Invoked
  call_authorized_tool tool server lease g =
      let call : McpToolCall = tool_call service server tool request lease in
      let made : Gateway = record g { calls = g.calls ++ call ∷ [] } in
      elim (service.call_tool call) [
        | err e ↦
            let message = service.sanitize e.message in
            refuse_invocation
              (new_invocation (some tool) (some server) none (
                called server lease (
                  stopped_with InvocationStatus.failed allowed "MCP tool call failed" e.class_name
                    message)))
              (service_error 502 message) made
        | ok r ↦
            let invocation = answered_invocation tool server lease r in
            elim (record_invocation invocation made) [
              | err raised ↦ (err raised, made)
              | ok after ↦ (
                ok (record { invocation = invocation; result = some r; approval_task = none }),
                audit_invocation actor_id "tool_gateway.invoke" (call_audit r) invocation after,
              )
            ]
      ]

  -- The lease of the server's credential, where it has one.
  unfoldable pub lease_and_call : AuthorizedTool → McpServerCredential → Gateway → Invoked
  lease_and_call tool server g =
      let inactive =
        refuse_invocation
          (new_invocation (some tool) (some server) none (inactive_credential server))
          (service_error 409 (codes "MCP server credential reference is inactive")) g in
      if server.credential_ref == ""
      then call_authorized_tool tool server none g
      else elim server.credential_ref_id [
        | none ↦ inactive
        | some credential_ref_id ↦
            elim (service.create_secret_lease project_id credential_ref_id tool) [
              | none ↦ inactive
              | some lease ↦ call_authorized_tool tool server (some lease) g
            ]
      ]

  unfoldable pub invoke_allowed : AuthorizedTool → Gateway → Invoked
  invoke_allowed tool g =
      elim (service.get_mcp_server_credential_for_tool project_id tool.tool_ref) [
        | some server ↦ lease_and_call tool server g
        | none ↦
            refuse_invocation
              (new_invocation (some tool) none none (
                stopped_with InvocationStatus.failed allowed
                  "MCP server not found for authorized tool" "mcp_server_not_found"
                  (codes "MCP server not found for authorized tool")))
              (service_error 404 (codes "MCP server not found")) g
      ]

  -- The row of the task that `_create_approval_task` writes.
  abbrev pub new_approval_task : AuthorizedTool → Invocation → ToolApprovalTask
  new_approval_task tool invocation = record {
    id = fresh.approval_task_id;
    project_id = project_id;
    invocation_id = invocation.id;
    requested_by = actor_id;
    tool_call_id = invocation.tool_call_id;
    effective_risk_level = tool.effective_risk_level;
    status = ToolApprovalStatus.pending;
    decision = none;
    decision_reason = [];
    request_payload = request;
    authorized_tool_snapshot = tool;
    expires_at = fresh.now + 86400;
    decided_by = none;
    decided_at = none;
    resumed_at = none;
    updated_by = actor_id;
  }

  abbrev pub waiting_invocation : AuthorizedTool → Invocation
  waiting_invocation tool = new_invocation (some tool) none (some true) (
      stopped_with InvocationStatus.pending_approval approval_required
        "tool invocation is waiting for approval" "" [])

  unfoldable pub request_approval : AuthorizedTool → Gateway → Invoked
  request_approval tool g =
      let invocation = waiting_invocation tool in
      let task = new_approval_task tool invocation in
      elim (record_invocation invocation g) [
        | err raised ↦ (err raised, g)
        | ok after ↦ (
          ok (record { invocation = invocation; result = none; approval_task = some task }),
          audit_approval actor_id "tool_gateway.approval.request" waiting task (
              audit_invocation actor_id "tool_gateway.invoke" waiting invocation
                (create_tool_approval_task task after)),
        )
      ]

  unfoldable pub invoke_valid : AuthorizedTool → Gateway → Invoked
  invoke_valid tool g =
      let policy = evaluate_approval_policy service request tool in
      elim policy.decision [
        | allowed ↦ invoke_allowed tool g
        | approval_required ↦ request_approval tool g
        | denied ↦
            refuse_invocation
              (new_invocation (some tool) none (some policy.approval_required_flag) (
                stopped_with InvocationStatus.denied denied
                  "tool invocation denied by approval policy" "approval_policy_denied"
                  (codes "Tool invocation denied by approval policy")))
              (service_error 403 (codes "Tool invocation denied by approval policy")) g
      ]

  unfoldable pub invoke : Gateway → Invoked
  invoke g = elim (resolve_authorized_tool service project_id request) [
    | none ↦
        let message = codes "Tool is not authorized for this runtime context" in
        refuse_invocation
          (new_invocation none none none (
            stopped_with InvocationStatus.denied denied
              "tool is not authorized for this runtime context" "authorization_denied" message))
          (service_error 403 message) g
    | some tool ↦ elim (service.validation_error tool.input_schema request.arguments) [
      | none ↦ invoke_valid tool g
      | some message ↦
          refuse_invocation
            (new_invocation (some tool) none none (
              stopped_with InvocationStatus.denied denied "arguments do not match tool input schema"
                "schema_validation_failed" (service.sanitize message)))
            (service_error 422 (codes "arguments do not match tool input schema")) g
    ]
  ]
