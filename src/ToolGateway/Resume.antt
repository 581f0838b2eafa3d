-- ===== src/ToolGateway/Resume.antt =====
-- tool_gateway/service.py: the resumption of an approved invocation. The original request is the one
-- the payload of the task was dumped from.
use aegis_flow.Base.{
  String, Option, none, some, [], ◌∷◌, ◌++◌, ◌==◌, leb, ok, err, if◌then◌else◌, Bool, true, false,
  not,
}
use aegis_flow.Base.Texts.{codes}
use aegis_flow.PolicyCenter.{allowed, denied, approval_required}
use aegis_flow.ToolGateway.{
  InvocationStatus, ToolApprovalStatus, resumed, AuthorizedTool, McpServerCredential,
  ToolApprovalTask, failure, McpToolCall, Gateway, GatewayError, service_error, StatusUpdate,
  update_invocation_status, get_tool_approval_task, mark_tool_approval_resumed, audit_invocation,
  audit_approval,
}
use aegis_flow.ToolGateway.Service.{
  SecretLease, ToolCallResult, McpToolCallError, ToolGatewayService, Fresh, Invoked, stopped_with,
  inactive_credential, called, call_status, call_audit, resolve_authorized_tool,
  evaluate_approval_policy, summarize_payload, tool_call,
}

abbrev pub is_resumed : ToolApprovalStatus → Bool
is_resumed resumed = true
is_resumed _ = false

abbrev pub is_approved : ToolApprovalStatus → Bool
is_approved ToolApprovalStatus.approved = true
is_approved _ = false

-- What the invocation of an expired task is updated with.
abbrev pub expiry : StatusUpdate
expiry =
    stopped_with InvocationStatus.expired denied "tool invocation approval expired"
      "approval_expired" (codes "Approval task expired before resume")

module _ (service : ToolGatewayService) (project_id actor_id : String) (fresh : Fresh) where
  -- The invocation of the task is updated and audited as a failure, and the error raised.
  unfoldable pub refuse_resume : ToolApprovalTask → StatusUpdate → GatewayError → Gateway → Invoked
  refuse_resume task u error g =
      elim (update_invocation_status project_id task.invocation_id actor_id u g.invocations) [
        | err raised ↦ (err raised, g)
        | ok (invocation, rows) ↦ (
          err error,
          audit_invocation actor_id "tool_gateway.resume" failure invocation
              (record g { invocations = rows }),
        )
      ]

  -- What the invocation is updated with after the call.
  abbrev pub failed_call :
      McpServerCredential → Option SecretLease → McpToolCallError → StatusUpdate
  failed_call server lease e = called server lease (
      stopped_with InvocationStatus.failed allowed "MCP tool call failed" e.class_name
        (service.sanitize e.message))

  abbrev pub answered_call :
      McpServerCredential → Option SecretLease → ToolCallResult → StatusUpdate
  answered_call server lease r =
      called server lease (record (stopped_with (call_status r) allowed "" "" []) {
        output_summary = summarize_payload service r.content;
        duration_ms = some fresh.duration_ms;
      })

  -- The task is marked resumed after the invocation is updated, and before the audit.
  unfoldable pub finish_resume :
      ToolApprovalTask → McpServerCredential → Option SecretLease → McpToolCall → Gateway → Invoked
  finish_resume task server lease call g = elim (service.call_tool call) [
    | err e ↦
        let message = service.sanitize e.message in
        let u = failed_call server lease e in
        elim (update_invocation_status project_id task.invocation_id actor_id u g.invocations) [
          | err raised ↦ (err raised, g)
          | ok (invocation, rows) ↦
              elim (mark_tool_approval_resumed project_id task.id actor_id fresh.now
                g.approval_tasks) [
                  | err raised ↦ (err raised, record g { invocations = rows })
                  | ok (_, tasks) ↦ (
                    err (service_error 502 message),
                    audit_invocation actor_id "tool_gateway.resume" failure invocation
                        (record g { invocations = rows; approval_tasks = tasks }),
                  )
                ]
        ]
    | ok r ↦
        let u = answered_call server lease r in
        elim (update_invocation_status project_id task.invocation_id actor_id u g.invocations) [
          | err raised ↦ (err raised, g)
          | ok (invocation, rows) ↦
              elim (mark_tool_approval_resumed project_id task.id actor_id fresh.now
                g.approval_tasks) [
                  | err raised ↦ (err raised, record g { invocations = rows })
                  | ok (resumed_task, tasks) ↦ (
                    ok (record { invocation = invocation; result = some r; approval_task = none }),
                    audit_approval actor_id "tool_gateway.resume" (call_audit r) resumed_task (
                        audit_invocation actor_id "tool_gateway.resume" (call_audit r) invocation
                          (record g { invocations = rows; approval_tasks = tasks })),
                  )
                ]
        ]
  ]

  unfoldable pub resume_call :
      ToolApprovalTask
      → AuthorizedTool
      → McpServerCredential
      → Option SecretLease
      → Gateway
      → Invoked
  resume_call task tool server lease g =
      let call : McpToolCall = tool_call service server tool task.request_payload lease in
      finish_resume task server lease call (record g { calls = g.calls ++ call ∷ [] })

  unfoldable pub resume_lease :
      ToolApprovalTask → AuthorizedTool → McpServerCredential → Gateway → Invoked
  resume_lease task tool server g =
      let inactive =
        refuse_resume task (inactive_credential server)
          (service_error 409 (codes "MCP server credential reference is inactive")) g in
      if server.credential_ref == ""
      then resume_call task tool server none g
      else elim server.credential_ref_id [
        | none ↦ inactive
        | some credential_ref_id ↦
            elim (service.create_secret_lease project_id credential_ref_id tool) [
              | none ↦ inactive
              | some lease ↦ resume_call task tool server (some lease) g
            ]
      ]

  unfoldable pub resume_allowed : ToolApprovalTask → AuthorizedTool → Gateway → Invoked
  resume_allowed task tool g =
      elim (service.get_mcp_server_credential_for_tool project_id tool.tool_ref) [
        | some server ↦ resume_lease task tool server g
        | none ↦
            refuse_resume task
              (stopped_with InvocationStatus.failed allowed
                "MCP server not found for authorized tool" "mcp_server_not_found"
                (codes "MCP server not found for authorized tool"))
              (service_error 404 (codes "MCP server not found")) g
      ]

  -- Only a denial of the policy stops here: what needs an approval has one.
  unfoldable pub resume_valid : ToolApprovalTask → AuthorizedTool → Gateway → Invoked
  resume_valid task tool g =
      let policy = evaluate_approval_policy service task.request_payload tool in
      let message = codes "Tool invocation denied by approval policy" in
      elim policy.decision [
        | allowed ↦ resume_allowed task tool g
        | approval_required ↦ resume_allowed task tool g
        | denied ↦
            refuse_resume task
              (stopped_with InvocationStatus.denied denied
                "tool invocation denied by approval policy at resume" "approval_policy_denied"
                message)
              (service_error 403 message) g
      ]

  unfoldable pub resume_live : ToolApprovalTask → Gateway → Invoked
  resume_live task g = elim (resolve_authorized_tool service project_id task.request_payload) [
    | none ↦
        let message = codes "Tool is no longer authorized for this runtime context" in
        refuse_resume task
          (stopped_with InvocationStatus.denied denied
            "tool is no longer authorized for this runtime context" "authorization_denied" message)
          (service_error 403 message) g
    | some tool ↦ elim (service.validation_error tool.input_schema task.request_payload.arguments) [
      | none ↦ resume_valid task tool g
      | some message ↦
          refuse_resume task
            (stopped_with InvocationStatus.denied denied
              "arguments do not match tool input schema at resume" "schema_validation_failed"
              (service.sanitize message))
            (service_error 422 (codes "arguments do not match tool input schema")) g
    ]
  ]

  -- The invocation of an expired task is updated; the task itself keeps its status.
  unfoldable pub expire : ToolApprovalTask → Gateway → Invoked
  expire task g =
      let message = codes "Approval task expired before resume" in
      elim (update_invocation_status project_id task.invocation_id actor_id expiry g.invocations) [
        | err raised ↦ (err raised, g)
        | ok (_, rows) ↦ (
          err (service_error 409 message),
          audit_approval actor_id "tool_gateway.resume" failure task
              (record g { invocations = rows }),
        )
      ]

  unfoldable pub resume_approval : String → Gateway → Invoked
  resume_approval approval_task_id g =
      elim (get_tool_approval_task project_id approval_task_id g.approval_tasks) [
        | none ↦ (err (service_error 404 (codes "Approval task not found")), g)
        | some task ↦
            if is_resumed task.status
            then (err (service_error 409 (codes "Approval task has already been resumed")), g)
            else if not (is_approved task.status)
            then (err (service_error 409 (codes "Approval task is not approved")), g)
            else if leb task.expires_at fresh.now
            then expire task g
            else resume_live task g
      ]
