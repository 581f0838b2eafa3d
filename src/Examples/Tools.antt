-- ===== src/Examples/Tools.antt =====
-- The theorems on the tool gateway at a registry of three tools.
use aegis_flow.Base.{
  ℕ, String, true, false, Option, none, some, [], ◌∷◌, ◌≡◌, ◌≢◌, refl, ◌⊎◌, ok, length, arith,
}
use aegis_flow.Base.Rows.{find_row, modify}
use aegis_flow.Workflows.Types.{low, high}
use aegis_flow.PolicyCenter.{
  TargetKind, Action, allow, deny, Rule, PolicyVersion, evaluate_policy, first_decision,
  rule_matches_request, decision_from_rule,
}
use aegis_flow.PolicyCenter.Decisions.{DecidedBy, NoMatch}
use aegis_flow.Workflows.Impact.{is_high_risk}
use aegis_flow.ToolGateway.{
  ToolInvocationRequest, AuthorizedTool, McpServerCredential, ToolApprovalTask,
  ToolApprovalDecision, Gateway, record_invocation, create_tool_approval_task,
  update_invocation_status, get_tool_approval_task, decide_tool_approval_task,
  mark_tool_approval_resumed, audit_invocation, audit_approval,
}
use aegis_flow.ToolGateway.Service.{
  ToolGatewayService, Fresh, policy_request, resolve_authorized_tool, evaluate_approval_policy,
  summarize_payload, tool_call,
}
use aegis_flow.ToolGateway.Invoke.{
  call_authorized_tool, lease_and_call, invoke_allowed, request_approval, invoke_valid, invoke,
}
use aegis_flow.ToolGateway.Resume.{
  finish_resume, resume_call, resume_lease, resume_allowed, resume_valid, resume_live,
  resume_approval,
}
use aegis_flow.ToolGateway.ResumeEnds.{Live}
use aegis_flow.ToolGateway.Decide.{write_decision, decide_tool_approval}
use aegis_flow.ToolGateway.Calls.{InvokeCalls, invoke_calls}
use aegis_flow.ToolGateway.Records.{Untouched, invoke_reused}
use aegis_flow.ToolGateway.Approvals.{ResumeCalls, resume_calls}
use aegis_flow.ToolGateway.Policies.{with_policy, invoke_calls_low_risk, denied_calls}
use aegis_flow.ToolGateway.Steps.{empty_gateway}

abbrev read_log : AuthorizedTool
read_log = record {
  tool_ref = "read_log";
  server_ref = "s";
  tool_name = "Read log";
  input_schema = [];
  effective_risk_level = low;
  approval_required = false;
}

abbrev restart : AuthorizedTool
restart = record read_log {
  tool_ref = "restart";
  tool_name = "Restart";
  effective_risk_level = high;
}

abbrev server : McpServerCredential
server = record {
  server_ref = "s";
  base_url = "https://mcp";
  transport = "http";
  credential_ref_id = some "c";
  credential_ref = "vault:c";
  egress_allowed_hosts = [];
  egress_allowed_ports = [];
  egress_proxy_mode = "direct";
  egress_proxy_url = "";
  egress_dns_pinning_required = false;
}

abbrev service : ToolGatewayService
service = record {
  resolve_authorized_tools = λ _ _. read_log ∷ restart ∷ [];
  validation_error = λ _ _. none;
  approval_evaluator = none;
  get_mcp_server_credential_for_tool = λ _ _. some server;
  create_secret_lease = λ _ _ _. some (record { id = "l"; lease_ref = "lease:l" });
  call_tool = λ _. ok (record { content = []; is_error = false });
  sanitize = λ t. t;
}

abbrev fresh : String → ℕ → Fresh
fresh id now = record {
  invocation_id = id;
  tool_call_id = id;
  approval_task_id = id;
  duration_ms = 1;
  now = now;
}

abbrev request : String → ToolInvocationRequest
request tool_ref = record {
  tool_ref = tool_ref;
  arguments = [];
  tool_group_refs = [];
  workflow_ref = "";
  agent_ref = "";
  role_refs = [];
  run_id = "r";
  node_id = "n";
  trace_id = "t";
  tool_call_id = "";
}

abbrev read : Gateway
read = (invoke service "p" "amy" (fresh "i" 10) (request "read_log") empty_gateway).1

-- The call of a tool of low risk, under the lease of its server.
reads_log :
    (read.calls
      ≡ tool_call service server read_log
          (request "read_log")
          (some (record { id = "l"; lease_ref = "lease:l" }))
        ∷ [])
    × (length read.invocations ≡ 1)
unfolding invoke resolve_authorized_tool find_row invoke_valid evaluate_approval_policy
    invoke_allowed lease_and_call call_authorized_tool record_invocation audit_invocation
reads_log = (refl, refl)

invoke_calls_example :
    ((invoke service "p" "amy" (fresh "i" 10) (request "read_log") empty_gateway).1.calls
      ≡ empty_gateway.calls)
    ⊎ InvokeCalls service "p" "amy"
        (fresh "i" 10)
        (request "read_log")
        empty_gateway
        (invoke service "p" "amy" (fresh "i" 10) (request "read_log") empty_gateway).1
invoke_calls_example =
    invoke_calls service "p" "amy" (fresh "i" 10) (request "read_log") empty_gateway

-- The second request has the call id of the first.
abbrev repeated : ToolInvocationRequest
repeated = record (request "read_log") { tool_call_id = "i" }

invoke_reused_example :
    Untouched service "p" "amy"
      (fresh "j" 20)
      repeated
      read
      (invoke service "p" "amy" (fresh "j" 20) repeated read)
unfolding invoke resolve_authorized_tool find_row invoke_valid evaluate_approval_policy
    invoke_allowed lease_and_call call_authorized_tool record_invocation audit_invocation
invoke_reused_example = invoke_reused service "p" "amy" (fresh "j" 20) repeated read refl

-- Its tool is called all the same.
calls_again : length (invoke service "p" "amy" (fresh "j" 20) repeated read).1.calls ≡ 2
unfolding invoke resolve_authorized_tool find_row invoke_valid evaluate_approval_policy
    invoke_allowed lease_and_call call_authorized_tool record_invocation audit_invocation
calls_again = refl

abbrev waits : Gateway
waits = (invoke service "p" "amy" (fresh "w" 10) (request "restart") empty_gateway).1

abbrev approves : Gateway
approves = (decide_tool_approval "p" "bob" ToolApprovalDecision.approved [] 20 true "w" waits).1

abbrev resumes : Gateway
resumes = (resume_approval service "p" "amy" (fresh "x" 30) "w" approves).1

-- A tool of high risk waits for an approval, and is called once it has one.
restarts : (length waits.calls ≡ 0) × ((length approves.calls ≡ 0) × (length resumes.calls ≡ 1))
unfolding invoke resolve_authorized_tool find_row invoke_valid evaluate_approval_policy
    request_approval record_invocation audit_approval audit_invocation create_tool_approval_task
    decide_tool_approval get_tool_approval_task write_decision decide_tool_approval_task modify
    resume_approval resume_live invoke_allowed finish_resume resume_allowed resume_call resume_lease
    resume_valid summarize_payload mark_tool_approval_resumed update_invocation_status
restarts = (refl, (refl, refl))

resume_calls_example :
    (resumes.calls ≡ approves.calls)
    ⊎ ResumeCalls service "p" "amy" (fresh "x" 30) "w" approves resumes
resume_calls_example = resume_calls service "p" "amy" (fresh "x" 30) "w" approves

abbrev rule : Action → Rule
rule action = record {
  rule_id = "r";
  title = "logs";
  target_kind = TargetKind.tool_invocation;
  action = action;
  risk_levels = low ∷ [];
  rule_match = record {
    tool_group_refs = [];
    tool_refs = "read_log" ∷ [];
    shell_template_refs = [];
    model_policy_refs = [];
    environment_keys = [];
  };
  approver_role_refs = [];
  reason = "";
}

abbrev policy : Action → Option PolicyVersion
policy action = some (record { policy_ref = "default"; version = 1; rules = rule action ∷ [] })

abbrev allowed_service : ToolGatewayService
allowed_service = with_policy (λ t. t) (policy allow) service

allowed_reads :
    (invoke allowed_service "p" "amy" (fresh "i" 10) (request "read_log") empty_gateway).1.calls
    ≢ empty_gateway.calls
unfolding invoke resolve_authorized_tool find_row invoke_valid evaluate_approval_policy
    invoke_allowed lease_and_call call_authorized_tool record_invocation audit_invocation
    evaluate_policy first_decision rule_matches_request decision_from_rule
allowed_reads same = absurd (ground (arith, same))

invoke_calls_low_risk_example :
    (tool : AuthorizedTool) × ((resolve_authorized_tool allowed_service "p" (request "read_log")
        ≡ some tool)
      × ((is_high_risk tool.effective_risk_level ≡ false)
          × (DecidedBy (policy allow) (policy_request (request "read_log") tool) allow
              ⊎ (NoMatch (policy allow) (policy_request (request "read_log") tool)
                  × (tool.approval_required ≡ false)))))
invoke_calls_low_risk_example =
    invoke_calls_low_risk service (λ t. t) (policy allow) "p" "amy" (fresh "i" 10)
      (request "read_log") empty_gateway allowed_reads

denied_by_rule : DecidedBy (policy deny) (policy_request (request "read_log") read_log) deny
unfolding rule_matches_request
denied_by_rule = (
  record { policy_ref = "default"; version = 1; rules = rule deny ∷ [] },
  (
    refl,
    (
      rule deny,
      (record { passed = []; later = []; splits = refl; unmatched = tt; matches = refl }, refl),
    ),
  ),
)

abbrev denied_service : ToolGatewayService
denied_service = with_policy (λ t. t) (policy deny) service

denied_calls_example :
    ((invoke denied_service "p" "amy" (fresh "i" 10) (request "read_log") empty_gateway).1.calls
      ≡ empty_gateway.calls)
    × ((id : String) (task : ToolApprovalTask)
        → Live "p" id 10 empty_gateway task
        → task.request_payload ≡ request "read_log"
        → (resume_approval denied_service "p" "amy" (fresh "i" 10) id empty_gateway).1.calls
          ≡ empty_gateway.calls)
unfolding resolve_authorized_tool find_row
denied_calls_example =
    denied_calls service (λ t. t) (policy deny) "p" "amy" (fresh "i" 10) (request "read_log")
      read_log empty_gateway refl denied_by_rule
