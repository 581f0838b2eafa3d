-- ===== src/ToolGateway/Service.antt =====
-- tool_gateway/service.py: the service and what both of its methods use. The registry, the evaluator of approval policies,
-- jsonschema and the client of MCP servers are the fields of the service; ids, times and durations,
-- which the session and the clocks give, are those of `Fresh`.
use aegis_flow.Base.{
  ℕ, String, Bool, ◌||◌, Option, none, some, List, ◌++◌, ◌==◌, take, length, ltb, Result,
  if◌then◌else◌,
}
use aegis_flow.Base.Texts.{Text, codes}
use aegis_flow.Base.Rows.{find_row}
use aegis_flow.Workflows.Impact.{is_high_risk}
use aegis_flow.PolicyCenter.{
  Decision, allowed, approval_required, tool_invocation, DecisionRequest, DecisionResult,
}
use aegis_flow.ToolGateway.{
  InvocationStatus, ToolInvocationRequest, AuthorizedTool, McpServerCredential, Invocation,
  ToolApprovalTask, AuditResult, succeeded, failure, McpToolCall, Gateway, GatewayError,
  StatusUpdate,
}

pub record SecretLease : Type 0 where
  pub id : String
  pub lease_ref : String

-- `McpToolCallResult`, with its contents as one text.
pub record ToolCallResult : Type 0 where
  pub content : Text
  pub is_error : Bool

-- A `McpToolCallError`: its class and its text.
pub record McpToolCallError : Type 0 where
  pub class_name : String
  pub message : Text

-- The collaborators of the service. `validation_error` is the message of jsonschema's error, and
-- `sanitize` is `sanitize_mcp_error_message`.
pub record ToolGatewayService : Type 0 where
  pub resolve_authorized_tools : String → ToolInvocationRequest → List AuthorizedTool
  pub validation_error : Text → Text → Option Text
  pub approval_evaluator : Option (DecisionRequest → DecisionResult)
  pub get_mcp_server_credential_for_tool : String → String → Option McpServerCredential
  pub create_secret_lease : String → String → AuthorizedTool → Option SecretLease
  pub call_tool : McpToolCall → Result McpToolCallError ToolCallResult
  pub sanitize : Text → Text

pub record Fresh : Type 0 where
  pub invocation_id : String
  pub tool_call_id : String
  pub approval_task_id : String
  pub duration_ms : ℕ
  pub now : ℕ

-- `_build_invocation_response` copies the columns of the invocation.
pub record ToolInvocationResponse : Type 0 where
  pub invocation : Invocation
  pub result : Option ToolCallResult
  pub approval_task : Option ToolApprovalTask

abbrev pub Invoked : Type 0
Invoked = Result GatewayError ToolInvocationResponse × Gateway

-- What is recorded of an invocation that ends before its tool is called.
abbrev pub stopped_with : InvocationStatus → Decision → String → String → Text → StatusUpdate
stopped_with status decision summary error_type message = record {
  status = status;
  policy_decision = decision;
  output_summary = codes summary;
  error_type = error_type;
  error_message = message;
  duration_ms = none;
  credential_ref = "";
  secret_lease_id = none;
  secret_lease_ref = "";
}

abbrev pub inactive_credential : McpServerCredential → StatusUpdate
inactive_credential server =
    record (stopped_with InvocationStatus.failed allowed
      "MCP server credential reference is inactive" "credential_reference_inactive"
      (codes "MCP server credential reference is inactive")) {
        credential_ref = server.credential_ref;
      }

abbrev pub called : McpServerCredential → Option SecretLease → StatusUpdate → StatusUpdate
called server lease u = record u {
  credential_ref = server.credential_ref;
  secret_lease_id = elim lease [ none ↦ none | some l ↦ some l.id ];
  secret_lease_ref = elim lease [ none ↦ "" | some l ↦ l.lease_ref ];
}

abbrev pub call_status : ToolCallResult → InvocationStatus
call_status r = if r.is_error then InvocationStatus.failed else InvocationStatus.success

abbrev pub call_audit : ToolCallResult → AuditResult
call_audit r = if r.is_error then failure else succeeded

-- `_requires_approval`
abbrev pub requires_approval : AuthorizedTool → Bool
requires_approval tool = tool.approval_required || is_high_risk tool.effective_risk_level

abbrev pub policy_request : ToolInvocationRequest → AuthorizedTool → DecisionRequest
policy_request request tool = record {
  target_kind = tool_invocation;
  target_ref = tool.tool_ref;
  risk_level = tool.effective_risk_level;
  policy_ref = "default";
  tool_group_refs = request.tool_group_refs;
  tool_ref = tool.tool_ref;
  shell_template_ref = "";
  model_policy_ref = "";
  environment_key = "";
  default_approval_required = tool.approval_required;
}

module _ (service : ToolGatewayService) where
  -- `_resolve_authorized_tool`: the first of the tools resolved whose ref is that of the request.
  unfoldable pub resolve_authorized_tool : String → ToolInvocationRequest → Option AuthorizedTool
  resolve_authorized_tool project_id request =
      find_row (λ t. t.tool_ref == request.tool_ref)
        (service.resolve_authorized_tools project_id request)

  -- `_evaluate_approval_policy`
  unfoldable pub evaluate_approval_policy : ToolInvocationRequest → AuthorizedTool → DecisionResult
  evaluate_approval_policy request tool = elim service.approval_evaluator [
    | some evaluate_and_record ↦ evaluate_and_record (policy_request request tool)
    | none ↦ record {
      decision = if requires_approval tool then approval_required else allowed;
      policy_ref = "default";
      policy_version = none;
      rule_ref = "legacy_tool_default";
      target_type = tool_invocation;
      target_ref = tool.tool_ref;
      risk_level = tool.effective_risk_level;
      approval_required_flag = requires_approval tool;
      reason_summary = codes "legacy tool approval default";
    }
  ]

  unfoldable pub summarize_payload : Text → Text
  summarize_payload payload =
      let sanitized = service.sanitize payload in
      if ltb 500 (length sanitized) then take 500 sanitized ++ codes "..." else sanitized

  abbrev pub tool_call :
      McpServerCredential
      → AuthorizedTool
      → ToolInvocationRequest
      → Option SecretLease
      → McpToolCall
  tool_call server tool request lease = record {
    server = server;
    tool_name = tool.tool_name;
    arguments = request.arguments;
    lease_ref = elim lease [ none ↦ "" | some l ↦ l.lease_ref ];
  }
