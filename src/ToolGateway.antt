-- ===== src/ToolGateway.antt =====
-- backend/app/tool_gateway: the data of the gateway, the rows and methods of
-- tool_gateway/sqlalchemy_store.py, and the audit events of tool_gateway/service.py. Arguments and
-- schemas are texts; the trace span that is projected from an invocation is not modelled.
pub mod Service
pub mod Invoke
pub mod Resume
pub mod Decide
pub mod Ends
pub mod Calls
pub mod Records
pub mod Links
pub mod ResumeEnds
pub mod Approvals
pub mod Accounts
pub mod Policies
pub mod Growth
pub mod Steps
use aegis_flow.Base.{
  ℕ, String, Bool, true, false, not, ◌&&◌, Option, none, some, List, [], ◌∷◌, ◌++◌, ◌==◌, any,
  Result, ok, err, if◌then◌else◌,
}
use aegis_flow.Base.Texts.{Text}
use aegis_flow.Base.Rows.{find_row, modify}
use aegis_flow.Workflows.Types.{RiskLevel}
use aegis_flow.PolicyCenter.{Decision}

-- `ToolInvocationStatus`
pub data InvocationStatus : Type 0 where
  success failed denied pending_approval expired cancelled : InvocationStatus

pub data ToolApprovalStatus : Type 0 where
  pending approved rejected revoked expired resumed : ToolApprovalStatus

-- `ToolApprovalDecisionRead`
pub data ToolApprovalDecision : Type 0 where
  approved rejected revoked : ToolApprovalDecision

pub record ToolInvocationRequest : Type 0 where
  pub tool_ref : String
  pub arguments : Text
  pub tool_group_refs : List String
  pub workflow_ref : String
  pub agent_ref : String
  pub role_refs : List String
  pub run_id : String
  pub node_id : String
  pub trace_id : String
  pub tool_call_id : String

-- Of `AuthorizedToolRead`, what the gateway reads.
pub record AuthorizedTool : Type 0 where
  pub tool_ref : String
  pub server_ref : String
  pub tool_name : String
  pub input_schema : Text
  pub effective_risk_level : RiskLevel
  pub approval_required : Bool

-- `ToolMcpServerCredentialRead`
pub record McpServerCredential : Type 0 where
  pub server_ref : String
  pub base_url : String
  pub transport : String
  pub credential_ref_id : Option String
  pub credential_ref : String
  pub egress_allowed_hosts : List String
  pub egress_allowed_ports : List ℕ
  pub egress_proxy_mode : String
  pub egress_proxy_url : String
  pub egress_dns_pinning_required : Bool

-- A row of `ToolGatewayInvocation`.
pub record Invocation : Type 0 where
  pub id : String
  pub project_id : String
  pub actor_id : String
  pub tool_ref : String
  pub tool_name : String
  pub server_ref : String
  pub tool_group_refs : List String
  pub workflow_ref : String
  pub agent_ref : String
  pub role_refs : List String
  pub run_id : String
  pub node_id : String
  pub trace_id : String
  pub tool_call_id : String
  pub effective_risk_level : RiskLevel
  pub approval_required : Bool
  pub policy_decision : Decision
  pub status : InvocationStatus
  pub input_summary : Text
  pub output_summary : Text
  pub error_type : String
  pub error_message : Text
  pub duration_ms : ℕ
  pub credential_ref : String
  pub secret_lease_id : Option String
  pub secret_lease_ref : String
  pub updated_by : String

-- A row of `ToolGatewayApprovalTask`. The payload and the snapshot are the values they are dumped from;
-- the columns that repeat a field of these are read there.
pub record ToolApprovalTask : Type 0 where
  pub id : String
  pub project_id : String
  pub invocation_id : String
  pub requested_by : String
  pub tool_call_id : String
  pub effective_risk_level : RiskLevel
  pub status : ToolApprovalStatus
  pub decision : Option ToolApprovalDecision
  pub decision_reason : Text
  pub request_payload : ToolInvocationRequest
  pub authorized_tool_snapshot : AuthorizedTool
  pub expires_at : ℕ
  pub decided_by : Option String
  pub decided_at : Option ℕ
  pub resumed_at : Option ℕ
  pub updated_by : String

-- The result of an audit event.
pub data AuditResult : Type 0 where
  succeeded failure waiting : AuditResult

-- What `record_project_event` is given; of the metadata, what the target's id does not determine.
pub record AuditEvent : Type 0 where
  pub actor_id : String
  pub action : String
  pub target_type : String
  pub target_id : String
  pub result : AuditResult
  pub risk_level : RiskLevel

-- The arguments of `call_tool`.
pub record McpToolCall : Type 0 where
  pub server : McpServerCredential
  pub tool_name : String
  pub arguments : Text
  pub lease_ref : String

-- The rows of the store, the audit trail and the calls that were made, each in its order.
pub record Gateway : Type 0 where
  pub invocations : List Invocation
  pub approval_tasks : List ToolApprovalTask
  pub events : List AuditEvent
  pub calls : List McpToolCall

-- `ToolGatewayServiceError`, and the errors of the session that nothing catches.
pub data GatewayError : Type 0 where
  service_error : ℕ → Text → GatewayError
  integrity_error no_result_found : GatewayError

-- `uq_tool_gateway_project_call_id`
abbrev pub same_call : String → String → Invocation → Bool
same_call project_id tool_call_id i = i.project_id == project_id && i.tool_call_id == tool_call_id

unfoldable pub record_invocation : Invocation → Gateway → Result GatewayError Gateway
record_invocation i g =
    if any (same_call i.project_id i.tool_call_id) g.invocations
    then err integrity_error
    else ok (record g { invocations = g.invocations ++ i ∷ [] })

-- The columns that `update_invocation_status` is given.
pub record StatusUpdate : Type 0 where
  pub status : InvocationStatus
  pub policy_decision : Decision
  pub output_summary : Text
  pub error_type : String
  pub error_message : Text
  pub duration_ms : Option ℕ
  pub credential_ref : String
  pub secret_lease_id : Option String
  pub secret_lease_ref : String

abbrev pub is_invocation : String → String → Invocation → Bool
is_invocation project_id invocation_id i = i.project_id == project_id && i.id == invocation_id

abbrev pub with_status : String → StatusUpdate → Invocation → Invocation
with_status actor_id u i = record i {
  status = u.status;
  policy_decision = u.policy_decision;
  output_summary = u.output_summary;
  error_type = u.error_type;
  error_message = u.error_message;
  duration_ms = elim u.duration_ms [ none ↦ i.duration_ms | some d ↦ d ];
  credential_ref = if u.credential_ref == "" then i.credential_ref else u.credential_ref;
  secret_lease_id = elim u.secret_lease_id [ none ↦ i.secret_lease_id | some l ↦ some l ];
  secret_lease_ref = if u.secret_lease_ref == "" then i.secret_lease_ref else u.secret_lease_ref;
  updated_by = actor_id;
}

unfoldable pub update_invocation_status :
    String
    → String
    → String
    → StatusUpdate
    → List Invocation
    → Result GatewayError (Invocation × List Invocation)
update_invocation_status project_id invocation_id actor_id u is =
    modify no_result_found (is_invocation project_id invocation_id) (with_status actor_id u) is

abbrev pub is_tool_task : String → String → ToolApprovalTask → Bool
is_tool_task project_id approval_task_id t = t.project_id == project_id && t.id == approval_task_id

-- `uq_tool_gateway_approval_project_invocation` and `uq_tool_gateway_approval_project_call_id` hold
-- where the task is created, of an invocation that was just recorded.
unfoldable pub create_tool_approval_task : ToolApprovalTask → Gateway → Gateway
create_tool_approval_task t g = record g { approval_tasks = g.approval_tasks ++ t ∷ [] }

unfoldable pub get_tool_approval_task :
    String → String → List ToolApprovalTask → Option ToolApprovalTask
get_tool_approval_task project_id approval_task_id ts =
    find_row (is_tool_task project_id approval_task_id) ts

abbrev pub decided_status : ToolApprovalDecision → ToolApprovalStatus
decided_status ToolApprovalDecision.approved = ToolApprovalStatus.approved
decided_status ToolApprovalDecision.rejected = ToolApprovalStatus.rejected
decided_status ToolApprovalDecision.revoked = ToolApprovalStatus.revoked

abbrev pub with_decision :
    String → ToolApprovalDecision → Text → ℕ → ToolApprovalTask → ToolApprovalTask
with_decision actor_id decision reason now t = record t {
  status = decided_status decision;
  decision = some decision;
  decision_reason = reason;
  decided_by = some actor_id;
  decided_at = some now;
  updated_by = actor_id;
}

unfoldable pub decide_tool_approval_task :
    String
    → String
    → String
    → ToolApprovalDecision
    → Text
    → ℕ
    → List ToolApprovalTask
    → Result GatewayError (ToolApprovalTask × List ToolApprovalTask)
decide_tool_approval_task project_id approval_task_id actor_id decision reason now ts =
    modify no_result_found (is_tool_task project_id approval_task_id)
      (with_decision actor_id decision reason now) ts

abbrev pub as_resumed : String → ℕ → ToolApprovalTask → ToolApprovalTask
as_resumed actor_id now t = record t {
  status = resumed;
  resumed_at = some now;
  updated_by = actor_id;
}

unfoldable pub mark_tool_approval_resumed :
    String
    → String
    → String
    → ℕ
    → List ToolApprovalTask
    → Result GatewayError (ToolApprovalTask × List ToolApprovalTask)
mark_tool_approval_resumed project_id approval_task_id actor_id now ts =
    modify no_result_found (is_tool_task project_id approval_task_id) (as_resumed actor_id now) ts

-- `_record_audit_event`
unfoldable pub audit_invocation : String → String → AuditResult → Invocation → Gateway → Gateway
audit_invocation actor_id action result i g = record g {
  events =
      g.events
      ++ record {
        actor_id = actor_id;
        action = action;
        target_type = "tool_gateway_invocation";
        target_id = i.id;
        result = result;
        risk_level = i.effective_risk_level;
      }
        ∷ [];
}

-- `_record_approval_audit_event`
unfoldable pub audit_approval : String → String → AuditResult → ToolApprovalTask → Gateway → Gateway
audit_approval actor_id action result t g = record g {
  events =
      g.events
      ++ record {
        actor_id = actor_id;
        action = action;
        target_type = "tool_gateway_approval_task";
        target_id = t.id;
        result = result;
        risk_level = t.effective_risk_level;
      }
        ∷ [];
}
