-- ===== src/Workflows/PublishGate.antt =====
-- backend/app/workflows/publish_gate.py: the blockers of a publish.
use aegis_flow.Base.{
  String, str_append, Bool, true, false, not, List, [], ◌∷◌, ◌++◌, map, any, all, if◌then◌else◌,
}
use aegis_flow.Base.Texts.{codes, is_space}
use aegis_flow.Workflows.Types.{NodeDefinition, human_approval_data, WorkflowDefinition}
use aegis_flow.Workflows.YamlIo.{
  ResourceReferenceType, tool_group, mcp_server, shell_template, environment,
  WorkflowImportAnalysis,
}

pub data Severity : Type 0 where
  blocker warning : Severity

abbrev is_blocker : Severity → Bool
is_blocker blocker = true
is_blocker warning = false

pub record WorkflowPublishGateReason : Type 0 where
  pub code : String
  pub message : String
  pub severity : Severity
  pub reference_type : String
  pub reference : String

pub record WorkflowPublishGateResult : Type 0 where
  pub can_publish : Bool
  pub reasons : List WorkflowPublishGateReason

abbrev kind_name : ResourceReferenceType → String
kind_name tool_group = "tool_group"
kind_name mcp_server = "mcp_server"
kind_name shell_template = "shell_template"
kind_name environment = "environment"

unfoldable pub missing_reference_reasons : WorkflowImportAnalysis → List WorkflowPublishGateReason
missing_reference_reasons a =
    map
      (λ m. record {
        code = "missing_reference";
        message =
            str_append "Missing "
              (str_append (kind_name m.reference_type) (str_append ": " m.reference));
        severity = blocker;
        reference_type = kind_name m.reference_type;
        reference = m.reference;
      })
      a.missing_references

-- `s.strip()` is empty.
unfoldable pub is_blank : String → Bool
is_blank s = all is_space (codes s)

abbrev pub names_policy : NodeDefinition → Bool
names_policy n = if not (is_blank n.approval_policy_ref) then true else elim n.node_data [
  | human_approval_data d ↦ not (is_blank d.approval_policy_ref)
  | _ ↦ false
]

-- The loop that returns at the first node with a policy.
unfoldable pub has_approval_policy_reference : List NodeDefinition → Bool
has_approval_policy_reference [] = false
has_approval_policy_reference (n ∷ ns) =
    if names_policy n then true else has_approval_policy_reference ns

unfoldable pub approval_policy_reasons :
    WorkflowDefinition → WorkflowImportAnalysis → List WorkflowPublishGateReason
approval_policy_reasons w a =
    if not a.permission_impact.approval_required
    then []
    else if has_approval_policy_reference w.nodes
    then []
    else record {
      code = "approval_policy_required";
      message = "Workflow requires an approval policy reference before publish.";
      severity = blocker;
      reference_type = "approval_policy";
      reference = "workflow";
    }
      ∷ []

unfoldable pub evaluate_workflow_publish_gate :
    WorkflowDefinition → WorkflowImportAnalysis → WorkflowPublishGateResult
unfolding missing_reference_reasons approval_policy_reasons
evaluate_workflow_publish_gate w a =
    let reasons = missing_reference_reasons a ++ approval_policy_reasons w a in
    record { can_publish = not (any (λ r. is_blocker r.severity) reasons); reasons = reasons }
