-- ===== src/Examples.antt =====
-- Workflows, rows and policies at which the theorems are applied, and the tests of the model.
mod Graphs
mod Imports
mod Queues
mod Tools
mod Versions
mod Egress
mod Runners
mod Policies
mod Commands
mod Failures
mod Accounts
mod Approvals
use aegis_flow.Base.{ℕ, String, true, Option, none, some, List, [], ◌∷◌}
use aegis_flow.Workflows.Types.{
  NodeType, start, end, shell, RiskLevel, low, high, WorkflowStatus, published, WorkflowMetadata,
  ShellNodeData, ConditionNodeData, NodeData, shell_data, condition_data, no_data, NodeDefinition,
  EdgeKind, sequence, EdgeDefinition, WorkflowDefinition,
}

abbrev plain_node : String → NodeType → NodeData → RiskLevel → NodeDefinition
plain_node id type data' risk = record {
  id = id;
  name = id;
  type = type;
  node_data = data';
  risk_level = risk;
  tool_group_refs = [];
  approval_policy_ref = "";
}

abbrev pub edge : String → String → Option String → EdgeKind → EdgeDefinition
edge source target handle kind = record {
  source = source;
  target = target;
  source_handle = handle;
  target_handle = none;
  kind = kind;
  loop = none;
}

abbrev check_data : NodeData
check_data = condition_data (record { expression = "outputs.ok"; cases = "yes" ∷ "no" ∷ [] })

abbrev deploy_data : NodeData
deploy_data = shell_data (record {
  template_ref = "restart";
  template_version = 2;
  environment = "prod";
  approval_required = true;
})

abbrev pub start_node : NodeDefinition
start_node = plain_node "begin" start no_data low

abbrev pub end_node : NodeDefinition
end_node = plain_node "finish" end no_data low

abbrev pub check_node : NodeDefinition
check_node = plain_node "check" NodeType.condition check_data low

abbrev pub metadata : WorkflowMetadata
metadata = record { id = "flow"; name = "Flow"; project_id = "p"; version = 3; status = published }

-- A condition node that leads to a shell node or to the end.
abbrev pub branching : WorkflowDefinition
branching = record {
  workflow = metadata;
  nodes = start_node ∷ check_node ∷ plain_node "deploy" shell deploy_data high ∷ end_node ∷ [];
  edges =
      edge "begin" "check" none sequence
      ∷ edge "check" "deploy" (some "case:yes") EdgeKind.condition
      ∷ edge "check" "finish" (some "case:no") EdgeKind.condition
      ∷ edge "deploy" "finish" none sequence
      ∷ [];
}

-- A workflow whose node `lost` nothing leads to.
abbrev pub disconnected : WorkflowDefinition
disconnected = record {
  workflow = metadata;
  nodes = start_node ∷ plain_node "lost" shell deploy_data low ∷ end_node ∷ [];
  edges = edge "begin" "finish" none sequence ∷ edge "lost" "finish" none sequence ∷ [];
}
