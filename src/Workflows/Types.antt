-- ===== src/Workflows/Types.antt =====
-- backend/app/workflows/dsl.py: the models of a workflow document. Fields that hold free JSON
-- (`parameters`, the schemas), floats (`position`, `temperature`), labels, the retry policy of a node,
-- the condition text of an edge, the declared inputs and the policies of a document are read by no
-- operation of the library and are left out.
use aegis_flow.Base.{ℕ, String, Bool, true, false, Option, List}

pub data NodeType : Type 0 where
  start end llm condition agent mcp_tool http shell human_approval : NodeType

pub data RiskLevel : Type 0 where
  low medium high critical : RiskLevel

pub data WorkflowStatus : Type 0 where
  draft published archived : WorkflowStatus

pub data EdgeKind : Type 0 where
  sequence condition parallel loop resume : EdgeKind

pub record WorkflowMetadata : Type 0 where
  pub id : String
  pub name : String
  pub project_id : String
  pub version : ℕ
  pub status : WorkflowStatus

pub record AgentBudget : Type 0 where
  pub max_iterations : ℕ
  pub max_tool_calls : ℕ
  pub max_runtime_seconds : ℕ

pub record AgentNodeData : Type 0 where
  pub goal : String
  pub tool_groups : List String
  pub autonomy_level : ℕ
  pub budget : AgentBudget

pub record LlmNodeData : Type 0 where
  pub model_policy_ref : String
  pub prompt_template_ref : String
  pub system_prompt : String
  pub user_prompt : String
  pub prompt_version : String
  pub max_tokens : Option ℕ

pub record ConditionNodeData : Type 0 where
  pub expression : String
  pub cases : List String

pub record McpToolNodeData : Type 0 where
  pub mcp_server_ref : String
  pub tool_group_ref : String
  pub tool_name : String
  pub environment : String
  pub approval_required : Bool

pub record HttpNodeData : Type 0 where
  pub action_ref : String
  pub method : String
  pub url : String
  pub tool_group_ref : String
  pub environment : String
  pub egress_profile_ref : String
  pub approval_required : Bool

pub record ShellNodeData : Type 0 where
  pub template_ref : String
  pub template_version : ℕ
  pub environment : String
  pub approval_required : Bool

pub record HumanApprovalNodeData : Type 0 where
  pub approval_policy_ref : String
  pub message_template : String

-- The union `NodeData`; `no_data` is its `None`.
pub data NodeData : Type 0 where
  agent_data : AgentNodeData → NodeData
  llm_data : LlmNodeData → NodeData
  condition_data : ConditionNodeData → NodeData
  mcp_tool_data : McpToolNodeData → NodeData
  http_data : HttpNodeData → NodeData
  shell_data : ShellNodeData → NodeData
  human_approval_data : HumanApprovalNodeData → NodeData
  no_data : NodeData

pub record NodeDefinition : Type 0 where
  pub id : String
  pub name : String
  pub type : NodeType
  pub node_data : NodeData
  pub risk_level : RiskLevel
  pub tool_group_refs : List String
  pub approval_policy_ref : String

pub record LoopEdgeData : Type 0 where
  pub max_iterations : ℕ
  pub while_expression : String
  pub item_path : String

pub record EdgeDefinition : Type 0 where
  pub source : String
  pub target : String
  pub source_handle : Option String
  pub target_handle : Option String
  pub kind : EdgeKind
  pub loop : Option LoopEdgeData

pub record WorkflowDefinition : Type 0 where
  pub workflow : WorkflowMetadata
  pub nodes : List NodeDefinition
  pub edges : List EdgeDefinition

-- The `ValueError`s that the validators of the models raise.
pub data DslError : Type 0 where
  node_id_pattern prompt_source_required : DslError
  requires_data : NodeType → DslError
  loop_requires_config loop_config_not_allowed condition_requires_handle : DslError
  duplicate_node_id start_count no_end_node : DslError
  unknown_source unknown_target : String → DslError
  targets_start starts_from_end condition_requires_cases handle_not_declared : DslError
  unreachable_node : String → DslError

pub NodeType-discrete : Discrete NodeType
NodeType-discrete = hlevel

abbrev pub is_start : NodeType → Bool
is_start start = true
is_start _ = false

abbrev pub is_end : NodeType → Bool
is_end end = true
is_end _ = false

abbrev pub is_condition : NodeType → Bool
is_condition NodeType.condition = true
is_condition _ = false
