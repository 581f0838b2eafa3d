-- ===== src/WorkflowRuntime/Compiler.antt =====
-- backend/app/workflow_runtime/compiler.py. The builder of LangGraph is the list of the calls that
-- the compiler makes on it; what LangGraph makes of them is not modelled.
pub mod Prefix
pub mod Calls
pub mod Returns
pub mod Routes
use aegis_flow.Base.{
  ℕ, String, str_append, Bool, true, false, not, ◌||◌, ◌&&◌, Option, none, some, List, [], ◌∷◌,
  ◌++◌, map, ◌==◌, Result, ok, err, ◌>>=◌, ◌>>◌, raise_if, if◌then◌else◌, keep, is_empty, all,
}
use aegis_flow.Base.Decimals.{show}
use aegis_flow.Base.Dicts.{Dict, get, put}
use aegis_flow.Workflows.Types.{
  NodeType, start, end, llm, agent, mcp_tool, http, shell, human_approval, is_start, is_end,
  is_condition, NodeDefinition, EdgeKind, sequence, parallel, loop, resume, EdgeDefinition,
  WorkflowDefinition, WorkflowStatus, draft, published, archived,
}
use aegis_flow.Workflows.Graph.{nodes_by_id, start_nodes}
use aegis_flow.WorkflowRuntime.Compiler.Prefix.{remove_prefix}

-- `START`, `END` and the nodes between them.
pub data Endpoint : Type 0 where
  graph_start graph_end : Endpoint
  node : String → Endpoint

pub data Call : Type 0 where
  add_node : String → Call
  add_edge : Endpoint → Endpoint → Call
  add_conditional_edges : String → Dict String → Call

pub data CompileError : Type 0 where
  not_published no_start_node : CompileError
  unsupported_type : NodeType → CompileError
  no_condition_edges missing_source_handle missing_node : String → CompileError

abbrev pub is_published : WorkflowStatus → Bool
is_published published = true
is_published _ = false

-- `SUPPORTED_NODE_TYPES`
abbrev is_supported : NodeType → Bool
is_supported start = true
is_supported agent = true
is_supported llm = true
is_supported NodeType.condition = true
is_supported mcp_tool = true
is_supported http = true
is_supported shell = true
is_supported human_approval = true
is_supported end = true

-- `edge.kind in {"sequence", "resume"}`
abbrev pub is_sequence : EdgeKind → Bool
is_sequence sequence = true
is_sequence resume = true
is_sequence _ = false

abbrev pub is_condition_edge : EdgeKind → Bool
is_condition_edge EdgeKind.condition = true
is_condition_edge _ = false

unfoldable pub sequence_edges_from : List EdgeDefinition → String → List EdgeDefinition
sequence_edges_from es node_id = keep (λ e. e.source == node_id && is_sequence e.kind) es

abbrev pub condition_edges_from : List EdgeDefinition → String → List EdgeDefinition
condition_edges_from es node_id = keep (λ e. e.source == node_id && is_condition_edge e.kind) es

-- The loop that fills `path_map`.
unfoldable pub path_map_from :
    String → List EdgeDefinition → Dict String → Result CompileError (Dict String)
path_map_from node_id [] paths = ok paths
path_map_from node_id (e ∷ es) paths = elim e.source_handle [
  | none ↦ err (missing_source_handle node_id)
  | some handle ↦ path_map_from node_id es (put (remove_prefix "case:" handle) e.target paths)
]

unfoldable pub condition_path_map : List EdgeDefinition → String → Result CompileError (Dict String)
unfolding path_map_from
condition_path_map es node_id =
    let found = condition_edges_from es node_id in
    if is_empty found then err (no_condition_edges node_id) else path_map_from node_id found []

-- `nodes_by_id[node_id]`
abbrev pub lookup_node : Dict NodeDefinition → String → Result CompileError NodeDefinition
lookup_node by_id node_id = elim (get node_id by_id) [
  | none ↦ err (missing_node node_id)
  | some n ↦ ok n
]

-- `nodes_by_id[edge.target]` raises where the node is not there; both branches of the test on its
-- type add the same edge.
unfoldable pub add_sequence_edges :
    Dict NodeDefinition → String → List EdgeDefinition → Result CompileError (List Call)
add_sequence_edges by_id node_id [] = ok []
add_sequence_edges by_id node_id (e ∷ es) = do
  target ← lookup_node by_id e.target
  calls ← add_sequence_edges by_id node_id es
  let call =
      if is_end target.type
      then add_edge (node node_id) (node target.id)
      else add_edge (node node_id) (node e.target)
  ok (call ∷ calls)

-- The body of the loop over the nodes.
unfoldable pub connect_node :
    Dict NodeDefinition → List EdgeDefinition → NodeDefinition → Result CompileError (List Call)
connect_node by_id es n =
    if is_condition n.type
    then (do paths ← condition_path_map es n.id; ok (add_conditional_edges n.id paths ∷ []))
    else add_sequence_edges by_id n.id (sequence_edges_from es n.id)

unfoldable pub connect_nodes :
    Dict NodeDefinition
    → List EdgeDefinition
    → List NodeDefinition
    → Result CompileError (List Call)
connect_nodes by_id es [] = ok []
connect_nodes by_id es (n ∷ ns) = do
  calls ← connect_node by_id es n
  rest ← connect_nodes by_id es ns
  ok (calls ++ rest)

-- `next(node for node in nodes if node.type == "start")`
unfoldable pub first_start : List NodeDefinition → Result CompileError NodeDefinition
first_start ns = elim (start_nodes ns) [ [] ↦ err no_start_node | n ∷ _ ↦ ok n ]

unfoldable pub require_supported : List NodeDefinition → Result CompileError (Unit {0})
require_supported [] = ok tt
require_supported (n ∷ ns) =
    if is_supported n.type then require_supported ns else err (unsupported_type n.type)

pub record CompiledWorkflow : Type 0 where
  pub workflow : WorkflowDefinition
  pub workflow_ref : String
  pub supported_node_ids : List String
  pub calls : List Call

-- The nodes, the edge from `START`, the calls of the loop and the edges to `END`.
abbrev pub builder_calls : WorkflowDefinition → NodeDefinition → List Call → List Call
builder_calls w first calls =
    map (λ n. add_node n.id) w.nodes
    ++ (add_edge graph_start (node first.id)
        ∷ (calls ++ map (λ n. add_edge (node n.id) graph_end) (keep (λ n. is_end n.type) w.nodes)))

-- The status of the version, and its definition.
unfoldable pub compile_workflow_version :
    WorkflowStatus → WorkflowDefinition → Result CompileError CompiledWorkflow
compile_workflow_version status w = do
  raise_if (not (is_published status) || not (is_published w.workflow.status)) not_published
  require_supported w.nodes
  first ← first_start w.nodes
  calls ← connect_nodes (nodes_by_id w.nodes) w.edges w.nodes
  ok (record {
    workflow = w;
    workflow_ref = str_append w.workflow.id (str_append ":" (show w.workflow.version));
    supported_node_ids = map (λ n. n.id) w.nodes;
    calls = builder_calls w first calls;
  })
