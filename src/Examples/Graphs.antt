-- ===== src/Examples/Graphs.antt =====
-- The theorems on graphs and on compiled workflows at concrete workflows.
use aegis_flow.Base.{String, true, false, none, some, [], ◌∷◌, ◌≡◌, refl, ◌↔◌, In, Result, ok, err}
use aegis_flow.Base.Decimals.{show}
use aegis_flow.Base.Dicts.{get, put}
use aegis_flow.Workflows.Types.{
  published, DslError, unreachable_node, loop, EdgeDefinition, WorkflowDefinition,
}
use aegis_flow.Workflows.Graph.{
  validate_graph, validate_structure, validate_edges, validate_edge, validate_condition_edge,
  declares_handle, validate_reachability, explore, require_reachable, outgoing, nodes_by_id,
  targets_of, visit, visit_all,
}
use aegis_flow.Workflows.Graph.Valid.{IsValidGraph, validate_graph_returns, validate_graph_iff}
use aegis_flow.WorkflowRuntime.Compiler.{
  graph_start, graph_end, node, add_node, add_edge, add_conditional_edges, CompiledWorkflow,
  compile_workflow_version, require_supported, first_start, connect_node, connect_nodes,
  add_sequence_edges, condition_path_map, path_map_from, sequence_edges_from,
}
use aegis_flow.WorkflowRuntime.Compiler.Prefix.{remove_prefix}
use aegis_flow.WorkflowRuntime.Compiler.Calls.{Wires, compile_edges_iff}
use aegis_flow.WorkflowRuntime.Compiler.Returns.{Branches, compile_workflow_version_returns}
use aegis_flow.Base.{subst, sym, inl, inr}
use aegis_flow.Workflows.Types.{is_condition, EdgeKind, NodeDefinition}
use aegis_flow.WorkflowRuntime.Compiler.{is_condition_edge}
use aegis_flow.WorkflowRuntime.Compiler.Routes.{condition_path_map_lem}
use aegis_flow.Base.Dicts.{Dict}
use aegis_flow.Workflows.Types.{ConditionNodeData, condition_data}
use aegis_flow.Examples.{check_node, edge, start_node, branching, disconnected}

validate_graph_iff_example : (validate_graph branching ≡ some (ok tt)) ↔ IsValidGraph branching
validate_graph_iff_example = validate_graph_iff branching

validate_graph_returns_example :
    (r : Result DslError (Unit {0})) × (validate_graph disconnected ≡ some r)
validate_graph_returns_example = validate_graph_returns disconnected

-- The run itself: the branching workflow is accepted, the disconnected one is not.
accepts_branching : validate_graph branching ≡ some (ok tt)
unfolding validate_graph validate_structure validate_edges validate_edge validate_condition_edge
    declares_handle validate_reachability explore require_reachable outgoing nodes_by_id targets_of
    visit visit_all put get
accepts_branching = refl

rejects_disconnected : validate_graph disconnected ≡ some (err (unreachable_node "lost"))
unfolding validate_graph validate_structure validate_edges validate_edge validate_condition_edge
    declares_handle validate_reachability explore require_reachable outgoing nodes_by_id targets_of
    visit visit_all put get
rejects_disconnected = refl

abbrev doubled : WorkflowDefinition
doubled = record disconnected { nodes = start_node ∷ disconnected.nodes }

abbrev bare_loop : EdgeDefinition
bare_loop = record {
  source = "deploy";
  target = "check";
  source_handle = none;
  target_handle = none;
  kind = loop;
  loop = none;
}

-- What the compiler makes of the branching workflow.
abbrev compiled : CompiledWorkflow
compiled = record {
  workflow = branching;
  workflow_ref = "flow:3";
  supported_node_ids = "begin" ∷ "check" ∷ "deploy" ∷ "finish" ∷ [];
  calls =
      add_node "begin"
      ∷ add_node "check"
      ∷ add_node "deploy"
      ∷ add_node "finish"
      ∷ add_edge graph_start (node "begin")
      ∷ add_edge (node "begin") (node "check")
      ∷ add_conditional_edges "check" ((("yes", "deploy") ∷ ("no", "finish") ∷ []))
      ∷ add_edge (node "deploy") (node "finish")
      ∷ add_edge (node "finish") graph_end
      ∷ [];
}

compiles_branching : compile_workflow_version published branching ≡ ok compiled
unfolding compile_workflow_version require_supported first_start connect_node connect_nodes
    add_sequence_edges condition_path_map path_map_from sequence_edges_from nodes_by_id show
    remove_prefix put get
compiles_branching = refl

compile_edges_iff_example :
    In (add_edge (node "deploy") (node "finish")) compiled.calls ↔ Wires branching "deploy" "finish"
compile_edges_iff_example =
    compile_edges_iff published branching compiled "deploy" "finish" compiles_branching

branching-Branches : (n : NodeDefinition) → In n branching.nodes → Branches branching.edges n
branching-Branches n (inl e) = inl (subst (λ x. is_condition x.type ≡ false) (sym e) refl)
branching-Branches n (inr (inl e)) = subst (Branches branching.edges) (sym e) (
    inr
      (edge "check" "deploy" (some "case:yes") EdgeKind.condition, (inr (inl refl), (refl, refl))))
branching-Branches n (inr (inr (inl e))) =
    inl (subst (λ x. is_condition x.type ≡ false) (sym e) refl)
branching-Branches n (inr (inr (inr (inl e)))) =
    inl (subst (λ x. is_condition x.type ≡ false) (sym e) refl)
branching-Branches n (inr (inr (inr (inr m)))) = absurd m

compile_workflow_version_returns_example :
    (c : CompiledWorkflow) × (compile_workflow_version published branching ≡ ok c)
compile_workflow_version_returns_example =
    compile_workflow_version_returns branching ((validate_graph_iff branching).0 accepts_branching)
      refl branching-Branches

abbrev routes : Dict String
routes = ("yes", "deploy") ∷ ("no", "finish") ∷ []

maps_check : condition_path_map branching.edges "check" ≡ ok routes
unfolding condition_path_map path_map_from remove_prefix put
maps_check = refl

finds_yes : get "yes" routes ≡ some "deploy"
unfolding get
finds_yes = refl

condition_path_map_lem_example :
    ((d : ConditionNodeData) × ((check_node.node_data ≡ condition_data d) × In "yes" d.cases))
    × ((e : EdgeDefinition) × (In e branching.edges
          × ((e.source ≡ "check") × ((is_condition_edge e.kind ≡ true) × (e.target ≡ "deploy")))))
condition_path_map_lem_example =
    condition_path_map_lem branching ((validate_graph_iff branching).0 accepts_branching) check_node
      routes "yes" "deploy" (inr (inl refl)) refl maps_check finds_yes
