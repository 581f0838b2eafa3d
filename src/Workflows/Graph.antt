-- ===== src/Workflows/Graph.antt =====
-- backend/app/workflows/dsl.py: `WorkflowDefinition.validate_graph` and its helpers. The loop over
-- the frontier takes fuel, one unit a round; SearchState shows that one unit for each node is enough.
pub mod Search
pub mod Index
pub mod Outgoing
pub mod Edges
pub mod Accepts
pub mod Valid
pub mod Errors
use mathlib.Core.Option
use aegis_flow.Base.{
  ℕ, zero, suc, String, Bool, false, not, Option, none, some, List, [], ◌∷◌, ◌++◌, ◌==◌, Result, ok,
  err, ◌>>=◌, ◌>>◌, raise_if, if◌then◌else◌, length, any, keep, elem, eqb, str_append,
}
use aegis_flow.Base.Dicts.{Dict, get, put, keys}
use aegis_flow.Workflows.Types.{
  is_start, is_end, is_condition, condition_data, NodeDefinition, EdgeDefinition,
  WorkflowDefinition, DslError, duplicate_node_id, start_count, no_end_node, unknown_source,
  unknown_target, targets_start, starts_from_end, condition_requires_cases, handle_not_declared,
  unreachable_node,
}

-- `{node.id: node for node in nodes}`, added to the entries of `d`.
index_from : Dict NodeDefinition → List NodeDefinition → Dict NodeDefinition
index_from d [] = d
index_from d (n ∷ ns) = index_from (put n.id n d) ns

unfoldable pub nodes_by_id : List NodeDefinition → Dict NodeDefinition
unfolding index_from
nodes_by_id = index_from []

-- `edge.source_handle in {f"case:{case}" for case in cases}`
unfoldable pub declares_handle : List String → Option String → Bool
declares_handle cases none = false
declares_handle cases (some handle) = any (λ case. str_append "case:" case == handle) cases

unfoldable pub validate_condition_edge :
    NodeDefinition → EdgeDefinition → Result DslError (Unit {0})
unfolding declares_handle
validate_condition_edge source e = elim source.node_data [
  | condition_data d ↦ raise_if (not (declares_handle d.cases e.source_handle)) handle_not_declared
  | _ ↦ err condition_requires_cases
]

-- The body of the loop over the edges. A lookup that finds nothing raises first, so the branches
-- below it have both nodes.
unfoldable pub validate_edge : Dict NodeDefinition → EdgeDefinition → Result DslError (Unit {0})
unfolding validate_condition_edge
validate_edge by_id e = elim (get e.source by_id) [
  | none ↦ err (unknown_source e.source)
  | some source ↦ elim (get e.target by_id) [
    | none ↦ err (unknown_target e.target)
    | some target ↦ do
      raise_if (is_start target.type) targets_start
      raise_if (is_end source.type) starts_from_end
      if is_condition source.type then validate_condition_edge source e else ok tt
  ]
]

unfoldable pub validate_edges :
    Dict NodeDefinition → List EdgeDefinition → Result DslError (Unit {0})
unfolding validate_edge
validate_edges by_id [] = ok tt
validate_edges by_id (e ∷ es) = validate_edge by_id e >>= λ _. validate_edges by_id es

-- `outgoing[source].append(target)`, where the key is there.
append_at : String → String → Dict (List String) → Dict (List String)
append_at k t [] = []
append_at k t ((j, ts) ∷ d) = if j == k then (j, ts ++ t ∷ []) ∷ d else (j, ts) ∷ append_at k t d

link_edges : List EdgeDefinition → Dict (List String) → Dict (List String)
unfolding append_at
link_edges [] d = d
link_edges (e ∷ es) d = link_edges es (append_at e.source e.target d)

-- `{node_id: [] for node_id in nodes_by_id}`
no_targets : List String → Dict (List String)
no_targets [] = []
no_targets (k ∷ ks) = (k, []) ∷ no_targets ks

unfoldable pub outgoing : List String → List EdgeDefinition → Dict (List String)
unfolding link_edges no_targets
outgoing ids es = link_edges es (no_targets ids)

-- `outgoing[current]`
unfoldable pub targets_of : Dict (List String) → String → List String
targets_of out current = elim (get current out) [ none ↦ [] | some ts ↦ ts ]

-- `reachable` and `frontier`; the end of the Python list, where `pop` takes, is the head here.
pub record SearchState : Type 0 where
  pub reachable : List String
  pub frontier : List String

-- The body of the loop over the targets.
unfoldable pub visit : String → SearchState → SearchState
visit target s =
    if elem target s.reachable
    then s
    else record { reachable = target ∷ s.reachable; frontier = target ∷ s.frontier }

unfoldable pub visit_all : List String → SearchState → SearchState
unfolding visit
visit_all [] s = s
visit_all (t ∷ ts) s = visit_all ts (visit t s)

-- The `while frontier` loop; `none` means that the fuel ran out.
unfoldable pub explore : (String → List String) → ℕ → SearchState → Option (List String)
unfolding visit_all
explore targets zero s = elim s.frontier [ [] ↦ some s.reachable | _ ∷ _ ↦ none ]
explore targets (suc fuel) s = elim s.frontier [
  | [] ↦ some s.reachable
  | current ∷ rest ↦
      explore targets fuel (visit_all (targets current) (record s { frontier = rest }))
]

unfoldable pub require_reachable : List String → List String → Result DslError (Unit {0})
require_reachable reachable [] = ok tt
require_reachable reachable (k ∷ ks) =
    if elem k reachable then require_reachable reachable ks else err (unreachable_node k)

-- `none` is the fuel of the loop running out, which no input does.
unfoldable pub validate_reachability :
    String → List String → List EdgeDefinition → Option (Result DslError (Unit {0}))
unfolding outgoing targets_of explore require_reachable
validate_reachability start_id ids es =
    Option.map (λ reachable. require_reachable reachable ids)
      (explore (targets_of (outgoing ids es)) (length ids)
        (record { reachable = start_id ∷ []; frontier = start_id ∷ [] }))

abbrev pub start_nodes : List NodeDefinition → List NodeDefinition
start_nodes = keep (λ n. is_start n.type)

-- `len(start_nodes) != 1` raises; otherwise `start_nodes[0].id`.
only_start : List NodeDefinition → Result DslError String
only_start (n ∷ []) = ok n.id
only_start _ = err start_count

-- The checks before the search; the result is the id of the start node.
unfoldable pub validate_structure : WorkflowDefinition → Result DslError String
unfolding nodes_by_id only_start validate_edges
validate_structure w = do
  let by_id = nodes_by_id w.nodes
  raise_if (not (eqb (length by_id) (length w.nodes))) duplicate_node_id
  start_id ← only_start (start_nodes w.nodes)
  raise_if (not (any (λ n. is_end n.type) w.nodes)) no_end_node
  validate_edges by_id w.edges
  ok start_id

unfoldable pub validate_graph : WorkflowDefinition → Option (Result DslError (Unit {0}))
unfolding validate_structure validate_reachability nodes_by_id
validate_graph w = elim (validate_structure w) [
  | ok start_id ↦ validate_reachability start_id (keys (nodes_by_id w.nodes)) w.edges
  | err e ↦ some (err e)
]
