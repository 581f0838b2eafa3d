-- ===== src/Workflows/Graph/Errors.antt =====
-- What the errors of `validate_graph` say of the document.
use aegis_flow.Base.{
  String, Bool, true, false, some, List, [], ◌∷◌, ◌≡◌, refl, ◌↔◌, inl, inr, arith, In, Bool-cases,
  length, eqb, ok, err, Result, >>=-eq-err, ◌∙◌,
}
use aegis_flow.Base.Dicts.{Dict, keys}
use aegis_flow.Workflows.Types.{
  NodeDefinition, EdgeDefinition, WorkflowDefinition, DslError, unreachable_node, duplicate_node_id,
  unknown_source, unknown_target, targets_start, starts_from_end, condition_requires_cases,
  handle_not_declared,
}
use aegis_flow.Workflows.Graph.{
  validate_condition_edge, validate_edge, validate_edges, validate_structure, validate_graph,
  only_start, require_reachable,
}
use aegis_flow.Workflows.Graph.Index.{ids, Distinct, length-nodes_by_id_iff, In-keys-nodes_by_id}
use aegis_flow.Workflows.Graph.Accepts.{Leads, IsWellFormed, by_id, validate_structure_iff}
use aegis_flow.Workflows.Graph.Valid.{graph_result, require_reachable_err}

-- The errors that the loop over the edges raises.
abbrev is_edge_error : DslError → Bool
is_edge_error (unknown_source _) = true
is_edge_error (unknown_target _) = true
is_edge_error targets_start = true
is_edge_error starts_from_end = true
is_edge_error condition_requires_cases = true
is_edge_error handle_not_declared = true
is_edge_error _ = false

edge_error :
    (d : Dict NodeDefinition) (e : EdgeDefinition) (x : DslError)
    → validate_edge d e ≡ err x
    → is_edge_error x ≡ true
unfolding validate_edge validate_condition_edge
edge_error d e x h = ground arith

edges_error :
    (d : Dict NodeDefinition) (es : List EdgeDefinition) (x : DslError)
    → validate_edges d es ≡ err x
    → is_edge_error x ≡ true
unfolding validate_edges
edges_error d [] x h = cc
edges_error d (e ∷ es) x h = elim (>>=-eq-err (validate_edge d e) (λ _. validate_edges d es) h) [
  | inl now ↦ edge_error d e x now
  | inr (_, _, later) ↦ edges_error d es x later
]

structure_not_unreachable :
    (w : WorkflowDefinition) (k : String) → validate_structure w ≡ err (unreachable_node k) → ⊥
unfolding validate_structure only_start
structure_not_unreachable w k h = ground (arith, edges_error (by_id w) w.edges (unreachable_node k))

-- When validation reports an unreachable node, all other checks have passed, the node is one of
-- the document, and no path of edges leads from the start node to it.
pub validate_graph_unreachable :
    (w : WorkflowDefinition) (k : String)
    → validate_graph w ≡ some (err (unreachable_node k))
    → (start_id : String) × IsWellFormed w start_id
      × In k (ids w.nodes)
      × (¬ Leads w.edges start_id k)
unfolding validate_graph
validate_graph_unreachable w k h = go (validate_structure w) refl
  where
    go :
        (s : Result DslError String)
        → validate_structure w ≡ s
        → (start_id : String) × IsWellFormed w start_id
          × In k (ids w.nodes)
          × (¬ Leads w.edges start_id k)
    go (err e) q = absurd (structure_not_unreachable w k (ground arith))
    go (ok start_id) q =
        let v = (validate_structure_iff w start_id).0 q in
        let (r, ends, flags) = graph_result w start_id v in
        let (m, out) = require_reachable_err r (keys (by_id w)) k (ground arith) in
        (start_id, v, (In-keys-nodes_by_id k w.nodes).0 m, λ p. out ((flags k).1 p))

require_reachable_not_duplicate :
    (r ks : List String) → require_reachable r ks ≡ err duplicate_node_id → ⊥
unfolding require_reachable
require_reachable_not_duplicate r [] h = cc
require_reachable_not_duplicate r (k ∷ ks) h = ground (arith, require_reachable_not_duplicate r ks)

structure_not_duplicate :
    (w : WorkflowDefinition) → Distinct w.nodes → validate_structure w ≡ err duplicate_node_id → ⊥
unfolding validate_structure only_start
structure_not_duplicate w d h =
    let e = (length-nodes_by_id_iff w.nodes).1 d in
    ground (arith, edges_error (by_id w) w.edges duplicate_node_id)

-- Validation reports a duplicate exactly when two nodes of the document have one id.
pub validate_graph_duplicate_iff :
    (w : WorkflowDefinition)
    → (validate_graph w ≡ some (err duplicate_node_id)) ↔ (¬ Distinct w.nodes)
unfolding validate_graph validate_structure only_start
validate_graph_duplicate_iff w = (
  λ h d. go d h (validate_structure w) refl,
  λ n. elim (Bool-cases (eqb (length (by_id w)) (length w.nodes))) [
    | inl e ↦ absurd (n ((length-nodes_by_id_iff w.nodes).0 (ground arith)))
    | inr e ↦ ground arith
  ],
)
  where
    go :
        Distinct w.nodes
        → validate_graph w ≡ some (err duplicate_node_id)
        → (s : Result DslError String) → validate_structure w ≡ s
        → ⊥
    go d h (err e) q = structure_not_duplicate w d (q ∙ ground arith)
    go d h (ok start_id) q =
        let (r, ends, _) = graph_result w start_id ((validate_structure_iff w start_id).0 q) in
        require_reachable_not_duplicate r (keys (by_id w)) (ground arith)
