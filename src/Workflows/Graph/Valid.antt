-- ===== src/Workflows/Graph/Valid.antt =====
-- `validate_graph` accepts the valid graphs, and always returns.
use aegis_flow.Base.{
  String, some, List, [], ◌∷◌, ◌≡◌, refl, sym, ◌↔◌, inl, inr, arith, In, Bool-cases, elem, elem_iff,
  ok, err, Result, ap, subst, ⊎_elim, ◌∙◌,
}
use aegis_flow.Base.Dicts.{keys}
use aegis_flow.Workflows.Types.{NodeDefinition, WorkflowDefinition, DslError, unreachable_node}
use aegis_flow.Workflows.Graph.{
  validate_structure, validate_reachability, validate_graph, require_reachable,
}
use aegis_flow.Workflows.Graph.Search.{explore_reaches}
use aegis_flow.Workflows.Graph.Index.{In-ids_elim, In-keys-nodes_by_id}
use aegis_flow.Workflows.Graph.Accepts.{
  Leads, IsWellFormed, by_id, targets, validate_structure_iff, In-keys, Reach-Leads, Leads-Reach,
  explored,
}

-- The start node leads to every node of a well-formed workflow.
pub record IsValidGraph (w : WorkflowDefinition) : Type 0 where
  pub start_id : String
  pub well_formed : IsWellFormed w start_id
  pub reached : (n : NodeDefinition) → In n w.nodes → Leads w.edges start_id n.id

require_reachable_iff :
    (r ks : List String) → (require_reachable r ks ≡ ok tt) ↔ ((k : String) → In k ks → In k r)
unfolding require_reachable
require_reachable_iff r [] = (λ _ k m. absurd m, λ _. refl)
require_reachable_iff r (j ∷ ks) = (
  λ h k m.
      ⊎_elim (λ e. subst (λ x. In x r) (sym e) ((elem_iff j r).0 (ground arith)))
        (λ q. (require_reachable_iff r ks).0 (ground arith) k q) m,
  λ all.
      let rest = (require_reachable_iff r ks).1 (λ k m. all k (inr m)) in
      let now = (elem_iff j r).1 (all j (inl refl)) in ground arith,
)

pub require_reachable_err :
    (r ks : List String) (k : String)
    → require_reachable r ks ≡ err (unreachable_node k)
    → In k ks × (¬ In k r)
unfolding require_reachable
require_reachable_err r [] k h = cc
require_reachable_err r (j ∷ ks) k h = elim (Bool-cases (elem j r)) [
  | inl e ↦ let (m, out) = require_reachable_err r ks k (ground arith) in (inr m, out)
  | inr e ↦
      let q : j ≡ k = ground arith in
      (inl (sym q), λ m. cc (e, (elem_iff j r).1 (subst (λ x. In x r) (sym q) m)))
]

module _ (w : WorkflowDefinition) (start_id : String) (v : IsWellFormed w start_id) where
  pub graph_result :
      (r : List String) × (validate_graph w ≡ some (require_reachable r (keys (by_id w))))
      × ((k : String) → In k r ↔ Leads w.edges start_id k)
  unfolding validate_graph validate_reachability
  graph_result =
      let (r, ends) = explored w start_id v in
      let e = (validate_structure_iff w start_id).1 v in
      (
        r,
        ground arith,
        λ k.
            let (sound, full) = explore_reaches (targets w) start_id _ r k ends in
            (λ m. Reach-Leads w start_id v (sound m), λ p. full (Leads-Reach w start_id v p)),
      )

-- Validation ends on every document: the loop over the frontier never runs out of its fuel.
pub validate_graph_returns :
    (w : WorkflowDefinition) → (r : Result DslError (Unit {0})) × (validate_graph w ≡ some r)
unfolding validate_graph
validate_graph_returns w = go (validate_structure w) refl
  where
    go :
        (s : Result DslError String)
        → validate_structure w ≡ s
        → (r : Result DslError (Unit {0})) × (validate_graph w ≡ some r)
    go (err e) h = (err e, rw (h, validate_graph))
    go (ok start_id) h =
        let (r, ends, _) = graph_result w start_id ((validate_structure_iff w start_id).0 h) in
        (require_reachable r (keys (by_id w)), ends)

-- A workflow document passes `validate_graph` exactly when its node ids are distinct, it has one
-- start node and some end node, every edge joins two of its nodes without entering a start node or
-- leaving an end node and takes a declared case where it leaves a condition node, and its edges
-- lead from the start node to every node.
pub validate_graph_iff :
    (w : WorkflowDefinition) → (validate_graph w ≡ some (ok tt)) ↔ IsValidGraph w
unfolding validate_graph
validate_graph_iff w = (accepted (validate_structure w) refl, valid)
  where
    accepted :
        (s : Result DslError String)
        → validate_structure w ≡ s
        → validate_graph w ≡ some (ok tt)
        → IsValidGraph w
    accepted (err e) h a = absurd (ground arith)
    accepted (ok start_id) h a =
        let v = (validate_structure_iff w start_id).0 h in
        let (r, ends, flags) = graph_result w start_id v in
        let all = (require_reachable_iff r (keys (by_id w))).0 (ground arith) in
        record {
          start_id = start_id;
          well_formed = v;
          reached = λ n m. (flags n.id).0 (all n.id (In-keys w start_id v n m));
        }

    valid : IsValidGraph w → validate_graph w ≡ some (ok tt)
    valid g =
        let (r, ends, flags) = graph_result w g.start_id g.well_formed in
        ends
        ∙ ap some (
            (require_reachable_iff r (keys (by_id w))).1 λ k m.
              let (n, n_in, named) = In-ids_elim k w.nodes ((In-keys-nodes_by_id k w.nodes).0 m) in
              subst (λ j. In j r) named ((flags n.id).1 (g.reached n n_in)))
