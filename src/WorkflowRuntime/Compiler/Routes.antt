-- ===== src/WorkflowRuntime/Compiler/Routes.antt =====
-- The routes of a condition node: the keys of its path map are cases that it declares.
use aegis_flow.Base.{
  String, str_append, true, some, List, [], ◌∷◌, ◌==◌, ok, is_empty, ◌≡◌, refl, ◌⊎◌, inl, inr,
  ⊎_elim, arith, In, eq_iff, sym, subst, ap, ◌∙◌, Bool-cases, Option-cases,
}
use aegis_flow.Base.Dicts.{Dict, get, put, get-put}
use aegis_flow.Workflows.Types.{
  is_condition, ConditionNodeData, condition_data, NodeDefinition, EdgeDefinition,
  WorkflowDefinition,
}
use aegis_flow.Workflows.Graph.Valid.{IsValidGraph}
use aegis_flow.WorkflowRuntime.Compiler.{
  is_condition_edge, condition_edges_from, path_map_from, condition_path_map,
}
use aegis_flow.WorkflowRuntime.Compiler.Prefix.{remove_prefix, remove_prefix-append}
use aegis_flow.WorkflowRuntime.Compiler.Returns.{
  condition_edges_from-In, condition_edges_from-Declares,
}

-- One of the edges has a handle that ends in the key, and goes to the target.
abbrev LeadsBy : List EdgeDefinition → String → String → Type 0
LeadsBy es k t =
    (e : EdgeDefinition) × (In e es
      × ((e.target ≡ t)
          × ((h : String) × ((e.source_handle ≡ some h) × (remove_prefix "case:" h ≡ k)))))

path_map_from_sound :
    (u : String) (es : List EdgeDefinition) (paths p : Dict String) (k t : String)
    → path_map_from u es paths ≡ ok p
    → get k p ≡ some t
    → (get k paths ≡ some t) ⊎ LeadsBy es k t
unfolding path_map_from
path_map_from_sound u [] paths p k t h g = inl (ground arith)
path_map_from_sound u (e ∷ es) paths p k t h g = elim (Option-cases e.source_handle) [
  | inl n ↦ absurd (ground arith)
  | inr (c, n) ↦
      let key = remove_prefix "case:" c in
      ⊎_elim
        (λ found. elim (Bool-cases (key == k)) [
          | inl q ↦
              let here' : e.target ≡ t = ground (arith, get-put k key e.target paths, found) in
              inr (e, (inl refl, (here', (c, (n, (eq_iff key k).0 q)))))
          | inr q ↦ inl (ground (arith, get-put k key e.target paths, found))
        ])
        (λ (f, (m, rest)). inr (f, (inr m, rest)))
        (path_map_from_sound u es (put key e.target paths) p k t (rw (n, path_map_from) at h) g)
]

-- In a workflow whose graph is valid, every route of a condition node is a case that the node declares, and
-- leads along a condition edge of that node to the edge's target.
pub condition_path_map_lem :
    (w : WorkflowDefinition) (v : IsValidGraph w) (n : NodeDefinition) (p : Dict String)
    (k t : String)
    → In n w.nodes
    → is_condition n.type ≡ true
    → condition_path_map w.edges n.id ≡ ok p
    → get k p ≡ some t
    → ((d : ConditionNodeData) × ((n.node_data ≡ condition_data d) × In k d.cases))
      × ((e : EdgeDefinition) × (In e w.edges
            × ((e.source ≡ n.id) × ((is_condition_edge e.kind ≡ true) × (e.target ≡ t)))))
unfolding condition_path_map get
condition_path_map_lem w v n p k t i c h g =
    elim (Bool-cases (is_empty (condition_edges_from w.edges n.id))) [
      | inl y ↦ absurd (ground arith)
      | inr y ↦
          ⊎_elim (λ none_yet. absurd (ground arith))
            (λ (e, (m, (to, (handle, (q, r))))).
              let d = condition_edges_from-Declares w v n i c e m in
              let (j, (s, kind)) = (condition_edges_from-In w.edges n.id e).0 m in
              let same : handle ≡ str_append "case:" d.case = ground (arith, d.handle) in
              let key : d.case ≡ k =
                sym (remove_prefix-append "case:" d.case)
                ∙ (ap (remove_prefix "case:") (sym same) ∙ r) in
              (
                (d.condition, (d.has_cases, subst (λ x. In x d.condition.cases) key d.is_declared)),
                (e, (j, (s, (kind, to)))),
              ))
            (path_map_from_sound n.id (condition_edges_from w.edges n.id) [] p k t (ground arith) g)
    ]
