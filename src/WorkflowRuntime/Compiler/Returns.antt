-- ===== src/WorkflowRuntime/Compiler/Returns.antt =====
-- Which workflows compile.
use aegis_flow.Base.{
  String, true, false, not, ◌&&◌, ◌||◌, Option, some, List, [], ◌∷◌, ◌==◌, ok, raise_if, str_append,
  >>=-returns, is_empty, ◌≡◌, refl, ◌↔◌, ◌⊎◌, inl, inr, arith, In, In-keep, eq_iff, sym, subst, ◌∙◌,
  ⊎_elim, Bool-cases,
}
use aegis_flow.Base.Dicts.{Dict, get, put}
use aegis_flow.Workflows.Types.{
  is_condition, NodeDefinition, EdgeDefinition, WorkflowDefinition, published,
}
use aegis_flow.Workflows.Graph.{nodes_by_id}
use aegis_flow.Workflows.Graph.Index.{get-nodes_by_id_self}
use aegis_flow.Workflows.Graph.Edges.{Declares}
use aegis_flow.Workflows.Graph.Valid.{IsValidGraph}
use aegis_flow.WorkflowRuntime.Compiler.Prefix.{remove_prefix}
use aegis_flow.WorkflowRuntime.Compiler.{
  Call, add_conditional_edges, not_published, is_published, is_sequence, is_condition_edge,
  sequence_edges_from, condition_edges_from, path_map_from, condition_path_map, lookup_node,
  add_sequence_edges, connect_node, connect_nodes, first_start, require_supported, CompiledWorkflow,
  compile_workflow_version,
}

some_injective : {a b : NodeDefinition} → ◌≡◌ {A = Option NodeDefinition} (some a) (some b) → a ≡ b
some_injective h = cc

not_empty : (e : EdgeDefinition) (es : List EdgeDefinition) → In e es → is_empty es ≡ false
not_empty e [] m = absurd m
not_empty e (f ∷ es) m = refl

abbrev Known : Dict NodeDefinition → EdgeDefinition → Type 0
Known d e = (n : NodeDefinition) × (get e.target d ≡ some n)

add_sequence_edges_total :
    (d : Dict NodeDefinition) (u : String) (es : List EdgeDefinition)
    → ((e : EdgeDefinition) → In e es → Known d e)
    → (calls : List Call) × (add_sequence_edges d u es ≡ ok calls)
unfolding add_sequence_edges
add_sequence_edges_total d u [] known = ([], refl)
add_sequence_edges_total d u (e ∷ es) known =
    let (n, q) = known e (inl refl) in
    >>=-returns (lookup_node d e.target) _ (n, ground arith)
      (λ target _.
        >>=-returns (add_sequence_edges d u es) _
          (add_sequence_edges_total d u es (λ f m. known f (inr m))) (λ calls _. (_, refl)))

path_map_total :
    (u : String) (es : List EdgeDefinition) (paths : Dict String)
    → ((e : EdgeDefinition) → In e es → (h : String) × (e.source_handle ≡ some h))
    → (p : Dict String) × (path_map_from u es paths ≡ ok p)
unfolding path_map_from
path_map_total u [] paths handles = (paths, refl)
path_map_total u (e ∷ es) paths handles =
    let (h, q) = handles e (inl refl) in
    let (p, r) =
      path_map_total u es (put (remove_prefix "case:" h) e.target paths)
        (λ f m. handles f (inr m)) in
    (p, rw (q, path_map_from) r)

require_supported_total : (ns : List NodeDefinition) → require_supported ns ≡ ok tt
unfolding require_supported
require_supported_total [] = refl
require_supported_total (n ∷ ns) = let r = require_supported_total ns in ground arith

-- What the compiler asks of a node: a condition node has a condition edge.
abbrev pub Branches : List EdgeDefinition → NodeDefinition → Type 0
Branches es n =
    (is_condition n.type ≡ false)
    ⊎ ((e : EdgeDefinition) × (In e es × ((e.source ≡ n.id) × (is_condition_edge e.kind ≡ true))))

pub condition_edges_from-In :
    (es : List EdgeDefinition) (u : String) (e : EdgeDefinition)
    → In e (condition_edges_from es u)
      ↔ (In e es × ((e.source ≡ u) × (is_condition_edge e.kind ≡ true)))
condition_edges_from-In es u e =
    ground (arith, In-keep (λ f. f.source == u && is_condition_edge f.kind) e es, eq_iff e.source u)

condition_path_map_total :
    (es : List EdgeDefinition) (u : String) (first : EdgeDefinition)
    → In first (condition_edges_from es u)
    → ((e : EdgeDefinition)
        → In e (condition_edges_from es u)
        → (h : String) × (e.source_handle ≡ some h))
    → (p : Dict String) × (condition_path_map es u ≡ ok p)
unfolding condition_path_map
condition_path_map_total es u first m handles =
    let (p, r) = path_map_total u (condition_edges_from es u) [] handles in
    (p, rw (not_empty first (condition_edges_from es u) m, condition_path_map) r)

module _ (w : WorkflowDefinition) (v : IsValidGraph w) where
  known : (e : EdgeDefinition) → In e w.edges → Known (nodes_by_id w.nodes) e
  known e m =
      let a = v.well_formed.valid_edges e m in
      (
        a.target,
        rw (← a.target_named)
            (get-nodes_by_id_self a.target w.nodes v.well_formed.distinct a.target_in),
      )

  -- A condition edge that leaves a condition node takes a case that this node declares.
  pub condition_edges_from-Declares :
      (n : NodeDefinition)
      → In n w.nodes
      → is_condition n.type ≡ true
      → (e : EdgeDefinition) → In e (condition_edges_from w.edges n.id)
      → Declares n e
  condition_edges_from-Declares n i c e m =
      let (k, (s, _)) = (condition_edges_from-In w.edges n.id e).0 m in
      let a = v.well_formed.valid_edges e k in
      let one = get-nodes_by_id_self a.source w.nodes v.well_formed.distinct a.source_in in
      let two = get-nodes_by_id_self n w.nodes v.well_formed.distinct i in
      let named : a.source.id ≡ n.id = a.source_named ∙ s in
      let same : a.source ≡ n =
        some_injective
          (sym (subst (λ x. get x (nodes_by_id w.nodes) ≡ some a.source) named one) ∙ two) in
      subst (λ x. Declares x e) same
        (a.declared (subst (λ x. is_condition x.type ≡ true) (sym same) c))

  handles :
      (n : NodeDefinition)
      → In n w.nodes
      → is_condition n.type ≡ true
      → (e : EdgeDefinition) → In e (condition_edges_from w.edges n.id)
      → (h : String) × (e.source_handle ≡ some h)
  handles n i c e m =
      let d = condition_edges_from-Declares n i c e m in (str_append "case:" d.case, d.handle)

  connect_node_total :
      (n : NodeDefinition)
      → In n w.nodes
      → Branches w.edges n
      → (calls : List Call) × (connect_node (nodes_by_id w.nodes) w.edges n ≡ ok calls)
  unfolding connect_node sequence_edges_from
  connect_node_total n i b = elim (Bool-cases (is_condition n.type)) [
    | inl c ↦
        ⊎_elim (λ no. absurd (cc))
          (λ (e, (m, (s, k))).
            let (p, r) =
              condition_path_map_total w.edges n.id e
                ((condition_edges_from-In w.edges n.id e).1 (m, (s, k))) (handles n i c) in
            (add_conditional_edges n.id p ∷ [], rw (c, connect_node, r) refl))
          b
    | inr c ↦
        let (calls, r) =
          add_sequence_edges_total (nodes_by_id w.nodes) n.id (sequence_edges_from w.edges n.id)
            (λ e m.
              known e ((In-keep (λ f. f.source == n.id && is_sequence f.kind) e w.edges).0 m).0) in
        (calls, rw (c, connect_node) r)
  ]

  connect_nodes_total :
      (ns : List NodeDefinition)
      → ((n : NodeDefinition) → In n ns → In n w.nodes × Branches w.edges n)
      → (calls : List Call) × (connect_nodes (nodes_by_id w.nodes) w.edges ns ≡ ok calls)
  unfolding connect_nodes
  connect_nodes_total [] all = ([], refl)
  connect_nodes_total (n ∷ ns) all =
      let (i, b) = all n (inl refl) in
      >>=-returns (connect_node (nodes_by_id w.nodes) w.edges n) _ (connect_node_total n i b)
        (λ first _.
          >>=-returns (connect_nodes (nodes_by_id w.nodes) w.edges ns) _
            (connect_nodes_total ns (λ k m. all k (inr m))) (λ rest _. (_, refl)))

  -- A workflow whose graph is valid compiles, where the version and the workflow are published and every
  -- condition node has an edge of kind condition.
  pub compile_workflow_version_returns :
      w.workflow.status ≡ published
      → ((n : NodeDefinition) → In n w.nodes → Branches w.edges n)
      → (c : CompiledWorkflow) × (compile_workflow_version published w ≡ ok c)
  unfolding compile_workflow_version first_start
  compile_workflow_version_returns p branches =
      >>=-returns (raise_if (not true || not (is_published w.workflow.status)) not_published) _
        (tt, rw p refl)
        (λ _ _.
          >>=-returns (require_supported w.nodes) _ (tt, require_supported_total w.nodes)
            (λ _ _.
              >>=-returns (first_start w.nodes) _
                (v.well_formed.root, rw (v.well_formed.only_root, first_start) refl)
                (λ first _.
                  >>=-returns (connect_nodes (nodes_by_id w.nodes) w.edges w.nodes) _
                    (connect_nodes_total w.nodes (λ n m. (m, branches n m)))
                    (λ calls _. (_, refl)))))
