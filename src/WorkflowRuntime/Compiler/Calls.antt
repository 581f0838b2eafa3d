-- ===== src/WorkflowRuntime/Compiler/Calls.antt =====
-- The calls on the builder against the edges of the workflow.
use aegis_flow.Base.{
  String, true, false, not, ◌||◌, ◌&&◌, some, List, [], ◌∷◌, ◌++◌, map, ◌==◌, ok, ◌>>=◌, raise_if,
  keep, ◌≡◌, refl, ◌↔◌, inl, inr, arith, In, In-append, In-keep, eq_iff, sym, subst, ⊎_elim,
  >>=-eq-ok, Bool-cases, Option-cases,
}
use aegis_flow.Base.Dicts.{Dict, get}
use aegis_flow.Workflows.Types.{
  is_end, is_condition, NodeDefinition, EdgeDefinition, WorkflowDefinition, WorkflowStatus,
}
use aegis_flow.Workflows.Graph.{nodes_by_id}
use aegis_flow.Workflows.Graph.Index.{get-nodes_by_id_sound}
use aegis_flow.WorkflowRuntime.Compiler.{
  graph_start, graph_end, node, Call, add_node, add_edge, add_conditional_edges, is_sequence,
  sequence_edges_from, condition_path_map, add_sequence_edges, lookup_node, connect_node,
  connect_nodes, first_start, require_supported, CompiledWorkflow, builder_calls, is_published,
  not_published, compile_workflow_version,
}

-- An edge of the workflow that leaves a node other than a condition node, in sequence or on resume.
pub record Wires (w : WorkflowDefinition) (a b : String) : Type 0 where
  pub source : NodeDefinition
  pub source_in : In source w.nodes
  pub source_named : source.id ≡ a
  pub no_condition : is_condition source.type ≡ false
  pub edge : EdgeDefinition
  pub edge_in : In edge w.edges
  pub leaves : edge.source ≡ a
  pub in_sequence : is_sequence edge.kind ≡ true
  pub enters : edge.target ≡ b

abbrev wire : String → EdgeDefinition → Call
wire u e = add_edge (node u) (node e.target)

-- Where a dict holds each node under its own id, the two branches add the same edge.
abbrev Names : Dict NodeDefinition → Type 0
Names d = (k : String) (n : NodeDefinition) → get k d ≡ some n → n.id ≡ k

lookup_node-eq :
    (d : Dict NodeDefinition) (u : String) (n : NodeDefinition)
    → lookup_node d u ≡ ok n
    → get u d ≡ some n
lookup_node-eq d u n e = elim (Option-cases (get u d)) [
  | inl q ↦ absurd (ground arith)
  | inr (m, q) ↦ ground arith
]

add_sequence_edges-eq :
    (d : Dict NodeDefinition) (u : String) (es : List EdgeDefinition) (calls : List Call)
    → Names d
    → add_sequence_edges d u es ≡ ok calls
    → calls ≡ map (wire u) es
unfolding add_sequence_edges
add_sequence_edges-eq d u [] calls h e = ground arith
add_sequence_edges-eq d u (f ∷ es) calls h e =
    let (n, q, k) = >>=-eq-ok (lookup_node d f.target) _ e in
    let (rest, r, s) = >>=-eq-ok (add_sequence_edges d u es) _ k in
    let tail = add_sequence_edges-eq d u es rest h r in
    let named = h f.target n (lookup_node-eq d f.target n q) in ground arith

In-map-wire_elim :
    (u a b : String) (es : List EdgeDefinition)
    → In (add_edge (node a) (node b)) (map (wire u) es)
    → (e : EdgeDefinition) × (In e es × ((u ≡ a) × (e.target ≡ b)))
In-map-wire_elim u a b [] p = ground arith
In-map-wire_elim u a b (f ∷ es) (inl q) = (f, (inl refl, ground arith))
In-map-wire_elim u a b (f ∷ es) (inr q) =
    let (g, (i, j)) = In-map-wire_elim u a b es q in (g, (inr i, j))

In-map-wire :
    (u : String) (e : EdgeDefinition) (es : List EdgeDefinition)
    → In e es
    → In (add_edge (node u) (node e.target)) (map (wire u) es)
In-map-wire u e [] p = ground arith
In-map-wire u e (f ∷ es) (inl q) = ground arith
In-map-wire u e (f ∷ es) (inr q) = let r = In-map-wire u e es q in ground arith

-- What one node contributes.
abbrev Joins : List EdgeDefinition → NodeDefinition → String → String → Type 0
Joins es n a b =
    (n.id ≡ a)
    × ((is_condition n.type ≡ false)
        × ((e : EdgeDefinition) × (In e es
              × ((e.source ≡ a) × ((is_sequence e.kind ≡ true) × (e.target ≡ b))))))

sequence_edges_from-In :
    (es : List EdgeDefinition) (u : String) (e : EdgeDefinition)
    → In e (sequence_edges_from es u) ↔ (In e es × ((e.source ≡ u) × (is_sequence e.kind ≡ true)))
unfolding sequence_edges_from
sequence_edges_from-In es u e =
    ground (arith, In-keep (λ f. f.source == u && is_sequence f.kind) e es, eq_iff e.source u)

connect_node_iff :
    (d : Dict NodeDefinition) (es : List EdgeDefinition) (n : NodeDefinition) (calls : List Call)
    (a b : String)
    → Names d
    → connect_node d es n ≡ ok calls
    → In (add_edge (node a) (node b)) calls ↔ Joins es n a b
unfolding connect_node
connect_node_iff d es n calls a b h e = elim (Bool-cases (is_condition n.type)) [
  | inl c ↦
      let k : (condition_path_map es n.id >>= (λ paths. ok (add_conditional_edges n.id paths ∷ [])))
          ≡ ok calls =
        ground arith in
      let (paths, p, q) =
        >>=-eq-ok (condition_path_map es n.id) (λ paths. ok (add_conditional_edges n.id paths ∷ []))
          k in
      ground arith
  | inr c ↦
      let q = add_sequence_edges-eq d n.id (sequence_edges_from es n.id) calls h (ground arith) in
      (
        λ m.
            let (f, (i, (j, k))) =
              In-map-wire_elim n.id a b (sequence_edges_from es n.id) (rw q at m) in
            let r = (sequence_edges_from-In es n.id f).0 i in ground arith,
        λ (j, (_, (f, (i, (k, (o, t)))))).
            let r =
              In-map-wire n.id f (sequence_edges_from es n.id)
                ((sequence_edges_from-In es n.id f).1 (ground arith)) in
            ground arith,
      )
]

connect_nodes_iff :
    (d : Dict NodeDefinition) (es : List EdgeDefinition) (ns : List NodeDefinition)
    (calls : List Call) (a b : String)
    → Names d
    → connect_nodes d es ns ≡ ok calls
    → In (add_edge (node a) (node b)) calls ↔ ((n : NodeDefinition) × (In n ns × Joins es n a b))
unfolding connect_nodes
connect_nodes_iff d es [] calls a b h e = (λ m. absurd (ground arith), λ m. absurd m.1.0)
connect_nodes_iff d es (n ∷ ns) calls a b h e =
    let (first, p, k) = >>=-eq-ok (connect_node d es n) _ e in
    let (rest, q, r) = >>=-eq-ok (connect_nodes d es ns) _ k in
    let one = connect_node_iff d es n first a b h p in
    let more = connect_nodes_iff d es ns rest a b h q in
    let split = In-append (add_edge (node a) (node b)) first rest in
    let joined : first ++ rest ≡ calls = ground arith in
    (
      λ m.
          ⊎_elim (λ l. (n, (inl refl, one.0 l)))
            (λ l. let (x, (i, j)) = more.0 l in (x, (inr i, j)))
            (split.0 (subst (In (add_edge (node a) (node b))) (sym joined) m)),
      λ (x, (i, j)). subst (In (add_edge (node a) (node b))) joined (
          split.1 (
            ⊎_elim (λ same. inl (one.1 (subst (λ y. Joins es y a b) same j)))
              (λ later. inr (more.1 (x, (later, j)))) i)),
    )

no_edge_in-entries :
    (a b : String) (ns : List NodeDefinition)
    → ¬ (In (add_edge (node a) (node b)) (map (λ n. add_node n.id) ns))
no_edge_in-entries a b [] = λ m. m
no_edge_in-entries a b (n ∷ ns) = let rest = no_edge_in-entries a b ns in ground arith

no_edge_in-exits :
    (a b : String) (ns : List NodeDefinition)
    → ¬ (In (add_edge (node a) (node b)) (map (λ n. add_edge (node n.id) graph_end) ns))
no_edge_in-exits a b [] = λ m. m
no_edge_in-exits a b (n ∷ ns) = let rest = no_edge_in-exits a b ns in ground arith

-- Only the loop over the nodes adds an edge between two nodes.
frame_iff :
    (w : WorkflowDefinition) (first : NodeDefinition) (calls : List Call) (a b : String)
    → In (add_edge (node a) (node b)) (builder_calls w first calls)
      ↔ In (add_edge (node a) (node b)) calls
frame_iff w first calls a b =
    let entries = no_edge_in-entries a b w.nodes in
    let exits = no_edge_in-exits a b (keep (λ n. is_end n.type) w.nodes) in
    let leaving = map (λ n. add_edge (node n.id) graph_end) (keep (λ n. is_end n.type) w.nodes) in
    ground (
      arith,
      In-append (add_edge (node a) (node b)) (map (λ n. add_node n.id) w.nodes)
          (add_edge graph_start (node first.id) ∷ (calls ++ leaving)),
      In-append (add_edge (node a) (node b)) calls
          (map (λ n. add_edge (node n.id) graph_end) (keep (λ n. is_end n.type) w.nodes)),
    )

-- Where a version compiles, the edge from a node `a` to a node `b` is added exactly when an edge of
-- the workflow leaves a node named `a` that is not a condition node, in sequence or on resume, for `b`.
pub compile_edges_iff :
    (status : WorkflowStatus) (w : WorkflowDefinition) (c : CompiledWorkflow) (a b : String)
    → compile_workflow_version status w ≡ ok c
    → In (add_edge (node a) (node b)) c.calls ↔ Wires w a b
unfolding compile_workflow_version
compile_edges_iff status w c a b e =
    let (_, p1, k1) =
      >>=-eq-ok
        (raise_if (not (is_published status) || not (is_published w.workflow.status)) not_published)
        _ e in
    let (_, p2, k2) = >>=-eq-ok (require_supported w.nodes) _ k1 in
    let (first, p3, k3) = >>=-eq-ok (first_start w.nodes) _ k2 in
    let (calls, p4, k4) = >>=-eq-ok (connect_nodes (nodes_by_id w.nodes) w.edges w.nodes) _ k3 in
    let inner =
      connect_nodes_iff (nodes_by_id w.nodes) w.edges w.nodes calls a b
        (λ k n g. (get-nodes_by_id_sound k n w.nodes g).1) p4 in
    let outer = frame_iff w first calls a b in
    let built : builder_calls w first calls ≡ c.calls = ground arith in
    (
      λ m.
          let (n, (i, (j, (o, (f, (k, (l, (s, t)))))))) =
            inner.0 (outer.0 (subst (In (add_edge (node a) (node b))) (sym built) m)) in
          record {
            source = n;
            source_in = i;
            source_named = j;
            no_condition = o;
            edge = f;
            edge_in = k;
            leaves = l;
            in_sequence = s;
            enters = t;
          },
      λ x. subst (In (add_edge (node a) (node b))) built (
          outer.1 (
            inner.1 (
              x.source,
              (
                x.source_in,
                (
                  x.source_named,
                  (x.no_condition, (x.edge, (x.edge_in, (x.leaves, (x.in_sequence, x.enters))))),
                ),
              ),
            ))),
    )
