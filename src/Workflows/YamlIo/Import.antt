-- ===== src/Workflows/YamlIo/Import.antt =====
-- Which texts an import accepts, and what it returns for them.
use Prim.Native.String.{len}
use aegis_flow.Base.{
  ◌≤◌, String, Bool, true, Option, some, List, [], ◌∷◌, ◌≡◌, refl, ◌↔◌, inl, inr, arith, In, Result,
  ok, ap, Option-cases, >>=-eq-ok, ◌∙◌, subst,
}
use aegis_flow.Workflows.Types.{WorkflowDefinition, NodeDefinition, EdgeDefinition}
use aegis_flow.Workflows.Validators.{
  validate_node_data, validate_node_id_and_data, validate_edge_metadata,
}
use aegis_flow.Workflows.Graph.{validate_graph}
use aegis_flow.Workflows.Graph.Valid.{IsValidGraph, validate_graph_iff}
use aegis_flow.Workflows.YamlIo.{
  Loaded, mapping, yaml_error, nothing, other, ProjectResourceCatalog, analyze_workflow_import,
  max_workflow_yaml_bytes, validate_yaml_size, validate_nodes, validate_all_edges, validates,
  WorkflowImportResult, import_workflow_yaml, WorkflowYamlError,
}

-- Every node, every edge and the graph pass their validators.
pub record IsValidWorkflow (w : WorkflowDefinition) : Type 0 where
  pub valid_data : (n : NodeDefinition) → In n w.nodes → validate_node_data n.node_data ≡ ok tt
  pub valid_nodes : (n : NodeDefinition) → In n w.nodes → validate_node_id_and_data n ≡ ok tt
  pub valid_edges : (e : EdgeDefinition) → In e w.edges → validate_edge_metadata e ≡ ok tt
  pub graph : IsValidGraph w

nodes_elim :
    (ns : List NodeDefinition)
    → validate_nodes ns ≡ ok tt
    → (n : NodeDefinition) → In n ns
    → (validate_node_data n.node_data ≡ ok tt) × (validate_node_id_and_data n ≡ ok tt)
unfolding validate_nodes
nodes_elim [] h n m = absurd m
nodes_elim (k ∷ ns) h n m =
    let (_, d, h₁) = >>=-eq-ok (validate_node_data k.node_data) _ h in
    let (_, i, rest) = >>=-eq-ok (validate_node_id_and_data k) _ h₁ in
    elim m [ inl e ↦ rw e (d, i) | inr later ↦ nodes_elim ns rest n later ]

nodes_intro :
    (ns : List NodeDefinition)
    → ((n : NodeDefinition)
        → In n ns
        → (validate_node_data n.node_data ≡ ok tt) × (validate_node_id_and_data n ≡ ok tt))
    → validate_nodes ns ≡ ok tt
unfolding validate_nodes
nodes_intro [] h = refl
nodes_intro (k ∷ ns) h =
    let (d, i) = h k (inl refl) in rw (d, i) (nodes_intro ns (λ n m. h n (inr m)))

edges_elim :
    (es : List EdgeDefinition)
    → validate_all_edges es ≡ ok tt
    → (e : EdgeDefinition) → In e es
    → validate_edge_metadata e ≡ ok tt
unfolding validate_all_edges
edges_elim [] h e m = absurd m
edges_elim (k ∷ es) h e m =
    let (_, now, rest) = >>=-eq-ok (validate_edge_metadata k) _ h in
    elim m [ inl q ↦ rw q now | inr later ↦ edges_elim es rest e later ]

edges_intro :
    (es : List EdgeDefinition)
    → ((e : EdgeDefinition) → In e es → validate_edge_metadata e ≡ ok tt)
    → validate_all_edges es ≡ ok tt
unfolding validate_all_edges
edges_intro [] h = refl
edges_intro (k ∷ es) h = rw (h k (inl refl)) (edges_intro es (λ e m. h e (inr m)))

validates_elim : (w : WorkflowDefinition) → validates w ≡ true → IsValidWorkflow w
unfolding validates
validates_elim w h =
    let ns : validate_nodes w.nodes ≡ ok tt = ground arith in
    let es : validate_all_edges w.edges ≡ ok tt = ground arith in
    let g : validate_graph w ≡ some (ok tt) = ground arith in
    record {
      valid_data = λ n m. (nodes_elim w.nodes ns n m).0;
      valid_nodes = λ n m. (nodes_elim w.nodes ns n m).1;
      valid_edges = edges_elim w.edges es;
      graph = (validate_graph_iff w).0 g;
    }

validates_intro : (w : WorkflowDefinition) → IsValidWorkflow w → validates w ≡ true
unfolding validates
validates_intro w v =
    let ns = nodes_intro w.nodes (λ n m. (v.valid_data n m, v.valid_nodes n m)) in
    let es = edges_intro w.edges v.valid_edges in
    let g = (validate_graph_iff w).1 v.graph in ground arith

module _ {Document : Type 0} (safe_load : String → Loaded Document)
    (read_fields : Document → Option WorkflowDefinition)
    (differs : NodeDefinition → NodeDefinition → Bool) (text : String)
    (catalog : Option ProjectResourceCatalog) (existing : Option WorkflowDefinition) where
  -- The text is short enough, holds a mapping that reads as the workflow of the result, and the
  -- workflow is valid; the analysis is that of the workflow.
  pub record Imports (r : WorkflowImportResult) : Type 0 where
    pub fits : len text ≤ max_workflow_yaml_bytes
    pub document : Document
    pub loaded : safe_load text ≡ mapping document
    pub reads : read_fields document ≡ some r.workflow
    pub valid : IsValidWorkflow r.workflow
    pub analysed : r.analysis ≡ analyze_workflow_import differs r.workflow catalog existing

  abbrev import : Result WorkflowYamlError WorkflowImportResult
  import = import_workflow_yaml safe_load read_fields differs text catalog existing

  -- An import returns a result exactly when the text has at most 256 KiB, loads as a mapping, and
  -- reads as a valid workflow: the result holds that workflow and its analysis.
  pub import_iff : (r : WorkflowImportResult) → (import ≡ ok r) ↔ Imports r
  unfolding import_workflow_yaml
  import_iff r = (
    λ h.
        let (_, size, h₁) = >>=-eq-ok (validate_yaml_size text) _ h in
        elim (safe_load text) as (λ l. safe_load text ≡ l → Imports r) [
          | yaml_error ↦ λ q. absurd (ground arith)
          | nothing ↦ λ q. absurd (ground arith)
          | other ↦ λ q. absurd (ground arith)
          | mapping d ↦ λ q. elim (Option-cases (read_fields d)) [
            | inl e ↦ absurd (ground arith)
            | inr (w, e) ↦
                let v : validates w ≡ true = ground arith in
                let same : w ≡ r.workflow = ground arith in
                record {
                  fits = ground arith;
                  document = d;
                  loaded = q;
                  reads = e ∙ ap some same;
                  valid = subst IsValidWorkflow same (validates_elim w v);
                  analysed = ground arith;
                }
          ]
        ]
          refl,
    λ i.
        let v = validates_intro r.workflow i.valid in
        let l = i.loaded in let q = i.reads in let f = i.fits in let a = i.analysed in ground arith,
  )
