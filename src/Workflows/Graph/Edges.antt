-- ===== src/Workflows/Graph/Edges.antt =====
-- The loop over the edges in `validate_graph`: which edges it accepts.
use aegis_flow.Base.{
  String, true, false, Option, none, some, List, [], ◌∷◌, ◌≡◌, refl, sym, inl, inr, arith, In,
  eq_iff, ◌==◌, Bool-cases, Option-cases, any_elim, any_intro, str_append, ok, ap,
}
use aegis_flow.Base.Dicts.{Dict, get}
use aegis_flow.Workflows.Types.{
  NodeDefinition, EdgeDefinition, is_start, is_end, is_condition, NodeData, condition_data,
  ConditionNodeData,
}
use aegis_flow.Workflows.Graph.{
  declares_handle, validate_condition_edge, validate_edge, validate_edges,
}

-- The node declares its cases, and the handle of the edge is `case:` with one of them.
pub record Declares (source : NodeDefinition) (e : EdgeDefinition) : Type 0 where
  pub condition : ConditionNodeData
  pub has_cases : source.node_data ≡ condition_data condition
  pub case : String
  pub is_declared : In case condition.cases
  pub handle : e.source_handle ≡ some (str_append "case:" case)

declares_handle_elim :
    (cases : List String) (h : Option String)
    → declares_handle cases h ≡ true
    → (case : String) × In case cases × (h ≡ some (str_append "case:" case))
unfolding declares_handle
declares_handle_elim cases none h = cc
declares_handle_elim cases (some handle) h =
    let (case, m, e) = any_elim (λ case. str_append "case:" case == handle) cases h in
    (case, m, ap some (sym ((eq_iff (str_append "case:" case) handle).0 e)))

declares_handle_intro :
    (cases : List String) (h : Option String) (case : String)
    → In case cases
    → h ≡ some (str_append "case:" case)
    → declares_handle cases h ≡ true
unfolding declares_handle
declares_handle_intro cases none case m e = cc
declares_handle_intro cases (some handle) case m e =
    any_intro (λ case. str_append "case:" case == handle) case cases m
      ((eq_iff (str_append "case:" case) handle).1 (cc))

condition_edge_elim :
    (source : NodeDefinition) (e : EdgeDefinition) (d : NodeData)
    → source.node_data ≡ d
    → validate_condition_edge source e ≡ ok tt
    → Declares source e
unfolding validate_condition_edge
condition_edge_elim source e (condition_data d) q h =
    let (case, m, handle) = declares_handle_elim d.cases e.source_handle (ground arith) in
    record { condition = d; has_cases = q; case = case; is_declared = m; handle = handle }
condition_edge_elim source e _ q h = absurd (ground arith)

condition_edge_intro :
    (source : NodeDefinition) (e : EdgeDefinition)
    → Declares source e
    → validate_condition_edge source e ≡ ok tt
unfolding validate_condition_edge
condition_edge_intro source e d =
    let h = declares_handle_intro d.condition.cases e.source_handle d.case d.is_declared d.handle in
    let q = d.has_cases in ground arith

-- Both ends are nodes of the dict; the target is no start node, the source no end node, and a
-- condition node declares the case that the edge is for.
pub record Accepted (by_id : Dict NodeDefinition) (e : EdgeDefinition) : Type 0 where
  pub source : NodeDefinition
  pub target : NodeDefinition
  pub source_known : get e.source by_id ≡ some source
  pub target_known : get e.target by_id ≡ some target
  pub no_start : is_start target.type ≡ false
  pub no_end : is_end source.type ≡ false
  pub declared : is_condition source.type ≡ true → Declares source e

validate_edge_elim :
    (by_id : Dict NodeDefinition) (e : EdgeDefinition)
    → validate_edge by_id e ≡ ok tt
    → Accepted by_id e
unfolding validate_edge
validate_edge_elim by_id e h = elim (Option-cases (get e.source by_id)) [
  | inl q ↦ absurd (ground arith)
  | inr (s, q) ↦ elim (Option-cases (get e.target by_id)) [
    | inl r ↦ absurd (ground arith)
    | inr (t, r) ↦ record {
      source = s;
      target = t;
      source_known = q;
      target_known = r;
      no_start = ground arith;
      no_end = ground arith;
      declared = λ c. condition_edge_elim s e s.node_data refl (ground arith);
    }
  ]
]

validate_edge_intro :
    (by_id : Dict NodeDefinition) (e : EdgeDefinition)
    → Accepted by_id e
    → validate_edge by_id e ≡ ok tt
unfolding validate_edge
validate_edge_intro by_id e a = elim (Bool-cases (is_condition a.source.type)) [
  | inl c ↦
      let h = condition_edge_intro a.source e (a.declared c) in
      let p = a.source_known in let q = a.target_known in ground arith
  | inr c ↦ let p = a.source_known in let q = a.target_known in ground arith
]

pub validate_edges_elim :
    (by_id : Dict NodeDefinition) (es : List EdgeDefinition)
    → validate_edges by_id es ≡ ok tt
    → (e : EdgeDefinition) → In e es
    → Accepted by_id e
unfolding validate_edges
validate_edges_elim by_id [] h e m = absurd m
validate_edges_elim by_id (f ∷ es) h e (inl q) = rw q (validate_edge_elim by_id f (ground arith))
validate_edges_elim by_id (f ∷ es) h e (inr m) = validate_edges_elim by_id es (ground arith) e m

pub validate_edges_intro :
    (by_id : Dict NodeDefinition) (es : List EdgeDefinition)
    → ((e : EdgeDefinition) → In e es → Accepted by_id e)
    → validate_edges by_id es ≡ ok tt
unfolding validate_edges
validate_edges_intro by_id [] h = refl
validate_edges_intro by_id (e ∷ es) h =
    rw (validate_edge_intro by_id e (h e (inl refl)))
      (validate_edges_intro by_id es (λ f m. h f (inr m)))
