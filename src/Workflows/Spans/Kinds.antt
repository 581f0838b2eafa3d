-- ===== src/Workflows/Spans/Kinds.antt =====
-- Which spans the plan of a workflow holds.
use aegis_flow.Base.{
  String, List, [], ◌∷◌, ◌++◌, ◌≡◌, refl, map, arith, if◌then◌else◌, keep, ◌==◌, sym, Bool-cases,
  inl, inr,
}
use mathlib.Core.List.{append-nil, append_assoc}
use aegis_flow.Workflows.Types.{NodeDefinition, WorkflowDefinition}
use aegis_flow.Workflows.Spans.{
  TraceSpanPlan, span, is_agent, is_llm, append_spans, build_trace_span_plan,
}

-- The ids of the spans of one kind, in the order of the plan.
abbrev pub ids_of_kind : String → List TraceSpanPlan → List String
ids_of_kind kind [] = []
ids_of_kind kind (s ∷ ss) =
    if s.span_type == kind then s.node_id ∷ ids_of_kind kind ss else ids_of_kind kind ss

-- The spans of one node.
abbrev node_spans : NodeDefinition → List TraceSpanPlan
node_spans n =
    span n "workflow.node"
    ∷ ((if is_agent n.type then span n "agent.subgraph" ∷ [] else [])
        ++ (if is_llm n.type then span n "llm.model_call" ∷ [] else []))

abbrev all_spans : List NodeDefinition → List TraceSpanPlan
all_spans [] = []
all_spans (n ∷ ns) = node_spans n ++ all_spans ns

append_spans-eq :
    (ns : List NodeDefinition) (spans : List TraceSpanPlan)
    → append_spans ns spans ≡ spans ++ all_spans ns
unfolding append_spans
append_spans-eq [] spans = sym (append-nil spans)
append_spans-eq (n ∷ ns) spans = elim (Bool-cases (is_agent n.type)) [
  | inl a ↦ elim (Bool-cases (is_llm n.type)) [
    | inl l ↦ rw (a, l) (simp (append_spans-eq ns, append_assoc))
    | inr l ↦ rw (a, l) (simp (append_spans-eq ns, append_assoc))
  ]
  | inr a ↦ elim (Bool-cases (is_llm n.type)) [
    | inl l ↦ rw (a, l) (simp (append_spans-eq ns, append_assoc))
    | inr l ↦ rw (a, l) (simp (append_spans-eq ns, append_assoc))
  ]
]

abbrev pub ids_of : List NodeDefinition → List String
ids_of = map (λ n. n.id)

kinds :
    (ns : List NodeDefinition)
    → (ids_of_kind "workflow.node" (all_spans ns) ≡ ids_of ns)
      × (ids_of_kind "agent.subgraph" (all_spans ns) ≡ ids_of (keep (λ n. is_agent n.type) ns))
      × (ids_of_kind "llm.model_call" (all_spans ns) ≡ ids_of (keep (λ n. is_llm n.type) ns))
kinds [] = (refl, refl, refl)
kinds (n ∷ ns) = ground (arith, kinds ns)

-- The plan has one node span for each node of the workflow, in order, one subgraph span for each
-- agent node and one model-call span for each LLM node.
pub build_trace_span_plan_kinds :
    (w : WorkflowDefinition)
    → (ids_of_kind "workflow.node" (build_trace_span_plan w) ≡ ids_of w.nodes)
      × (ids_of_kind "agent.subgraph" (build_trace_span_plan w)
          ≡ ids_of (keep (λ n. is_agent n.type) w.nodes))
      × (ids_of_kind "llm.model_call" (build_trace_span_plan w)
          ≡ ids_of (keep (λ n. is_llm n.type) w.nodes))
unfolding build_trace_span_plan
build_trace_span_plan_kinds w = rw (append_spans-eq w.nodes []) (kinds w.nodes)
