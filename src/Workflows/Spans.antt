-- ===== src/Workflows/Spans.antt =====
-- backend/app/workflows/dsl.py: `WorkflowDefinition.build_trace_span_plan`.
pub mod Kinds
use aegis_flow.Base.{
  ℕ, String, List, [], ◌∷◌, ◌++◌, ◌≡◌, refl, map, Bool, true, false, arith, if◌then◌else◌, keep,
  ◌==◌,
}
use aegis_flow.Workflows.Types.{NodeType, agent, llm, NodeDefinition, WorkflowDefinition}

pub record TraceSpanPlan : Type 0 where
  pub node_id : String
  pub node_type : NodeType
  pub span_type : String

abbrev span : NodeDefinition → String → TraceSpanPlan
span n kind = record { node_id = n.id; node_type = n.type; span_type = kind }

abbrev pub is_agent : NodeType → Bool
is_agent agent = true
is_agent _ = false

abbrev pub is_llm : NodeType → Bool
is_llm llm = true
is_llm _ = false

-- The loop over the nodes; `spans` is the list that it appends to.
append_spans : List NodeDefinition → List TraceSpanPlan → List TraceSpanPlan
append_spans [] spans = spans
append_spans (n ∷ ns) spans =
    let spans₁ = spans ++ span n "workflow.node" ∷ [] in
    let spans₂ = if is_agent n.type then spans₁ ++ span n "agent.subgraph" ∷ [] else spans₁ in
    let spans₃ = if is_llm n.type then spans₂ ++ span n "llm.model_call" ∷ [] else spans₂ in
    append_spans ns spans₃

unfoldable pub build_trace_span_plan : WorkflowDefinition → List TraceSpanPlan
unfolding append_spans
build_trace_span_plan w = append_spans w.nodes []
