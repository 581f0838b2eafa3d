-- ===== src/Workflows/Impact.antt =====
-- backend/app/workflows/dsl.py: `WorkflowDefinition.permission_impact`.
pub mod Sources
use aegis_flow.Base.{
  ℕ, String, Bool, true, false, ◌||◌, List, [], ◌∷◌, ◌≡◌, refl, ◌↔◌, ◌⊎◌, inl, inr, arith, In, add,
  add_all, In-add, In-add_all, any, any_iff, keep, if◌then◌else◌, str_append, Bool-cases, ⊎_elim,
  sym, subst, ap,
}
use aegis_flow.Base.Decimals.{show}
use aegis_flow.Base.Sorted.{sorted_set, In-sorted_set, IsSorted, IsSorted-sorted_set}
use aegis_flow.Workflows.Types.{
  NodeType, RiskLevel, low, medium, high, critical, NodeData, agent_data, llm_data, condition_data,
  mcp_tool_data, http_data, shell_data, human_approval_data, no_data, NodeDefinition,
  WorkflowDefinition, start, end,
}

pub record PermissionImpact : Type 0 where
  pub tool_groups : List String
  pub mcp_servers : List String
  pub shell_templates : List String
  pub environments : List String
  pub risk_levels : List RiskLevel
  pub approval_required : Bool

abbrev pub eq_risk : RiskLevel → RiskLevel → Bool
eq_risk low low = true
eq_risk medium medium = true
eq_risk high high = true
eq_risk critical critical = true
eq_risk _ _ = false

-- `risk_level in {"high", "critical"}`
abbrev pub is_high_risk : RiskLevel → Bool
is_high_risk high = true
is_high_risk critical = true
is_high_risk _ = false

-- `node.type not in {"start", "end", "condition"}`
abbrev pub carries_risk : NodeType → Bool
carries_risk start = false
carries_risk end = false
carries_risk NodeType.condition = false
carries_risk _ = true

abbrev add_risk : RiskLevel → List RiskLevel → List RiskLevel
add_risk r rs = if any (eq_risk r) rs then rs else r ∷ rs

-- `sorted(risk_levels, key=["low", "medium", "high", "critical"].index)`
sort_risks : List RiskLevel → List RiskLevel
sort_risks rs = keep (λ r. any (eq_risk r) rs) (low ∷ medium ∷ high ∷ critical ∷ [])

-- `f"{template_ref}@{template_version}"`
unfoldable pub template_key : String → ℕ → String
unfolding show
template_key ref version = str_append ref (str_append "@" (show version))

-- The local sets of the method are a `PermissionImpact` that is not yet sorted.
abbrev no_impact : PermissionImpact
no_impact = record {
  tool_groups = [];
  mcp_servers = [];
  shell_templates = [];
  environments = [];
  risk_levels = [];
  approval_required = false;
}

-- The lines of the loop's body before the tests on the type of the data.
note_node : NodeDefinition → PermissionImpact → PermissionImpact
note_node n p = record p {
  tool_groups = add_all n.tool_group_refs p.tool_groups;
  risk_levels = if carries_risk n.type then add_risk n.risk_level p.risk_levels else p.risk_levels;
  approval_required = if is_high_risk n.risk_level then true else p.approval_required;
}

note_data : NodeData → PermissionImpact → PermissionImpact
unfolding template_key
note_data (agent_data d) p = record p { tool_groups = add_all d.tool_groups p.tool_groups }
note_data (mcp_tool_data d) p = record p {
  tool_groups = add d.tool_group_ref p.tool_groups;
  mcp_servers = add d.mcp_server_ref p.mcp_servers;
  environments = add d.environment p.environments;
  approval_required = p.approval_required || d.approval_required;
}
note_data (http_data d) p = record p {
  tool_groups = add d.tool_group_ref p.tool_groups;
  environments = add d.environment p.environments;
  approval_required = p.approval_required || d.approval_required;
}
note_data (shell_data d) p = record p {
  shell_templates = add (template_key d.template_ref d.template_version) p.shell_templates;
  environments = add d.environment p.environments;
  approval_required = p.approval_required || d.approval_required;
}
note_data _ p = p

note_all : List NodeDefinition → PermissionImpact → PermissionImpact
unfolding note_node note_data
note_all [] p = p
note_all (n ∷ ns) p = note_all ns (note_data n.node_data (note_node n p))

unfoldable pub permission_impact : WorkflowDefinition → PermissionImpact
unfolding note_all sorted_set sort_risks
permission_impact w =
    let p = note_all w.nodes no_impact in
    record {
      tool_groups = sorted_set p.tool_groups;
      mcp_servers = sorted_set p.mcp_servers;
      shell_templates = sorted_set p.shell_templates;
      environments = sorted_set p.environments;
      risk_levels = sort_risks p.risk_levels;
      approval_required = p.approval_required;
    }
