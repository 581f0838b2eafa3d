-- ===== src/Workflows/Impact/Sources.antt =====
-- What stands in the permission impact of a workflow comes from its nodes, and all of it does.
use aegis_flow.Base.{
  String, Bool, true, false, ◌||◌, List, [], ◌∷◌, ◌≡◌, refl, ◌↔◌, ◌⊎◌, inl, inr, arith, In, In-add,
  In-add_all, any, any_elim, any_intro, ◌∙◌, ⊎_elim, sym, subst,
}
use aegis_flow.Base.Sorted.{sorted_set, In-sorted_set, IsSorted, IsSorted-sorted_set}
use aegis_flow.Workflows.Types.{
  NodeData, agent_data, mcp_tool_data, http_data, shell_data, NodeDefinition, WorkflowDefinition,
}
use aegis_flow.Workflows.Impact.{
  PermissionImpact, is_high_risk, template_key, no_impact, note_node, note_data, note_all,
  permission_impact,
}

-- What the data of a node names, by its type.
abbrev pub tool_groups_of : NodeData → List String
tool_groups_of (agent_data d) = d.tool_groups
tool_groups_of (mcp_tool_data d) = d.tool_group_ref ∷ []
tool_groups_of (http_data d) = d.tool_group_ref ∷ []
tool_groups_of _ = []

abbrev pub mcp_servers_of : NodeData → List String
mcp_servers_of (mcp_tool_data d) = d.mcp_server_ref ∷ []
mcp_servers_of _ = []

abbrev pub shell_templates_of : NodeData → List String
shell_templates_of (shell_data d) = template_key d.template_ref d.template_version ∷ []
shell_templates_of _ = []

abbrev pub environments_of : NodeData → List String
environments_of (mcp_tool_data d) = d.environment ∷ []
environments_of (http_data d) = d.environment ∷ []
environments_of (shell_data d) = d.environment ∷ []
environments_of _ = []

-- The data of the node asks for an approval.
abbrev pub asks_approval : NodeData → Bool
asks_approval (mcp_tool_data d) = d.approval_required
asks_approval (http_data d) = d.approval_required
asks_approval (shell_data d) = d.approval_required
asks_approval _ = false

-- Some node of the list names `t`.
abbrev pub Named : (NodeDefinition → String → Type 0) → List NodeDefinition → String → Type 0
Named P ns t = (n : NodeDefinition) × In n ns × P n t

module _ (field : PermissionImpact → List String) (P : NodeDefinition → String → Type 0)
    (step : (n : NodeDefinition) (p : PermissionImpact) (t : String)
      → In t (field (note_data n.node_data (note_node n p))) ↔ (In t (field p) ⊎ P n t)) where
  In-note_all :
      (ns : List NodeDefinition) (p : PermissionImpact) (t : String)
      → In t (field (note_all ns p)) ↔ (In t (field p) ⊎ Named P ns t)
  unfolding note_all
  In-note_all [] p t = (inl, ⊎_elim (λ m. m) (λ x. absurd x.1))
  In-note_all (n ∷ ns) p t =
      let p' = note_data n.node_data (note_node n p) in
      (
        λ m.
            ⊎_elim (λ q. ⊎_elim inl (λ here. inr (n, inl refl, here)) ((step n p t).0 q))
              (λ x. inr (x.0, inr x.1, x.2)) ((In-note_all ns p' t).0 m),
        λ m. (In-note_all ns p' t).1 (later m),
      )
    where
      later :
          In t (field p) ⊎ Named P (n ∷ ns) t
          → In t (field (note_data n.node_data (note_node n p))) ⊎ Named P ns t
      later (inl q) = inl ((step n p t).1 (inl q))
      later (inr (k, inl e, q)) = inl ((step n p t).1 (inr (subst (λ x. P x t) e q)))
      later (inr (k, inr m, q)) = inr (k, m, q)

tool_groups_data :
    (d : NodeData) (p : PermissionImpact) (t : String)
    → In t (note_data d p).tool_groups ↔ (In t p.tool_groups ⊎ In t (tool_groups_of d))
unfolding note_data
tool_groups_data (agent_data d) p t = In-add_all t d.tool_groups p.tool_groups
tool_groups_data (mcp_tool_data d) p t = ground (arith, In-add t d.tool_group_ref p.tool_groups)
tool_groups_data (http_data d) p t = ground (arith, In-add t d.tool_group_ref p.tool_groups)
tool_groups_data _ p t = ground arith

tool_groups_step :
    (n : NodeDefinition) (p : PermissionImpact) (t : String)
    → In t (note_data n.node_data (note_node n p)).tool_groups
      ↔ (In t p.tool_groups ⊎ (In t n.tool_group_refs ⊎ In t (tool_groups_of n.node_data)))
unfolding note_node
tool_groups_step n p t = ground (
  arith,
  tool_groups_data n.node_data (note_node n p) t,
  In-add_all t n.tool_group_refs p.tool_groups,
)

mcp_servers_step :
    (d : NodeData) (n : NodeDefinition) (p : PermissionImpact) (t : String)
    → In t (note_data d (note_node n p)).mcp_servers
      ↔ (In t p.mcp_servers ⊎ In t (mcp_servers_of d))
unfolding note_node note_data
mcp_servers_step (mcp_tool_data d) n p t = ground (arith, In-add t d.mcp_server_ref p.mcp_servers)
mcp_servers_step _ n p t = ground arith

shell_templates_step :
    (d : NodeData) (n : NodeDefinition) (p : PermissionImpact) (t : String)
    → In t (note_data d (note_node n p)).shell_templates
      ↔ (In t p.shell_templates ⊎ In t (shell_templates_of d))
unfolding note_node note_data
shell_templates_step (shell_data d) n p t =
    ground (arith, In-add t (template_key d.template_ref d.template_version) p.shell_templates)
shell_templates_step _ n p t = ground arith

environments_step :
    (d : NodeData) (n : NodeDefinition) (p : PermissionImpact) (t : String)
    → In t (note_data d (note_node n p)).environments
      ↔ (In t p.environments ⊎ In t (environments_of d))
unfolding note_node note_data
environments_step (mcp_tool_data d) n p t = ground (arith, In-add t d.environment p.environments)
environments_step (http_data d) n p t = ground (arith, In-add t d.environment p.environments)
environments_step (shell_data d) n p t = ground (arith, In-add t d.environment p.environments)
environments_step _ n p t = ground arith

-- The sorted field of the impact against the nodes of the workflow.
from_nodes :
    (t : String) (xs : List String) (Q : Type 0) → In t xs ↔ (⊥ ⊎ Q) → In t (sorted_set xs) ↔ Q
from_nodes t xs Q e = (
  λ m. ⊎_elim (λ b. absurd b) (λ q. q) (e.0 ((In-sorted_set t xs).0 m)),
  λ q. (In-sorted_set t xs).1 (e.1 (inr q)),
)

-- Each list of the permission impact holds exactly what the nodes name: tool groups from the refs
-- of every node and from agent, MCP and HTTP data; MCP servers from MCP data; shell templates from
-- shell data; environments from MCP, HTTP and shell data.
pub permission_impact_sources :
    (w : WorkflowDefinition) (t : String)
    → (In t (permission_impact w).tool_groups
        ↔ Named (λ n t. In t n.tool_group_refs ⊎ In t (tool_groups_of n.node_data)) w.nodes t)
      × (In t (permission_impact w).mcp_servers
          ↔ Named (λ n t. In t (mcp_servers_of n.node_data)) w.nodes t)
      × (In t (permission_impact w).shell_templates
          ↔ Named (λ n t. In t (shell_templates_of n.node_data)) w.nodes t)
      × (In t (permission_impact w).environments
          ↔ Named (λ n t. In t (environments_of n.node_data)) w.nodes t)
unfolding permission_impact
permission_impact_sources w t = (
  from_nodes t _ _ (In-note_all (λ p. p.tool_groups) _ tool_groups_step w.nodes no_impact t),
  from_nodes t _ _ (
      In-note_all (λ p. p.mcp_servers) _ (λ n. mcp_servers_step n.node_data n) w.nodes no_impact t),
  from_nodes t _ _ (
      In-note_all (λ p. p.shell_templates) _ (λ n. shell_templates_step n.node_data n) w.nodes
        no_impact t),
  from_nodes t _ _ (
      In-note_all (λ p. p.environments) _ (λ n. environments_step n.node_data n) w.nodes no_impact
        t),
)

-- The four lists are strictly increasing.
pub permission_impact-IsSorted :
    (w : WorkflowDefinition)
    → IsSorted (permission_impact w).tool_groups
      × IsSorted (permission_impact w).mcp_servers
      × IsSorted (permission_impact w).shell_templates
      × IsSorted (permission_impact w).environments
unfolding permission_impact
permission_impact-IsSorted w =
    let p = note_all w.nodes no_impact in
    (
      IsSorted-sorted_set p.tool_groups,
      IsSorted-sorted_set p.mcp_servers,
      IsSorted-sorted_set p.shell_templates,
      IsSorted-sorted_set p.environments,
    )

approval_data :
    (d : NodeData) (n : NodeDefinition) (p : PermissionImpact)
    → (note_data d (note_node n p)).approval_required
      ≡ (p.approval_required || (is_high_risk n.risk_level || asks_approval d))
unfolding note_node note_data
approval_data (mcp_tool_data d) n p = ground arith
approval_data (http_data d) n p = ground arith
approval_data (shell_data d) n p = ground arith
approval_data _ n p = ground arith

approval-note_all :
    (ns : List NodeDefinition) (p : PermissionImpact)
    → (note_all ns p).approval_required ≡ (
        p.approval_required || any (λ n. is_high_risk n.risk_level || asks_approval n.node_data) ns)
unfolding note_all
approval-note_all [] p = ground arith
approval-note_all (n ∷ ns) p = ground (
  arith,
  approval-note_all ns (note_data n.node_data (note_node n p)),
  approval_data n.node_data n p,
)

-- A workflow requires an approval exactly when some node of it has high or critical risk, or is an
-- MCP, HTTP or shell node that asks for one.
pub permission_impact_approval :
    (w : WorkflowDefinition)
    → ((permission_impact w).approval_required ≡ true) ↔ (
        (n : NodeDefinition) × In n w.nodes
        × ((is_high_risk n.risk_level ≡ true) ⊎ (asks_approval n.node_data ≡ true)))
unfolding permission_impact
permission_impact_approval w =
    let demands = λ (n : NodeDefinition). is_high_risk n.risk_level || asks_approval n.node_data in
    (
      λ h.
          let (n, m, e) =
            any_elim demands w.nodes (sym (approval-note_all w.nodes no_impact) ∙ h) in
          (n, m, ground arith),
      λ x. approval-note_all w.nodes no_impact ∙ any_intro demands x.0 w.nodes x.1 (ground arith),
    )
