-- ===== src/Examples/Imports.antt =====
-- The theorems on imports, impacts and the publish gate at the branching workflow.
use aegis_flow.Base.{String, Bool, false, Option, none, some, [], ◌∷◌, ◌≡◌, ◌↔◌, ◌⊎◌, In, ok}
use aegis_flow.Workflows.Types.{NodeDefinition, WorkflowDefinition}
use aegis_flow.Workflows.Impact.{permission_impact}
use aegis_flow.Workflows.Impact.Sources.{
  Named, tool_groups_of, mcp_servers_of, shell_templates_of, environments_of,
  permission_impact_sources,
}
use aegis_flow.Workflows.YamlIo.{
  ProjectResourceCatalog, Loaded, mapping, analyze_workflow_import, import_workflow_yaml,
  WorkflowImportResult,
}
use aegis_flow.Workflows.YamlIo.Import.{Imports, import_iff}
use aegis_flow.Examples.{branching}

-- No two nodes count as different: a stand-in for the comparison of the models.
abbrev differs : NodeDefinition → NodeDefinition → Bool
differs _ _ = false

abbrev catalog : ProjectResourceCatalog
catalog = record {
  tool_groups = [];
  mcp_servers = [];
  shell_templates = "restart@2" ∷ [];
  environments = "dev" ∷ [];
}

-- A loader of one text.
abbrev safe_load : String → Loaded String
safe_load text = mapping text

abbrev read_fields : String → Option WorkflowDefinition
read_fields _ = some branching

abbrev result : WorkflowImportResult
result = record {
  workflow = branching;
  analysis = analyze_workflow_import differs branching (some catalog) none;
}

import_iff_example :
    (import_workflow_yaml safe_load read_fields differs "nodes:" (some catalog) none ≡ ok result)
    ↔ Imports safe_load read_fields differs "nodes:" (some catalog) none result
import_iff_example = import_iff safe_load read_fields differs "nodes:" (some catalog) none result

permission_impact_sources_example :
    (In "prod" (permission_impact branching).tool_groups
      ↔ Named
          (λ n t. In t n.tool_group_refs ⊎ In t (tool_groups_of n.node_data))
          branching.nodes
          "prod")
    × (In "prod" (permission_impact branching).mcp_servers
        ↔ Named (λ n t. In t (mcp_servers_of n.node_data)) branching.nodes "prod")
    × (In "prod" (permission_impact branching).shell_templates
        ↔ Named (λ n t. In t (shell_templates_of n.node_data)) branching.nodes "prod")
    × (In "prod" (permission_impact branching).environments
        ↔ Named (λ n t. In t (environments_of n.node_data)) branching.nodes "prod")
permission_impact_sources_example = permission_impact_sources branching "prod"
