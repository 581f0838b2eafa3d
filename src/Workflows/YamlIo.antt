-- ===== src/Workflows/YamlIo.antt =====
-- backend/app/workflows/yaml_io.py: the analysis of an imported workflow against the resources of
-- the project and against the workflow that it replaces, and the import itself. The YAML parser and
-- pydantic's reading of a mapping into typed fields are parameters of the import.
pub mod Missing
pub mod Diff
pub mod Import
use Prim.Native.String.{len}
use aegis_flow.Base.{
  ℕ, ◌*◌, ◌<◌, String, str_append, Bool, true, false, not, ◌||◌, ◌&&◌, Option, none, some, List, [],
  ◌∷◌, ◌++◌, map, ◌==◌, Result, ok, err, ◌>>=◌, ◌>>◌, raise_if, if◌then◌else◌, keep, elem, is_empty,
  ltb, leb,
}
use aegis_flow.Base.Dicts.{get}
use aegis_flow.Base.Sorted.{sorted_set, sort_texts}
use aegis_flow.Workflows.Types.{
  EdgeKind, sequence, parallel, loop, resume, EdgeDefinition, NodeDefinition, WorkflowDefinition,
  DslError,
}
use aegis_flow.Workflows.Validators.{
  validate_node_data, validate_node_id_and_data, validate_edge_metadata,
}
use aegis_flow.Workflows.Graph.{nodes_by_id, validate_graph}
use aegis_flow.Workflows.Impact.{PermissionImpact, permission_impact}

pub data ResourceReferenceType : Type 0 where
  tool_group mcp_server shell_template environment : ResourceReferenceType

pub record ProjectResourceCatalog : Type 0 where
  pub tool_groups : List String
  pub mcp_servers : List String
  pub shell_templates : List String
  pub environments : List String

pub record MissingResourceReference : Type 0 where
  pub reference_type : ResourceReferenceType
  pub reference : String

pub record WorkflowImportDiff : Type 0 where
  pub added_nodes : List String
  pub modified_nodes : List String
  pub removed_nodes : List String
  pub added_edges : List String
  pub removed_edges : List String
  pub changed_tool_groups : List String
  pub has_breaking_changes : Bool

pub record WorkflowImportAnalysis : Type 0 where
  pub permission_impact : PermissionImpact
  pub missing_references : List MissingResourceReference
  pub import_diff : WorkflowImportDiff
  pub can_create_draft : Bool
  pub can_publish_or_run : Bool

unfoldable pub missing_for :
    ResourceReferenceType → List String → List String → List MissingResourceReference
unfolding sorted_set
missing_for kind required available =
    map (λ r. record { reference_type = kind; reference = r })
      (keep (λ r. not (elem r available)) (sorted_set required))

unfoldable pub find_missing_references :
    PermissionImpact → Option ProjectResourceCatalog → List MissingResourceReference
unfolding missing_for
find_missing_references impact none = []
find_missing_references impact (some c) =
    missing_for environment impact.environments c.environments
    ++ (missing_for mcp_server impact.mcp_servers c.mcp_servers
        ++ (missing_for shell_template impact.shell_templates c.shell_templates
            ++ missing_for tool_group impact.tool_groups c.tool_groups))

abbrev kind_name : EdgeKind → String
kind_name sequence = "sequence"
kind_name EdgeKind.condition = "condition"
kind_name parallel = "parallel"
kind_name loop = "loop"
kind_name resume = "resume"

-- `handle or "default"`: an empty handle counts as none.
abbrev or_default : Option String → String
or_default none = "default"
or_default (some h) = if h == "" then "default" else h

unfoldable pub edge_key : EdgeDefinition → String
edge_key e =
    let base = str_append e.source (
      str_append "->" (
        str_append e.target (
          str_append ":"
            (str_append (kind_name e.kind) (str_append ":" (or_default e.source_handle)))))) in
    elim e.target_handle [
      | none ↦ base
      | some h ↦ if h == "" then base else str_append base (str_append ":" h)
    ]

-- `set(xs) - set(ys)`, sorted
abbrev minus : List String → List String → List String
minus xs ys = sorted_set (keep (λ x. not (elem x ys)) xs)

abbrev pub node_ids : WorkflowDefinition → List String
node_ids w = map (λ n. n.id) w.nodes

abbrev pub edge_keys : WorkflowDefinition → List String
edge_keys w = map edge_key w.edges

-- `differs` is the inequality of two node documents; it reads every field, the ones that
-- `NodeDefinition` leaves out too.
module _ (differs : NodeDefinition → NodeDefinition → Bool) where
  -- `new_nodes[k] != old_nodes[k]`, where both keys are there
  abbrev modified : WorkflowDefinition → WorkflowDefinition → String → Bool
  modified new old k = elim (get k (nodes_by_id new.nodes)) [
    | none ↦ false
    | some n ↦ elim (get k (nodes_by_id old.nodes)) [ none ↦ false | some o ↦ differs n o ]
  ]

  unfoldable pub build_workflow_import_diff :
      WorkflowDefinition → Option WorkflowDefinition → WorkflowImportDiff
  unfolding edge_key sorted_set sort_texts nodes_by_id permission_impact
  build_workflow_import_diff w none = record {
    added_nodes = sort_texts (node_ids w);
    modified_nodes = [];
    removed_nodes = [];
    added_edges = sort_texts (edge_keys w);
    removed_edges = [];
    changed_tool_groups = (permission_impact w).tool_groups;
    has_breaking_changes = false;
  }
  build_workflow_import_diff w (some old) =
      let removed_nodes = minus (node_ids old) (node_ids w) in
      let removed_edges = minus (edge_keys old) (edge_keys w) in
      record {
        added_nodes = minus (node_ids w) (node_ids old);
        modified_nodes =
            sorted_set (keep (λ k. elem k (node_ids old) && modified w old k) (node_ids w));
        removed_nodes = removed_nodes;
        added_edges = minus (edge_keys w) (edge_keys old);
        removed_edges = removed_edges;
        changed_tool_groups =
            minus (permission_impact w).tool_groups (permission_impact old).tool_groups;
        has_breaking_changes = not (is_empty removed_nodes) || not (is_empty removed_edges);
      }

  unfoldable pub analyze_workflow_import :
      WorkflowDefinition
      → Option ProjectResourceCatalog
      → Option WorkflowDefinition
      → WorkflowImportAnalysis
  analyze_workflow_import w catalog existing =
      let impact = permission_impact w in
      let missing = find_missing_references impact catalog in
      record {
        permission_impact = impact;
        missing_references = missing;
        import_diff = build_workflow_import_diff w existing;
        can_create_draft = true;
        can_publish_or_run = is_empty missing;
      }

abbrev pub max_workflow_yaml_bytes : ℕ
max_workflow_yaml_bytes = 256 * 1024

pub data WorkflowYamlError : Type 0 where
  too_large invalid_yaml empty_yaml root_not_mapping validation_failed : WorkflowYamlError

-- `len` counts the bytes of the text in UTF-8.
unfoldable pub validate_yaml_size : String → Result WorkflowYamlError (Unit {0})
validate_yaml_size text = raise_if (ltb max_workflow_yaml_bytes (len text)) too_large

-- What `yaml.safe_load` gives: it raises, it loads nothing, a mapping, or a document of another kind.
pub data Loaded (Document : Type 0) : Type 0 where
  yaml_error nothing other : Loaded Document
  mapping : Document → Loaded Document

unfoldable pub validate_nodes : List NodeDefinition → Result DslError (Unit {0})
unfolding validate_node_data validate_node_id_and_data
validate_nodes [] = ok tt
validate_nodes (n ∷ ns) = do
  validate_node_data n.node_data
  validate_node_id_and_data n
  validate_nodes ns

unfoldable pub validate_all_edges : List EdgeDefinition → Result DslError (Unit {0})
unfolding validate_edge_metadata
validate_all_edges [] = ok tt
validate_all_edges (e ∷ es) = do validate_edge_metadata e; validate_all_edges es

-- The validators of a document whose fields are read: those of the nodes and edges, then the graph.
unfoldable pub validates : WorkflowDefinition → Bool
validates w = elim (do validate_nodes w.nodes; validate_all_edges w.edges) [
  | err _ ↦ false
  | ok _ ↦ elim (validate_graph w) [
    | none ↦ false
    | some r ↦ elim r [ ok _ ↦ true | err _ ↦ false ]
  ]
]

pub record WorkflowImportResult : Type 0 where
  pub workflow : WorkflowDefinition
  pub analysis : WorkflowImportAnalysis

module _ {Document : Type 0} (safe_load : String → Loaded Document)
    (read_fields : Document → Option WorkflowDefinition)
    (differs : NodeDefinition → NodeDefinition → Bool) where
  -- `WorkflowDefinition.model_validate`
  abbrev model_validate : Document → Result WorkflowYamlError WorkflowDefinition
  model_validate d = elim (read_fields d) [
    | none ↦ err validation_failed
    | some w ↦ if validates w then ok w else err validation_failed
  ]

  abbrev load_mapping : Loaded Document → Result WorkflowYamlError Document
  load_mapping yaml_error = err invalid_yaml
  load_mapping nothing = err empty_yaml
  load_mapping other = err root_not_mapping
  load_mapping (mapping d) = ok d

  unfoldable pub import_workflow_yaml :
      String
      → Option ProjectResourceCatalog
      → Option WorkflowDefinition
      → Result WorkflowYamlError WorkflowImportResult
  unfolding validate_yaml_size
  import_workflow_yaml text catalog existing = do
    validate_yaml_size text
    document ← load_mapping (safe_load text)
    workflow ← model_validate document
    ok (record {
      workflow = workflow;
      analysis = analyze_workflow_import differs workflow catalog existing;
    })
