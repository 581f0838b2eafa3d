-- ===== src/Workflows/Validators.antt =====
-- backend/app/workflows/dsl.py: the validators of one node and of one edge.
use aegis_flow.Base.{
  ℕ, Bool, true, false, ◌&&◌, ◌||◌, not, [], ◌∷◌, ◌==◌, ◌≡◌, ◌↔◌, ◌⊎◌, arith, Result, ok, ◌>>◌,
  raise_if, if◌then◌else◌, leb, all, length, is_some,
}
use aegis_flow.Base.Texts.{Text, codes}
use aegis_flow.Workflows.Types.{
  NodeType, start, end, llm, agent, mcp_tool, http, shell, human_approval, NodeData, agent_data,
  llm_data, condition_data, mcp_tool_data, http_data, shell_data, human_approval_data, LlmNodeData,
  NodeDefinition, EdgeKind, EdgeDefinition, DslError, node_id_pattern, prompt_source_required,
  requires_data, loop_requires_config, loop_config_not_allowed, condition_requires_handle,
}

abbrev is_lower : ℕ → Bool
is_lower c = leb b'a' c && leb c b'z'

-- `[a-z0-9_]`
abbrev is_id_char : ℕ → Bool
is_id_char c = is_lower c || leb b'0' c && leb c b'9' || leb b'_' c && leb c b'_'

-- `NODE_ID_PATTERN.fullmatch`: a letter, then 2 to 63 letters, digits and underscores.
unfoldable pub matches_node_id : Text → Bool
matches_node_id [] = false
matches_node_id (c ∷ rest) =
    is_lower c && leb 2 (length rest) && leb (length rest) 63 && all is_id_char rest

-- `isinstance(data, expected_data_type)`, for the types that expect one; the others take any data.
unfoldable pub data_fits : NodeType → NodeData → Bool
data_fits start _ = true
data_fits end _ = true
data_fits agent (agent_data _) = true
data_fits llm (llm_data _) = true
data_fits NodeType.condition (condition_data _) = true
data_fits mcp_tool (mcp_tool_data _) = true
data_fits http (http_data _) = true
data_fits shell (shell_data _) = true
data_fits human_approval (human_approval_data _) = true
data_fits _ _ = false

unfoldable pub validate_prompt_source : LlmNodeData → Result DslError (Unit {0})
validate_prompt_source d =
    if not (d.prompt_template_ref == "")
    then ok tt
    else raise_if (d.system_prompt == "" || d.user_prompt == "") prompt_source_required

-- The data of a node is validated when it is built, before the node.
unfoldable pub validate_node_data : NodeData → Result DslError (Unit {0})
unfolding validate_prompt_source
validate_node_data (llm_data d) = validate_prompt_source d
validate_node_data _ = ok tt

unfoldable pub validate_node_id_and_data : NodeDefinition → Result DslError (Unit {0})
unfolding matches_node_id data_fits
validate_node_id_and_data n = do
  raise_if (not (matches_node_id (codes n.id))) node_id_pattern
  raise_if (not (data_fits n.type n.node_data)) (requires_data n.type)

abbrev pub is_loop : EdgeKind → Bool
is_loop EdgeKind.loop = true
is_loop _ = false

abbrev pub is_condition_kind : EdgeKind → Bool
is_condition_kind EdgeKind.condition = true
is_condition_kind _ = false

unfoldable pub validate_edge_metadata : EdgeDefinition → Result DslError (Unit {0})
validate_edge_metadata e = do
  raise_if (is_loop e.kind && not (is_some e.loop)) loop_requires_config
  raise_if (not (is_loop e.kind) && is_some e.loop) loop_config_not_allowed
  raise_if (is_condition_kind e.kind && not (is_some e.source_handle)) condition_requires_handle

-- An edge is accepted exactly when it carries a loop configuration just if it is a loop edge, and
-- a source handle if it is a condition edge.
pub validate_edge_metadata_iff :
    (e : EdgeDefinition)
    → (validate_edge_metadata e ≡ ok tt) ↔ (
        (is_some e.loop ≡ is_loop e.kind)
        × ((is_condition_kind e.kind ≡ false) ⊎ (is_some e.source_handle ≡ true)))
unfolding validate_edge_metadata
validate_edge_metadata_iff e = ground arith
