-- ===== src/Examples/Versions.antt =====
-- The theorems on the versions of approval policies at a policy that is drafted, published and rolled back.
use aegis_flow.Base.{ℕ, String, false, none, some, List, [], ◌∷◌, ◌≡◌, refl, ok}
use aegis_flow.Base.Rows.{find_row}
use aegis_flow.Base.Sorted.{sort_texts}
use aegis_flow.Workflows.Types.{low}
use aegis_flow.PolicyCenter.{TargetKind, Action, allow, deny, Rule}
use aegis_flow.PolicyCenter.Validation.{
  match_signature, check_conflicts, blocking_issues, validate_approval_policy,
}
use aegis_flow.PolicyCenter.Versions.{
  PolicyStatus, VersionRow, DraftRequest, latest_version, insert_version,
  create_approval_policy_draft, publish_approval_policy_draft, as_policy,
  load_published_approval_policy,
}
use aegis_flow.PolicyCenter.Versions.Published.{publish_approval_policy_draft_lem}
use aegis_flow.PolicyCenter.Versions.Invariant.{IsSound}
use aegis_flow.PolicyCenter.Versions.Steps.{created, publishes, start, step, versions-IsSound}

abbrev rule : String → Action → Rule
rule rule_id action = record {
  rule_id = rule_id;
  title = "logs";
  target_kind = TargetKind.tool_invocation;
  action = action;
  risk_levels = low ∷ [];
  rule_match = record {
    tool_group_refs = [];
    tool_refs = "read_log" ∷ [];
    shell_template_refs = [];
    model_policy_refs = [];
    environment_keys = [];
  };
  approver_role_refs = [];
  reason = "";
}

-- Two rules that conflict do not pass.
conflicting : (validate_approval_policy [] (rule "a" allow ∷ rule "b" deny ∷ [])).valid ≡ false
unfolding validate_approval_policy blocking_issues check_conflicts match_signature find_row
    sort_texts
conflicting = refl

abbrev drafted : String → ℕ → Action → VersionRow
drafted id version action = record {
  id = id;
  project_id = "p";
  policy_ref = "default";
  version = version;
  status = PolicyStatus.draft;
  title = "t";
  description = "";
  rules = rule "a" action ∷ [];
  validation_result = none;
  source_version_id = none;
  published_at = none;
  published_by = none;
  created_by = "amy";
  updated_by = "amy";
}

abbrev draft_request : Action → DraftRequest
draft_request action = record {
  policy_ref = "default";
  title = "t";
  description = "";
  rules = rule "a" action ∷ [];
  source_version_id = none;
}

creates :
    create_approval_policy_draft "d1" "p" "amy" (draft_request allow) []
    ≡ ok (drafted "d1" 1 allow, drafted "d1" 1 allow ∷ [])
unfolding create_approval_policy_draft latest_version insert_version
creates = refl

publish_approval_policy_draft_lem_example :
    (w : VersionRow) × ((after : List VersionRow) × ((publish_approval_policy_draft [] "p" "d1"
            "amy" 10
            (drafted "d1" 1 allow ∷ [])
          ≡ (ok w, after))
        × (load_published_approval_policy "p" "default" after
            ≡ some (as_policy (drafted "d1" 1 allow)))))
unfolding find_row validate_approval_policy blocking_issues check_conflicts
publish_approval_policy_draft_lem_example =
    publish_approval_policy_draft_lem [] "p" "d1" "amy" 10 (drafted "d1" 1 allow ∷ [])
      (drafted "d1" 1 allow) refl refl

-- The first version, superseded, and the second, published.
abbrev two_versions : List VersionRow
two_versions =
    record (drafted "d1" 1 allow) { status = PolicyStatus.superseded }
    ∷ record (drafted "d2" 2 deny) { status = PolicyStatus.published }
    ∷ []

abbrev published_rows : List VersionRow
published_rows = (publish_approval_policy_draft [] "p" "d1" "amy" 10 (drafted "d1" 1 allow ∷ [])).1

versions-IsSound_example : IsSound published_rows
versions-IsSound_example = versions-IsSound published_rows (
    step (drafted "d1" 1 allow ∷ []) published_rows
      (step [] (drafted "d1" 1 allow ∷ []) start (
        created "d1" "p" "amy" (draft_request allow) (drafted "d1" 1 allow)
          (drafted "d1" 1 allow ∷ []) creates))
      (publishes [] "p" "d1" "amy" 10))
