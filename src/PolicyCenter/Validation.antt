-- ===== src/PolicyCenter/Validation.antt =====
-- backend/app/policy_center/sqlalchemy_store.py: the check of a draft of an approval policy and the
-- summary of the surfaces it touches. The surfaces, which are rows of other tables, are an argument.
pub mod Accepts
use aegis_flow.Base.{
  ℕ, String, Bool, true, false, not, ◌&&◌, ◌||◌, Option, none, some, List, [], ◌∷◌, ◌++◌, ◌==◌, map,
  any, keep, length, count, elem, is_empty, if◌then◌else◌, str_append,
}
use aegis_flow.Base.Texts.{codes, contains}
use aegis_flow.Base.Rows.{find_row}
use aegis_flow.Base.Sorted.{sort_texts}
use aegis_flow.Workflows.Types.{RiskLevel}
use aegis_flow.Workflows.Impact.{eq_risk, is_high_risk}
use aegis_flow.PolicyCenter.{
  TargetKind, tool_invocation, shell_execution, model_invocation, Action, allow, deny,
  require_approval, Rule, eq_kind, misses,
}

-- Of `PolicyCenterRiskSurface`, what the summary reads.
pub record RiskSurface : Type 0 where
  pub id : String
  pub kind : String
  pub risk_level : RiskLevel
  pub environment_key : String
  pub policy_ref : String
  pub summary : String

pub record ImpactSummary : Type 0 where
  pub matched_surface_count : ℕ
  pub high_risk_surface_count : ℕ
  pub tool_surface_count : ℕ
  pub shell_surface_count : ℕ
  pub model_policy_count : ℕ
  pub deny_rule_count : ℕ
  pub approval_rule_count : ℕ

-- `ApprovalPolicyValidationIssue`
pub record Issue : Type 0 where
  pub code : String
  pub message : String
  pub rule_id : String

pub record ValidationResult : Type 0 where
  pub valid : Bool
  pub blocking_issues : List Issue
  pub warnings : List Issue
  pub impact_summary : ImpactSummary

abbrev pub eq_action : Action → Action → Bool
eq_action allow allow = true
eq_action require_approval require_approval = true
eq_action deny deny = true
eq_action _ _ = false

-- `sep.join(xs)`
abbrev pub join : String → List String → String
join sep [] = ""
join sep (x ∷ []) = x
join sep (x ∷ y ∷ xs) = str_append x (str_append sep (join sep (y ∷ xs)))

-- `_approval_policy_match_signature`
unfoldable pub match_signature : Rule → String
match_signature rule =
    let m = rule.rule_match in
    join "|" (
      join "," (sort_texts m.tool_group_refs)
      ∷ join "," (sort_texts m.tool_refs)
      ∷ join "," (sort_texts m.shell_template_refs)
      ∷ join "," (sort_texts m.model_policy_refs)
      ∷ join "," (sort_texts m.environment_keys)
      ∷ [])

-- What the rules conflict on: the kind, the risk level and the match.
pub record Signature : Type 0 where
  pub target_kind : TargetKind
  pub risk_level : RiskLevel
  pub text : String

-- An entry of `signatures_by_rule`; the latest entry of a signature comes first.
pub record SignedAction : Type 0 where
  pub signature : Signature
  pub action : Action

abbrev pub same_signature : Signature → Signature → Bool
same_signature s t =
    eq_kind s.target_kind t.target_kind && eq_risk s.risk_level t.risk_level && s.text == t.text

abbrev pub signed : Rule → RiskLevel → SignedAction
signed rule risk = record {
  signature = record {
    target_kind = rule.target_kind;
    risk_level = risk;
    text = match_signature rule;
  };
  action = rule.action;
}

abbrev pub previous_action : Signature → List SignedAction → Option Action
previous_action s entries = elim (find_row (λ e. same_signature e.signature s) entries) [
  | none ↦ none
  | some e ↦ some e.action
]

abbrev pub differs_from : Action → Option Action → Bool
differs_from action none = false
differs_from action (some previous) = not (eq_action previous action)

abbrev pub conflict : Rule → Issue
conflict rule = record {
  code = "conflicting_rule";
  message = "Conflicting actions target the same kind, risk level and match";
  rule_id = rule.rule_id;
}

-- The loop over the risk levels of a rule: its issues, and the entries after it.
unfoldable pub check_conflicts :
    Rule → List RiskLevel → List SignedAction → List Issue × List SignedAction
check_conflicts rule [] entries = ([], entries)
check_conflicts rule (risk ∷ risks) entries =
    let e = signed rule risk in
    let rest = check_conflicts rule risks (e ∷ entries) in
    (
      (if differs_from rule.action (previous_action e.signature entries)
          then conflict rule ∷ rest.0
          else rest.0),
      rest.1,
    )

abbrev pub lowers_floor : Rule → Bool
lowers_floor rule = eq_action rule.action allow && any is_high_risk rule.risk_levels

abbrev pub duplicate : Rule → Issue
duplicate rule = record {
  code = "duplicate_rule_id";
  message = str_append "Duplicate approval policy rule_id: " rule.rule_id;
  rule_id = rule.rule_id;
}

abbrev pub floor_issue : Rule → Issue
floor_issue rule = record {
  code = "high_risk_approval_floor";
  message = "High and critical actions cannot be lowered below the default approval floor";
  rule_id = rule.rule_id;
}

-- The loop over the rules, with `seen_rule_ids` and `signatures_by_rule`.
unfoldable pub blocking_issues : List Rule → List String → List SignedAction → List Issue
blocking_issues [] seen entries = []
blocking_issues (rule ∷ rules) seen entries =
    let checked = check_conflicts rule rule.risk_levels entries in
    (if elem rule.rule_id seen then duplicate rule ∷ [] else [])
    ++ (if lowers_floor rule then floor_issue rule ∷ [] else [])
    ++ checked.0
    ++ blocking_issues rules (rule.rule_id ∷ seen) checked.1

-- `_target_kind_matches_surface`
abbrev pub kind_matches_surface : TargetKind → String → Bool
kind_matches_surface tool_invocation kind = kind == "tool_group" || kind == "tool_group_item"
kind_matches_surface shell_execution kind = kind == "shell_image_policy" || kind == "shell_template"
kind_matches_surface model_invocation kind = kind == "model_policy"

-- `_approval_policy_rule_matches_surface`
unfoldable pub rule_matches_surface : Rule → RiskSurface → Bool
rule_matches_surface rule surface =
    let m = rule.rule_match in
    if not (any (eq_risk surface.risk_level) rule.risk_levels)
    then false
    else if not (kind_matches_surface rule.target_kind surface.kind)
    then false
    else if misses m.environment_keys surface.environment_key
    then false
    else if misses m.tool_group_refs surface.policy_ref
    then false
    else if not (is_empty m.tool_refs)
        && not (any (λ ref. contains (codes surface.summary) (codes ref)) m.tool_refs)
    then false
    else if misses m.model_policy_refs surface.policy_ref
    then false
    else not (misses m.shell_template_refs surface.policy_ref)

-- `(surface.kind, surface.id)` is among the keys of the surfaces that a rule matches.
abbrev pub is_matched : List Rule → List RiskSurface → RiskSurface → Bool
is_matched rules surfaces s =
    any (λ t. (t.kind == s.kind && t.id == s.id) && any (λ r. rule_matches_surface r t) rules)
      surfaces

-- `_approval_policy_impact_summary`
unfoldable pub impact_summary : List RiskSurface → List Rule → ImpactSummary
impact_summary surfaces rules =
    let matched = keep (is_matched rules surfaces) surfaces in
    record {
      matched_surface_count = length matched;
      high_risk_surface_count = count (λ s. is_high_risk s.risk_level) matched;
      tool_surface_count =
          count (λ s. s.kind == "tool_group" || s.kind == "tool_group_item") matched;
      shell_surface_count = count (λ s. s.kind == "shell_image_policy") matched;
      model_policy_count = count (λ s. s.kind == "model_policy") matched;
      deny_rule_count = count (λ r. eq_action r.action deny) rules;
      approval_rule_count = count (λ r. eq_action r.action require_approval) rules;
    }

-- `_validate_approval_policy`
unfoldable pub validate_approval_policy : List RiskSurface → List Rule → ValidationResult
validate_approval_policy surfaces rules =
    let blocking = blocking_issues rules [] [] in
    record {
      valid = is_empty blocking;
      blocking_issues = blocking;
      warnings =
          if is_empty rules
          then record {
            code = "empty_policy";
            message = "No explicit approval rules are defined; default high risk floor remains";
            rule_id = "";
          }
            ∷ []
          else [];
      impact_summary = impact_summary surfaces rules;
    }
