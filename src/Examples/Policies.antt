-- ===== src/Examples/Policies.antt =====
-- The theorems on the approval policy at a policy of two rules.
use aegis_flow.Base.{String, true, false, some, [], ◌∷◌, ◌≡◌, refl, ◌↔◌, ◌⊎◌}
use aegis_flow.Workflows.Types.{low, medium}
use aegis_flow.Workflows.Impact.{is_high_risk}
use aegis_flow.PolicyCenter.{
  shell_execution, Action, allow, deny, allowed, denied, RuleMatch, Rule, PolicyVersion,
  DecisionRequest, rule_matches_request, decision_from_rule, first_decision, evaluate_policy,
}
use aegis_flow.PolicyCenter.Decisions.{
  DecidedBy, NoMatch, evaluate_policy_allowed, evaluate_policy_denied,
}

abbrev redact : String → String
redact s = s

abbrev only_environment : String → RuleMatch
only_environment key = record {
  tool_group_refs = [];
  tool_refs = [];
  shell_template_refs = [];
  model_policy_refs = [];
  environment_keys = key ∷ [];
}

abbrev rule : String → Action → String → Rule
rule id action key = record {
  rule_id = id;
  title = id;
  target_kind = shell_execution;
  action = action;
  risk_levels = low ∷ medium ∷ [];
  rule_match = only_environment key;
  approver_role_refs = [];
  reason = "";
}

abbrev policy : PolicyVersion
policy = record {
  policy_ref = "default";
  version = 4;
  rules = rule "no-prod" deny "prod" ∷ rule "dev" allow "dev" ∷ [];
}

abbrev request : DecisionRequest
request = record {
  target_kind = shell_execution;
  target_ref = "restart";
  risk_level = low;
  policy_ref = "default";
  tool_group_refs = [];
  tool_ref = "";
  shell_template_ref = "restart";
  model_policy_ref = "";
  environment_key = "dev";
  default_approval_required = true;
}

allows_dev : (evaluate_policy redact request (some policy)).decision ≡ allowed
unfolding evaluate_policy first_decision rule_matches_request decision_from_rule
allows_dev = refl

evaluate_policy_allowed_example :
    (is_high_risk low ≡ false)
    × (DecidedBy (some policy) request allow
        ⊎ (NoMatch (some policy) request × (request.default_approval_required ≡ false)))
evaluate_policy_allowed_example = evaluate_policy_allowed redact request (some policy) allows_dev

evaluate_policy_denied_example :
    ((evaluate_policy redact request (some policy)).decision ≡ denied)
    ↔ DecidedBy (some policy) request deny
evaluate_policy_denied_example = evaluate_policy_denied redact request (some policy)
