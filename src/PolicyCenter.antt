-- ===== src/PolicyCenter.antt =====
-- backend/app/policy_center/runtime.py: what the published approval policy decides for an action. The
-- policy store and the writer of events are outside: a policy, or none, is an argument, and the event
-- is not modelled. A reason that is cut to a width is kept as its code points.
pub mod Matching
pub mod Decisions
pub mod Validation
pub mod Versions
use aegis_flow.Base.{
  ℕ, String, Bool, true, false, not, ◌&&◌, ◌||◌, Option, none, some, List, [], ◌∷◌, ◌==◌,
  if◌then◌else◌, is_empty, any, elem, take,
}
use aegis_flow.Base.Texts.{Text, codes}
use aegis_flow.Workflows.Types.{RiskLevel}
use aegis_flow.Workflows.Impact.{eq_risk, is_high_risk}

-- `ApprovalPolicyTargetKind`
pub data TargetKind : Type 0 where
  tool_invocation shell_execution model_invocation : TargetKind

-- `ApprovalPolicyAction`
pub data Action : Type 0 where
  allow require_approval deny : Action

-- `PolicyGateDecision`
pub data Decision : Type 0 where
  allowed denied approval_required : Decision

-- `ApprovalPolicyRuleMatch`
pub record RuleMatch : Type 0 where
  pub tool_group_refs : List String
  pub tool_refs : List String
  pub shell_template_refs : List String
  pub model_policy_refs : List String
  pub environment_keys : List String

-- `ApprovalPolicyRule`; `match` is a reserved word.
pub record Rule : Type 0 where
  pub rule_id : String
  pub title : String
  pub target_kind : TargetKind
  pub action : Action
  pub risk_levels : List RiskLevel
  pub rule_match : RuleMatch
  pub approver_role_refs : List String
  pub reason : String

-- Of `ApprovalPolicyVersionRead`, what a decision reads.
pub record PolicyVersion : Type 0 where
  pub policy_ref : String
  pub version : ℕ
  pub rules : List Rule

-- `ApprovalPolicyDecisionRequest`; the refs of the workflow, the run and the trace go to the event.
pub record DecisionRequest : Type 0 where
  pub target_kind : TargetKind
  pub target_ref : String
  pub risk_level : RiskLevel
  pub policy_ref : String
  pub tool_group_refs : List String
  pub tool_ref : String
  pub shell_template_ref : String
  pub model_policy_ref : String
  pub environment_key : String
  pub default_approval_required : Bool

-- `ApprovalPolicyDecisionResult`
pub record DecisionResult : Type 0 where
  pub decision : Decision
  pub policy_ref : String
  pub policy_version : Option ℕ
  pub rule_ref : String
  pub target_type : TargetKind
  pub target_ref : String
  pub risk_level : RiskLevel
  pub approval_required_flag : Bool
  pub reason_summary : Text

abbrev pub eq_kind : TargetKind → TargetKind → Bool
eq_kind tool_invocation tool_invocation = true
eq_kind shell_execution shell_execution = true
eq_kind model_invocation model_invocation = true
eq_kind _ _ = false

-- `set(xs).intersection(ys)` is not empty.
abbrev pub intersects : List String → List String → Bool
intersects xs ys = any (λ x. elem x ys) xs

-- One guard of the match: a list that is given does not hold the ref.
abbrev pub misses : List String → String → Bool
misses refs ref = not (is_empty refs) && not (elem ref refs)

unfoldable pub rule_matches_request : Rule → DecisionRequest → Bool
rule_matches_request rule request =
    let m = rule.rule_match in
    if not (eq_kind rule.target_kind request.target_kind)
    then false
    else if not (any (eq_risk request.risk_level) rule.risk_levels)
    then false
    else if misses m.environment_keys request.environment_key
    then false
    else if not (is_empty m.tool_group_refs)
        && not (intersects m.tool_group_refs request.tool_group_refs)
    then false
    else if misses m.tool_refs request.tool_ref
    then false
    else if misses m.shell_template_refs request.shell_template_ref
    then false
    else not (misses m.model_policy_refs request.model_policy_ref)

abbrev action_decision : Action → Decision
action_decision deny = denied
action_decision require_approval = approval_required
action_decision allow = allowed

abbrev is_allowed : Decision → Bool
is_allowed allowed = true
is_allowed _ = false

abbrev is_approval_required : Decision → Bool
is_approval_required approval_required = true
is_approval_required _ = false

-- `redact_sensitive_text` is a parameter.
module _ (redact : String → String) where
  unfoldable pub decision_from_rule : DecisionRequest → PolicyVersion → Rule → DecisionResult
  decision_from_rule request policy rule =
      let first = action_decision rule.action in
      let decision =
        if is_allowed first && is_high_risk request.risk_level then approval_required else first in
      let reason = if rule.reason == "" then rule.title else rule.reason in
      record {
        decision = decision;
        policy_ref = policy.policy_ref;
        policy_version = some policy.version;
        rule_ref = rule.rule_id;
        target_type = request.target_kind;
        target_ref = request.target_ref;
        risk_level = request.risk_level;
        approval_required_flag = is_approval_required decision;
        reason_summary = take 1000 (codes (redact reason));
      }

  -- The result where no rule matches.
  unfoldable pub default_decision : DecisionRequest → Option PolicyVersion → DecisionResult
  default_decision request policy =
      let ref : String = elim policy [ none ↦ request.policy_ref | some p ↦ p.policy_ref ] in
      let version : Option ℕ = elim policy [ none ↦ none | some p ↦ some p.version ] in
      if request.default_approval_required || is_high_risk request.risk_level
      then record {
        decision = approval_required;
        policy_ref = ref;
        policy_version = version;
        rule_ref = "default_approval_floor";
        target_type = request.target_kind;
        target_ref = request.target_ref;
        risk_level = request.risk_level;
        approval_required_flag = true;
        reason_summary = codes "Default approval floor applies to this runtime action";
      }
      else record {
        decision = allowed;
        policy_ref = ref;
        policy_version = version;
        rule_ref = "default_allow";
        target_type = request.target_kind;
        target_ref = request.target_ref;
        risk_level = request.risk_level;
        approval_required_flag = false;
        reason_summary = codes "No approval policy rule matched; default allow applies";
      }

  -- The loop over the rules, which returns at the first that matches.
  unfoldable pub first_decision : DecisionRequest → PolicyVersion → List Rule → DecisionResult
  first_decision request policy [] = default_decision request (some policy)
  first_decision request policy (rule ∷ rules) =
      let rest = first_decision request policy rules in
      if rule_matches_request rule request then decision_from_rule request policy rule else rest

  unfoldable pub evaluate_policy : DecisionRequest → Option PolicyVersion → DecisionResult
  unfolding default_decision first_decision
  evaluate_policy request none = default_decision request none
  evaluate_policy request (some policy) = first_decision request policy policy.rules
