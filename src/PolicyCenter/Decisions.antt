-- ===== src/PolicyCenter/Decisions.antt =====
-- What a decision of the approval policy comes from.
use aegis_flow.Base.{
  String, true, false, Option, none, some, List, [], ◌∷◌, ◌++◌, ◌≡◌, refl, subst, ◌↔◌, ◌≢◌, ap, ◌⊎◌,
  inl, inr, ⊎_elim, arith, All, Bool-cases,
}
use aegis_flow.Workflows.Impact.{is_high_risk}
use aegis_flow.PolicyCenter.{
  Action, allow, deny, allowed, denied, Rule, PolicyVersion, DecisionRequest, rule_matches_request,
  decision_from_rule, default_decision, first_decision, evaluate_policy,
}

-- No rule matches, or `rule` is the first that does.
abbrev pub Unmatched : List Rule → DecisionRequest → Type 0
Unmatched rules request = All (λ r. rule_matches_request r request ≡ false) rules

pub record FirstMatch (rules : List Rule) (request : DecisionRequest) (rule : Rule) : Type 0 where
  pub passed : List Rule
  pub later : List Rule
  pub splits : rules ≡ passed ++ rule ∷ later
  pub unmatched : Unmatched passed request
  pub matches : rule_matches_request rule request ≡ true

-- With a policy, the result is that of the first of its rules that matches, or the default where none does.
pub first_decision_lem :
    (redact : String → String) (request : DecisionRequest) (policy : PolicyVersion)
    (rules : List Rule)
    → (Unmatched rules request
        × (first_decision redact request policy rules
            ≡ default_decision redact request (some policy)))
      ⊎ ((rule : Rule) × (FirstMatch rules request rule
            × (first_decision redact request policy rules
                ≡ decision_from_rule redact request policy rule)))
unfolding first_decision
first_decision_lem redact request policy [] = inl (tt, refl)
first_decision_lem redact request policy (r ∷ rs) =
    elim (Bool-cases (rule_matches_request r request)) [
      | inl t ↦ inr (
        r,
        (record { passed = []; later = rs; splits = refl; unmatched = tt; matches = t }, rw t),
      )
      | inr t ↦
          ⊎_elim (λ (u, e). inl ((t, u), rw (t, first_decision, e)))
            (λ (rule, (m, e)). inr (
              rule,
              (
                record {
                  passed = r ∷ m.passed;
                  later = m.later;
                  splits = ap (λ xs. r ∷ xs) m.splits;
                  unmatched = (t, m.unmatched);
                  matches = m.matches;
                },
                rw (t, first_decision, e),
              ),
            ))
            (first_decision_lem redact request policy rs)
    ]

first_decision-passed :
    (redact : String → String) (request : DecisionRequest) (policy : PolicyVersion)
    (passed later : List Rule) (rule : Rule)
    → Unmatched passed request
    → rule_matches_request rule request ≡ true
    → first_decision redact request policy (passed ++ rule ∷ later)
      ≡ decision_from_rule redact request policy rule
unfolding first_decision
first_decision-passed redact request policy [] later rule u t = rw t
first_decision-passed redact request policy (r ∷ rs) later rule u t =
    rw (u.0, first_decision-passed redact request policy rs later rule u.1 t)

first_decision-FirstMatch :
    (redact : String → String) (request : DecisionRequest) (policy : PolicyVersion)
    (rules : List Rule) (rule : Rule)
    → FirstMatch rules request rule
    → first_decision redact request policy rules ≡ decision_from_rule redact request policy rule
first_decision-FirstMatch redact request policy rules rule m =
    rw m.splits
      (first_decision-passed redact request policy m.passed m.later rule m.unmatched m.matches)

abbrev pub DecidedBy : Option PolicyVersion → DecisionRequest → Action → Type 0
DecidedBy policy request action =
    (p : PolicyVersion) × ((policy ≡ some p)
      × ((rule : Rule) × (FirstMatch p.rules request rule × (rule.action ≡ action))))

abbrev pub NoMatch : Option PolicyVersion → DecisionRequest → Type 0
NoMatch none request = Unit
NoMatch (some p) request = Unmatched p.rules request

default_allowed :
    (redact : String → String) (request : DecisionRequest) (policy : Option PolicyVersion)
    → (default_decision redact request policy).decision ≡ allowed
    → (is_high_risk request.risk_level ≡ false) × (request.default_approval_required ≡ false)
unfolding default_decision
default_allowed redact request policy h = ground arith

default_not_denied :
    (redact : String → String) (request : DecisionRequest) (policy : Option PolicyVersion)
    → (default_decision redact request policy).decision ≢ denied
unfolding default_decision
default_not_denied redact request policy h = ground arith

rule_allowed :
    (redact : String → String) (request : DecisionRequest) (policy : PolicyVersion) (rule : Rule)
    → (decision_from_rule redact request policy rule).decision ≡ allowed
    → (is_high_risk request.risk_level ≡ false) × (rule.action ≡ allow)
unfolding decision_from_rule
rule_allowed redact request policy rule h = ground arith

rule_denied_iff :
    (redact : String → String) (request : DecisionRequest) (policy : PolicyVersion) (rule : Rule)
    → ((decision_from_rule redact request policy rule).decision ≡ denied) ↔ (rule.action ≡ deny)
unfolding decision_from_rule
rule_denied_iff redact request policy rule = ground arith

-- An action is allowed only if its risk is neither high nor critical, and then only by an allow rule
-- that is the first to match, or where no rule matches and the caller does not require approval.
pub evaluate_policy_allowed :
    (redact : String → String) (request : DecisionRequest) (policy : Option PolicyVersion)
    → (evaluate_policy redact request policy).decision ≡ allowed
    → (is_high_risk request.risk_level ≡ false)
      × (DecidedBy policy request allow
          ⊎ (NoMatch policy request × (request.default_approval_required ≡ false)))
unfolding evaluate_policy
evaluate_policy_allowed redact request none h =
    let (a, b) = default_allowed redact request none h in (a, inr (tt, b))
evaluate_policy_allowed redact request (some p) h =
    ⊎_elim
      (λ (u, e).
        let (a, b) = default_allowed redact request (some p) (rw e at h) in (a, inr (u, b)))
      (λ (rule, (m, e)).
        let (a, b) = rule_allowed redact request p rule (rw e at h) in
        (a, inl (p, (refl, (rule, (m, b))))))
      (first_decision_lem redact request p p.rules)

-- An action is denied exactly when the first rule that matches denies it.
pub evaluate_policy_denied :
    (redact : String → String) (request : DecisionRequest) (policy : Option PolicyVersion)
    → ((evaluate_policy redact request policy).decision ≡ denied) ↔ DecidedBy policy request deny
unfolding evaluate_policy
evaluate_policy_denied redact request none =
    (λ h. absurd (default_not_denied redact request none h), λ x. absurd (cc (x.1.0)))
evaluate_policy_denied redact request (some p) = (
  λ h.
      ⊎_elim (λ (u, e). absurd (default_not_denied redact request (some p) (rw e at h)))
        (λ (rule, (m, e)).
          (p, (refl, (rule, (m, (rule_denied_iff redact request p rule).0 (rw e at h))))))
        (first_decision_lem redact request p p.rules),
  λ (q, (s, (rule, (m, d)))).
      let same : q ≡ p = ground (arith, s) in
      let first : FirstMatch p.rules request rule =
        subst (λ y. FirstMatch y.rules request rule) same m in
      let found = first_decision-FirstMatch redact request p p.rules rule first in
      rw (found) ((rule_denied_iff redact request p rule).1 d),
)
