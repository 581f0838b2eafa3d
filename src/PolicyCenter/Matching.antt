-- ===== src/PolicyCenter/Matching.antt =====
-- When a rule of the approval policy matches an action.
use aegis_flow.Base.{
  String, Bool, true, false, not, ◌&&◌, List, [], ◌∷◌, if◌then◌else◌, is_empty, any, elem, ◌≡◌,
  refl, ◌↔◌, ◌⊎◌, inl, inr, ⊎_elim, arith, In, any_iff, elem_iff,
}
use aegis_flow.Workflows.Types.{RiskLevel}
use aegis_flow.Workflows.Impact.{eq_risk}
use aegis_flow.PolicyCenter.{
  TargetKind, Rule, DecisionRequest, eq_kind, intersects, misses, rule_matches_request,
}

-- A condition of a rule holds of a ref when it names none, or the ref.
abbrev Admits : List String → String → Type 0
Admits refs ref = (refs ≡ []) ⊎ In ref refs

-- What it is for a rule to match an action.
pub record Matches (rule : Rule) (request : DecisionRequest) : Type 0 where
  pub kind : rule.target_kind ≡ request.target_kind
  pub risk : In request.risk_level rule.risk_levels
  pub environment : Admits rule.rule_match.environment_keys request.environment_key
  pub groups :
      (rule.rule_match.tool_group_refs ≡ [])
      ⊎ ((g : String) × (In g rule.rule_match.tool_group_refs × In g request.tool_group_refs))
  pub tool : Admits rule.rule_match.tool_refs request.tool_ref
  pub template : Admits rule.rule_match.shell_template_refs request.shell_template_ref
  pub model : Admits rule.rule_match.model_policy_refs request.model_policy_ref

eq_risk_iff : (a b : RiskLevel) → (eq_risk a b ≡ true) ↔ (a ≡ b)
eq_risk_iff a b = ground arith

eq_kind_iff : (a b : TargetKind) → (eq_kind a b ≡ true) ↔ (a ≡ b)
eq_kind_iff a b = ground arith

risk_iff : (r : RiskLevel) (rs : List RiskLevel) → (any (eq_risk r) rs ≡ true) ↔ In r rs
risk_iff r [] = ground arith
risk_iff r (x ∷ xs) = ground (arith, risk_iff r xs, eq_risk_iff r x)

misses_iff : (refs : List String) (ref : String) → (misses refs ref ≡ false) ↔ Admits refs ref
misses_iff [] ref = ground arith
misses_iff (x ∷ xs) ref = ground (arith, elem_iff ref (x ∷ xs))

abbrev groups_hold : List String → List String → Bool
groups_hold refs given = not (is_empty refs) && not (intersects refs given)

intersects_iff :
    (refs given : List String)
    → (intersects refs given ≡ true) ↔ ((g : String) × (In g refs × In g given))
intersects_iff refs given = (
  λ h. let (g, m, e) = (any_iff (λ x. elem x given) refs).0 h in (g, (m, (elem_iff g given).0 e)),
  λ (g, (m, k)). (any_iff (λ x. elem x given) refs).1 (g, m, (elem_iff g given).1 k),
)

groups_iff :
    (refs given : List String)
    → (groups_hold refs given ≡ false) ↔ ((refs ≡ []) ⊎ ((g : String) × (In g refs × In g given)))
groups_iff [] given = (λ _. inl refl, λ _. refl)
groups_iff (x ∷ xs) given =
    let i = intersects_iff (x ∷ xs) given in
    (
      λ h. inr (i.0 (ground arith)),
      λ h. ⊎_elim (λ e. absurd (ground arith)) (λ k. let t = i.1 k in ground arith) h,
    )

guards_iff :
    (k r n o t s l : Bool)
    → ((if not k
          then false
          else if not r
          then false
          else if n
          then false
          else if o
          then false
          else if t
          then false
          else if s
          then false
          else not l)
        ≡ true)
      ↔ ((k ≡ true)
          × ((r ≡ true)
              × ((n ≡ false) × ((o ≡ false) × ((t ≡ false) × ((s ≡ false) × (l ≡ false)))))))
guards_iff k r n o t s l = ground arith

-- A rule matches an action exactly when it is for that kind of target and that risk level, and each of
-- its five lists is empty or meets the action.
pub rule_matches_request_iff :
    (rule : Rule) (request : DecisionRequest)
    → (rule_matches_request rule request ≡ true) ↔ Matches rule request
unfolding rule_matches_request
rule_matches_request_iff rule request =
    let m = rule.rule_match in
    let a = eq_kind_iff rule.target_kind request.target_kind in
    let b = risk_iff request.risk_level rule.risk_levels in
    let c = misses_iff m.environment_keys request.environment_key in
    let d = groups_iff m.tool_group_refs request.tool_group_refs in
    let e = misses_iff m.tool_refs request.tool_ref in
    let f = misses_iff m.shell_template_refs request.shell_template_ref in
    let g = misses_iff m.model_policy_refs request.model_policy_ref in
    let split =
      guards_iff (eq_kind rule.target_kind request.target_kind)
        (any (eq_risk request.risk_level) rule.risk_levels)
        (misses m.environment_keys request.environment_key)
        (groups_hold m.tool_group_refs request.tool_group_refs)
        (misses m.tool_refs request.tool_ref)
        (misses m.shell_template_refs request.shell_template_ref)
        (misses m.model_policy_refs request.model_policy_ref) in
    (
      λ h.
          let (k, (r, (n, (o, (t, (s, l)))))) = split.0 h in
          record {
            kind = a.0 k;
            risk = b.0 r;
            environment = c.0 n;
            groups = d.0 o;
            tool = e.0 t;
            template = f.0 s;
            model = g.0 l;
          },
      λ x. split.1 (
        a.1 x.kind,
        (
          b.1 x.risk,
          (c.1 x.environment, (d.1 x.groups, (e.1 x.tool, (f.1 x.template, g.1 x.model)))),
        ),
      ),
    )
