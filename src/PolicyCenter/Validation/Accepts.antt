-- ===== src/PolicyCenter/Validation/Accepts.antt =====
-- When a draft of an approval policy passes its check.
use aegis_flow.Base.{
  String, true, false, some, List, [], ◌∷◌, ◌++◌, elem, ◌≡◌, refl, sym, ap, ◌∙◌, subst, ◌⊎◌, ◌↔◌,
  inl, inr, ⊎_elim, arith, Bool-cases, Option-cases, In, All, eq_iff,
}
use aegis_flow.Base.Rows.{find_row, find_row_sound}
use aegis_flow.Workflows.Types.{RiskLevel}
use aegis_flow.Workflows.Impact.{eq_risk}
use aegis_flow.PolicyCenter.{TargetKind, Action, Rule, eq_kind}
use aegis_flow.PolicyCenter.Validation.{
  RiskSurface, Signature, SignedAction, eq_action, match_signature, same_signature, signed,
  previous_action, differs_from, check_conflicts, lowers_floor, blocking_issues,
  validate_approval_policy,
}

eq_kind_iff : (a b : TargetKind) → (eq_kind a b ≡ true) ↔ (a ≡ b)
eq_kind_iff a b = ground arith

eq_risk_iff : (a b : RiskLevel) → (eq_risk a b ≡ true) ↔ (a ≡ b)
eq_risk_iff a b = ground arith

eq_action_iff : (a b : Action) → (eq_action a b ≡ true) ↔ (a ≡ b)
eq_action_iff a b = ground arith

same_signature_iff : (s t : Signature) → (same_signature s t ≡ true) ↔ (s ≡ t)
same_signature_iff s t = ground (
  arith,
  eq_kind_iff s.target_kind t.target_kind,
  eq_risk_iff s.risk_level t.risk_level,
  eq_iff s.text t.text,
)

-- Entries of one signature have one action.
abbrev Consistent : List SignedAction → Type 0
Consistent es =
    (e f : SignedAction) → In e es → In f es → e.signature ≡ f.signature → e.action ≡ f.action

found-In :
    (s : Signature) (es : List SignedAction) (y : SignedAction)
    → In y es
    → y.signature ≡ s
    → (z : SignedAction) × (find_row (λ e. same_signature e.signature s) es ≡ some z)
unfolding find_row
found-In s [] y m h = absurd m
found-In s (x ∷ es) y m h = elim (Bool-cases (same_signature x.signature s)) [
  | inl t ↦ (x, ground arith)
  | inr t ↦
      ⊎_elim
        (λ e. absurd (
          ground (
            arith,
            (same_signature_iff x.signature s).1
                (ap (λ (q : SignedAction). q.signature) (sym e) ∙ h),
          )))
        (λ k. let (z, f) = found-In s es y k h in (z, ground arith)) m
]

found_sound :
    (s : Signature) (es : List SignedAction) (z : SignedAction)
    → find_row (λ e. same_signature e.signature s) es ≡ some z
    → In z es × (z.signature ≡ s)
found_sound s es z h =
    let (m, q) = find_row_sound (λ e. same_signature e.signature s) es z h in
    (m, (same_signature_iff z.signature s).0 q)

agrees :
    (e : SignedAction) (es : List SignedAction) (y : SignedAction)
    → Consistent es
    → differs_from e.action (previous_action e.signature es) ≡ false
    → In y es
    → y.signature ≡ e.signature
    → y.action ≡ e.action
agrees e es y c h m s =
    let (z, f) = found-In e.signature es y m s in
    let (n, t) = found_sound e.signature es z f in
    let same : z.action ≡ e.action = ground (arith, f, h, eq_action_iff z.action e.action) in
    c y z m n (s ∙ sym t) ∙ same

differs_false :
    (e : SignedAction) (es : List SignedAction)
    → Consistent es
    → differs_from e.action (previous_action e.signature es) ≡ false
    → Consistent (e ∷ es)
differs_false e es c h x y (inl p) (inl q) s = ap (λ (r : SignedAction). r.action) (p ∙ sym q)
differs_false e es c h x y (inr p) (inr q) s = c x y p q s
differs_false e es c h x y (inl p) (inr q) s =
    ap (λ (r : SignedAction). r.action) p
    ∙ sym (agrees e es y c h q (sym s ∙ ap (λ (r : SignedAction). r.signature) p))
differs_false e es c h x y (inr p) (inl q) s =
    agrees e es x c h p (s ∙ ap (λ (r : SignedAction). r.signature) q)
    ∙ sym (ap (λ (r : SignedAction). r.action) q)

differs_iff :
    (e : SignedAction) (es : List SignedAction)
    → Consistent es
    → (differs_from e.action (previous_action e.signature es) ≡ false) ↔ Consistent (e ∷ es)
differs_iff e es c = (
  differs_false e es c,
  λ d. elim (Option-cases (find_row (λ x. same_signature x.signature e.signature) es)) [
    | inl n ↦ ground (arith, n)
    | inr (z, f) ↦
        let (m, t) = found_sound e.signature es z f in
        let same : z.action ≡ e.action = d z e (inr m) (inl refl) t in
        ground (arith, f, (eq_action_iff z.action e.action).1 same)
  ],
)

-- The entries that a check leaves: those it was given, and one for each risk level.
In-check :
    (rule : Rule) (risks : List RiskLevel) (es : List SignedAction) (x : SignedAction)
    → In x (check_conflicts rule risks es).1
      ↔ (In x es ⊎ ((risk : RiskLevel) × (In risk risks × (x ≡ signed rule risk))))
unfolding check_conflicts
In-check rule [] es x = (inl, ⊎_elim (λ m. m) (λ (r, (m, e)). absurd m))
In-check rule (risk ∷ risks) es x =
    let rest = In-check rule risks (signed rule risk ∷ es) x in
    (
      λ m.
          ⊎_elim (λ n. ⊎_elim (λ e. inr (risk, (inl refl, e))) (λ k. inl k) n)
            (λ (r, (k, e)). inr (r, (inr k, e))) (rest.0 m),
      λ m. rest.1 (
          ⊎_elim (λ k. inl (inr k))
            (λ (r, (k, e)).
              ⊎_elim (λ (p : r ≡ risk). inl (inl (e ∙ ap (signed rule) p))) (λ q. inr (r, (q, e)))
                k)
            m),
    )

Consistent-check :
    (rule : Rule) (risks : List RiskLevel) (es : List SignedAction)
    → Consistent (check_conflicts rule risks es).1
    → Consistent es
Consistent-check rule risks es c x y p q s =
    c x y ((In-check rule risks es x).1 (inl p)) ((In-check rule risks es y).1 (inl q)) s

check_conflicts_iff :
    (rule : Rule) (risks : List RiskLevel) (es : List SignedAction)
    → Consistent es
    → ((check_conflicts rule risks es).0 ≡ []) ↔ Consistent (check_conflicts rule risks es).1
unfolding check_conflicts
check_conflicts_iff rule [] es c = (λ _. c, λ _. refl)
check_conflicts_iff rule (risk ∷ risks) es c =
    let e = signed rule risk in
    let step = differs_iff e es c in
    elim (Bool-cases (differs_from rule.action (previous_action e.signature es))) [
      | inl t ↦ (
        λ h. absurd (ground (arith, t, h)),
        λ d. absurd (ground (arith, t, step.1 (Consistent-check rule risks (e ∷ es) d))),
      )
      | inr t ↦
          let rest = check_conflicts_iff rule risks (e ∷ es) (step.0 t) in
          (λ h. rest.0 (ground (arith, t, h)), λ d. let k = rest.1 d in ground (arith, t, k))
    ]

-- The entries after a loop over rules.
entries_after : List Rule → List SignedAction → List SignedAction
entries_after [] es = es
entries_after (rule ∷ rules) es = entries_after rules (check_conflicts rule rule.risk_levels es).1

In-entries_after :
    (rules : List Rule) (es : List SignedAction) (x : SignedAction)
    → In x (entries_after rules es) ↔ (
        In x es
        ⊎ ((rule : Rule) × (In rule rules
              × ((risk : RiskLevel) × (In risk rule.risk_levels × (x ≡ signed rule risk))))))
unfolding entries_after
In-entries_after [] es x = (inl, ⊎_elim (λ m. m) (λ (r, (m, k)). absurd m))
In-entries_after (rule ∷ rules) es x =
    let rest = In-entries_after rules (check_conflicts rule rule.risk_levels es).1 x in
    let here = In-check rule rule.risk_levels es x in
    (
      λ m.
          ⊎_elim (λ n. ⊎_elim (λ k. inl k) (λ k. inr (rule, (inl refl, k))) (here.0 n))
            (λ (r, (k, e)). inr (r, (inr k, e))) (rest.0 m),
      λ m. rest.1 (
          ⊎_elim (λ k. inl (here.1 (inl k)))
            (λ (r, (k, e)).
              ⊎_elim
                (λ (p : r ≡ rule). inl (
                  here.1 (
                    inr (
                      subst
                        (λ (q : Rule).
                          (risk : RiskLevel) × (In risk q.risk_levels × (x ≡ signed q risk)))
                        p e))))
                (λ q. inr (r, (q, e))) k)
            m),
    )

Consistent-entries_after :
    (rules : List Rule) (es : List SignedAction)
    → Consistent (entries_after rules es)
    → Consistent es
Consistent-entries_after rules es c x y p q s =
    c x y ((In-entries_after rules es x).1 (inl p)) ((In-entries_after rules es y).1 (inl q)) s

-- Every rule has an id that is not among those seen nor those of the rules before it.
abbrev pub UniqueIds : List String → List Rule → Type 0
UniqueIds seen [] = Unit
UniqueIds seen (rule ∷ rules) =
    (elem rule.rule_id seen ≡ false) × UniqueIds (rule.rule_id ∷ seen) rules

abbrev pub KeepsFloor : List Rule → Type 0
KeepsFloor rules = All (λ r. lowers_floor r ≡ false) rules

append_empty : {A : Type 0} (xs ys : List A) → (xs ++ ys ≡ []) ↔ ((xs ≡ []) × (ys ≡ []))
append_empty [] ys = ground arith
append_empty (x ∷ xs) ys = ground arith

blocking_issues_iff :
    (rules : List Rule) (seen : List String) (es : List SignedAction)
    → Consistent es
    → (blocking_issues rules seen es ≡ [])
      ↔ (UniqueIds seen rules × (KeepsFloor rules × Consistent (entries_after rules es)))
unfolding blocking_issues entries_after
blocking_issues_iff [] seen es c = (λ _. (tt, (tt, c)), λ _. refl)
blocking_issues_iff (rule ∷ rules) seen es c =
    let checked = check_conflicts rule rule.risk_levels es in
    let here = check_conflicts_iff rule rule.risk_levels es c in
    let later = blocking_issues rules (rule.rule_id ∷ seen) checked.1 in
    elim (Bool-cases (elem rule.rule_id seen)) [
      | inl t ↦ (λ h. absurd (ground (arith, t, h)), λ (u, k). absurd (ground (arith, t, u.0)))
      | inr t ↦ elim (Bool-cases (lowers_floor rule)) [
        | inl f ↦
            (λ h. absurd (ground (arith, t, f, h)), λ (u, (k, d)). absurd (ground (arith, f, k.0)))
        | inr f ↦ (
          λ h.
              let (a, b) = (append_empty checked.0 later).0 (ground (arith, t, f, h)) in
              let (u, (k, d)) =
                (blocking_issues_iff rules (rule.rule_id ∷ seen) checked.1 (here.0 a)).0 b in
              ((t, u), ((f, k), d)),
          λ (u, (k, d)).
              let mid = Consistent-entries_after rules checked.1 d in
              let b =
                (blocking_issues_iff rules (rule.rule_id ∷ seen) checked.1 mid).1 (u.1, (k.1, d)) in
              let a = here.1 mid in
              let both = (append_empty checked.0 later).1 (a, b) in ground (arith, t, f, both),
        )
      ]
    ]

-- Two rules of one kind and one match that share a risk level have one action.
abbrev pub NoConflict : List Rule → Type 0
NoConflict rules =
    (r s : Rule) (risk : RiskLevel)
    → In r rules
    → In s rules
    → In risk r.risk_levels
    → In risk s.risk_levels
    → r.target_kind ≡ s.target_kind
    → match_signature r ≡ match_signature s
    → r.action ≡ s.action

NoConflict-iff : (rules : List Rule) → Consistent (entries_after rules []) ↔ NoConflict rules
NoConflict-iff rules = (
  λ c r s risk m n i j kind text.
      let e = (In-entries_after rules [] (signed r risk)).1 (inr (r, (m, (risk, (i, refl))))) in
      let f = (In-entries_after rules [] (signed s risk)).1 (inr (s, (n, (risk, (j, refl))))) in
      c (signed r risk) (signed s risk) e f (ground (arith, kind, text)),
  λ d x y p q s.
      ⊎_elim (λ k. absurd k)
        (λ (r, (m, (risk, (i, e)))).
          ⊎_elim (λ k. absurd k)
            (λ (t, (n, (other, (j, f)))).
              let same : (signed r risk).signature ≡ (signed t other).signature =
                ap (λ (z : SignedAction). z.signature) (sym e)
                ∙ (s ∙ ap (λ (z : SignedAction). z.signature) f) in
              let kind = ap (λ (z : Signature). z.target_kind) same in
              let text = ap (λ (z : Signature). z.text) same in
              let level : other ≡ risk = sym (ap (λ (z : Signature). z.risk_level) same) in
              ap (λ (z : SignedAction). z.action) e
              ∙ (d r t risk m n i (subst (λ z. In z t.risk_levels) level j) kind text
                  ∙ sym (ap (λ (z : SignedAction). z.action) f)))
            ((In-entries_after rules [] y).0 q))
        ((In-entries_after rules [] x).0 p),
)

pub validate_approval_policy_iff :
    (surfaces : List RiskSurface) (rules : List Rule)
    → ((validate_approval_policy surfaces rules).valid ≡ true)
      ↔ (UniqueIds [] rules × (KeepsFloor rules × NoConflict rules))
unfolding validate_approval_policy
validate_approval_policy_iff surfaces rules =
    let blocking = blocking_issues_iff rules [] [] (λ e f m n s. absurd m) in
    let conflicts = NoConflict-iff rules in
    (
      λ h. let (u, (k, c)) = blocking.0 (ground (arith, h)) in (u, (k, conflicts.0 c)),
      λ (u, (k, d)).
          let none_left = blocking.1 (u, (k, conflicts.1 d)) in ground (arith, none_left),
    )
