-- ===== src/PolicyCenter/Versions/Steps.antt =====
-- The versions of approval policies over any sequence of drafts, validations, publications and rollbacks.
use aegis_flow.Base.{
  ℕ, String, true, false, some, List, [], ◌∷◌, ◌++◌, any, count, count-append, ◌≡◌, refl, sym, ap,
  ◌∙◌, subst, inl, inr, arith, Bool-cases, Option-cases, Result-cases, Result, ok, All-append,
  eq_iff,
}
use aegis_flow.Base.Rows.{find_row, modify, modify-All, modify-All_found, modify-count}
use aegis_flow.PolicyCenter.Validation.{RiskSurface, ValidationResult, validate_approval_policy}
use aegis_flow.PolicyCenter.Validation.Accepts.{validate_approval_policy_iff}
use aegis_flow.PolicyCenter.Versions.{
  VersionRow, DraftRequest, PolicyError, policy_not_found, is_current, next_version, same_version,
  insert_version, new_draft, create_approval_policy_draft, is_draft_row, with_validation,
  validate_approval_policy_draft, supersede_current, publication, publish_approval_policy_draft,
  is_past, rolled_back, rollback_approval_policy,
}
use aegis_flow.PolicyCenter.Versions.Published.{
  supersede-Unpublished, find_row-supersede, next-unused, publish-valid, draft-own, past-own,
}
use aegis_flow.PolicyCenter.Versions.Invariant.{
  Passed, IsSound, DistinctKeys, Numbered-append, Numbered-modify, Unpublished-count,
  supersede-keys, supersede-Passed, supersede-count,
}

-- A row whose number is new, and that is a draft or the first published one of its policy.
append-IsSound :
    (vs : List VersionRow) (w : VersionRow)
    → IsSound vs
    → any (same_version w) vs ≡ false
    → ((p r : String) → is_current p r w ≡ true → count (is_current p r) vs ≡ 0)
    → Passed w
    → IsSound (vs ++ w ∷ [])
append-IsSound vs w (n, (s, a)) unused first passed = (
  Numbered-append vs w n unused,
  (
    λ p r.
        let both = count-append (is_current p r) vs (w ∷ []) in
        let before = s p r in
        elim (Bool-cases (is_current p r w)) [
          | inl t ↦ let zero_before = first p r t in ground (arith, both, zero_before, t)
          | inr t ↦ ground (arith, both, before, t)
        ],
    All-append Passed vs (w ∷ []) a (passed, tt),
  ),
)

create-IsSound :
    (id project_id actor_id : String) (request : DraftRequest) (vs : List VersionRow)
    → IsSound vs
    → (v : VersionRow) × ((after : List VersionRow) × ((create_approval_policy_draft id project_id
              actor_id request vs
            ≡ ok (v, after))
          × IsSound after))
unfolding create_approval_policy_draft insert_version
create-IsSound id project_id actor_id request vs sound =
    let v =
      new_draft id project_id actor_id request (next_version project_id request.policy_ref vs) in
    let unused : any (same_version v) vs ≡ false = next-unused vs v (omega arith) in
    (
      v,
      (
        vs ++ v ∷ [],
        (
          simp (unused, create_approval_policy_draft, insert_version) refl,
          append-IsSound vs v sound unused (λ p r h. absurd (ground (arith, h)))
              (λ h. absurd (cc h)),
        ),
      ),
    )

-- The result of a validation, written on a draft.
noted-IsSound :
    (validation : ValidationResult) (project_id id : String) (vs : List VersionRow)
    (v w : VersionRow) (after : List VersionRow)
    → find_row (is_draft_row project_id id) vs ≡ some v
    → modify policy_not_found (is_draft_row project_id id) (with_validation validation) vs
      ≡ ok (w, after)
    → IsSound vs
    → IsSound after
noted-IsSound validation project_id id vs v w after found h (n, (s, a)) =
    let p = is_draft_row project_id id in
    let f = with_validation validation in
    (
      Numbered-modify p f vs w after (λ x. refl) h n,
      (
        λ q r.
            let same = modify-count (is_current q r) policy_not_found p f vs v w after found h in
            omega (arith, same, s q r),
        modify-All Passed policy_not_found p f vs w after (λ x _ k. k) a h,
      ),
    )

supersede-IsSound :
    (project_id policy_ref actor_id : String) (vs : List VersionRow)
    → IsSound vs
    → IsSound (supersede_current project_id policy_ref actor_id vs)
supersede-IsSound project_id policy_ref actor_id vs (n, (s, a)) = (
  subst DistinctKeys (sym (supersede-keys project_id policy_ref actor_id vs)) n,
  (
    λ p r. omega (arith, supersede-count project_id policy_ref actor_id p r vs, s p r),
    supersede-Passed project_id policy_ref actor_id vs a,
  ),
)

-- A row of the policy, where no version of the policy is published.
first-published :
    (project_id policy_ref actor_id : String) (vs : List VersionRow) (w : VersionRow) (p r : String)
    → w.project_id ≡ project_id
    → w.policy_ref ≡ policy_ref
    → is_current p r w ≡ true
    → count (is_current p r) (supersede_current project_id policy_ref actor_id vs) ≡ 0
first-published project_id policy_ref actor_id vs w p r own name h =
    let p_same : project_id ≡ p = sym own ∙ (eq_iff w.project_id p).0 (ground (arith, h)) in
    let r_same : policy_ref ≡ r = sym name ∙ (eq_iff w.policy_ref r).0 (ground (arith, h)) in
    let rest = supersede_current project_id policy_ref actor_id vs in
    subst (λ x. count (is_current x r) rest ≡ 0) p_same
      (subst (λ y. count (is_current project_id y) rest ≡ 0) r_same
        (Unpublished-count project_id policy_ref rest
          (supersede-Unpublished project_id policy_ref actor_id vs)))

publication-IsSound :
    (surfaces : List RiskSurface) (project_id draft_id actor_id : String) (now : ℕ)
    (vs : List VersionRow) (v w : VersionRow) (after : List VersionRow)
    → find_row (is_draft_row project_id draft_id) vs ≡ some v
    → (validate_approval_policy surfaces v.rules).valid ≡ true
    → modify policy_not_found
        (is_draft_row project_id draft_id)
        (publication (validate_approval_policy surfaces v.rules) actor_id now)
        (supersede_current project_id v.policy_ref actor_id vs)
      ≡ ok (w, after)
    → IsSound vs
    → IsSound after
publication-IsSound surfaces project_id draft_id actor_id now vs v w after found valid h sound =
    let p = is_draft_row project_id draft_id in
    let f = publication (validate_approval_policy surfaces v.rules) actor_id now in
    let rest = supersede_current project_id v.policy_ref actor_id vs in
    let (n, (s, a)) = supersede-IsSound project_id v.policy_ref actor_id vs sound in
    let still = find_row-supersede project_id v.policy_ref actor_id draft_id vs ∙ found in
    let (_, (own, is_a_draft)) = draft-own project_id draft_id vs v found in
    let passed = (validate_approval_policy_iff surfaces v.rules).0 valid in
    (
      Numbered-modify p f rest w after (λ x. refl) h n,
      (
        λ q r.
            let counted =
              modify-count (is_current q r) policy_not_found p f rest v w after still h in
            let before = s q r in
            elim (Bool-cases (is_current q r (f v))) [
              | inl t ↦
                  let none_before =
                    first-published project_id v.policy_ref actor_id vs (f v) q r own refl t in
                  ground (arith, counted, none_before, t)
              | inr t ↦ ground (arith, counted, before, t)
            ],
        modify-All_found Passed policy_not_found p f rest v w after still (λ _. passed) a h,
      ),
    )

publish-IsSound :
    (surfaces : List RiskSurface) (project_id draft_id actor_id : String) (now : ℕ)
    (vs : List VersionRow)
    → IsSound vs
    → IsSound (publish_approval_policy_draft surfaces project_id draft_id actor_id now vs).1
unfolding publish_approval_policy_draft
publish-IsSound surfaces project_id draft_id actor_id now vs sound =
    elim (Option-cases (find_row (is_draft_row project_id draft_id) vs)) [
      | inl e ↦ simp (e, publish_approval_policy_draft) sound
      | inr (v, e) ↦
          let validation = validate_approval_policy surfaces v.rules in
          elim (Bool-cases validation.valid) [
            | inl t ↦
                let (w, (after, (r, (h, _)))) =
                  publish-valid surfaces project_id draft_id actor_id now vs v e t in
                let same : after
                    ≡ (publish_approval_policy_draft surfaces project_id draft_id actor_id now
                        vs).1 =
                  ap (λ (x : Result PolicyError VersionRow × List VersionRow). x.1) (sym r) in
                subst IsSound same (
                  publication-IsSound surfaces project_id draft_id actor_id now vs v w after e t h
                    sound)
            | inr t ↦
                elim (Result-cases (
                  modify policy_not_found (is_draft_row project_id draft_id)
                    (with_validation validation) vs)) [
                      | inr (raised, h) ↦ simp (e, t, h, publish_approval_policy_draft) sound
                      | inl ((w, after), h) ↦
                          simp (e, t, h, publish_approval_policy_draft)
                            (noted-IsSound validation project_id draft_id vs v w after e h sound)
                    ]
          ]
    ]

validate-IsSound :
    (surfaces : List RiskSurface) (project_id draft_id : String) (vs : List VersionRow)
    (validation : ValidationResult) (after : List VersionRow)
    → validate_approval_policy_draft surfaces project_id draft_id vs ≡ ok (validation, after)
    → IsSound vs
    → IsSound after
unfolding validate_approval_policy_draft
validate-IsSound surfaces project_id draft_id vs validation after h sound =
    elim (Option-cases (find_row (is_draft_row project_id draft_id) vs)) [
      | inl e ↦ absurd (ground (arith, e, h))
      | inr (v, e) ↦
          let result = validate_approval_policy surfaces v.rules in
          elim (Result-cases (
            modify policy_not_found (is_draft_row project_id draft_id) (with_validation result)
              vs)) [
                | inr (raised, m) ↦ absurd (ground (arith, e, m, h))
                | inl ((w, rows), m) ↦
                    let same : rows ≡ after = ground (arith, e, m, h) in
                    subst IsSound same
                      (noted-IsSound result project_id draft_id vs v w rows e m sound)
              ]
    ]

rollback-IsSound :
    (surfaces : List RiskSurface) (id project_id policy_ref : String) (version : ℕ)
    (actor_id : String) (now : ℕ) (vs : List VersionRow) (w : VersionRow) (after : List VersionRow)
    → rollback_approval_policy surfaces id project_id policy_ref version actor_id now vs
      ≡ ok (w, after)
    → IsSound vs
    → IsSound after
unfolding rollback_approval_policy insert_version
rollback-IsSound surfaces id project_id policy_ref version actor_id now vs w after h sound =
    elim (Option-cases (find_row (is_past project_id policy_ref version) vs)) [
      | inl e ↦ absurd (ground (arith, e, h))
      | inr (target, e) ↦
          let validation = validate_approval_policy surfaces target.rules in
          elim (Bool-cases validation.valid) [
            | inr t ↦ absurd (ground (arith, e, t, h))
            | inl t ↦
                let rest = supersede_current project_id policy_ref actor_id vs in
                let v =
                  rolled_back id actor_id now validation (next_version project_id policy_ref rest)
                    target in
                let (own, name) = past-own project_id policy_ref version vs target e in
                let unused : any (same_version v) rest ≡ false =
                  next-unused rest v (rw (own, name) (omega arith)) in
                let same : rest ++ v ∷ [] ≡ after = ground (arith, e, t, unused, h) in
                let passed = (validate_approval_policy_iff surfaces target.rules).0 t in
                subst IsSound same (
                  append-IsSound rest v (supersede-IsSound project_id policy_ref actor_id vs sound)
                    unused
                    (λ p r c. first-published project_id policy_ref actor_id vs v p r own name c)
                    (λ _. passed))
          ]
    ]

-- One call of the store that commits.
pub data Step (vs : List VersionRow) : List VersionRow → Type 0 where
  created :
      (id project_id actor_id : String) (request : DraftRequest) (v : VersionRow)
      (after : List VersionRow)
      → create_approval_policy_draft id project_id actor_id request vs ≡ ok (v, after)
      → Step vs after
  validated :
      (surfaces : List RiskSurface) (project_id draft_id : String) (validation : ValidationResult)
      (after : List VersionRow)
      → validate_approval_policy_draft surfaces project_id draft_id vs ≡ ok (validation, after)
      → Step vs after
  publishes :
      (surfaces : List RiskSurface) (project_id draft_id actor_id : String) (now : ℕ)
      → Step vs (publish_approval_policy_draft surfaces project_id draft_id actor_id now vs).1
  rolls_back :
      (surfaces : List RiskSurface) (id project_id policy_ref : String) (version : ℕ)
      (actor_id : String) (now : ℕ) (w : VersionRow) (after : List VersionRow)
      → rollback_approval_policy surfaces id project_id policy_ref version actor_id now vs
        ≡ ok (w, after)
      → Step vs after

pub data Reachable : List VersionRow → Type 0 where
  start : Reachable []
  step : (vs after : List VersionRow) → Reachable vs → Step vs after → Reachable after

step-IsSound : (vs after : List VersionRow) → IsSound vs → Step vs after → IsSound after
step-IsSound vs _ sound (created id project_id actor_id request v after h) =
    let (w, (rows, (e, s))) = create-IsSound id project_id actor_id request vs sound in
    let same : rows ≡ after = ground (arith, e, h) in subst IsSound same s
step-IsSound vs _ sound (validated surfaces project_id draft_id validation after h) =
    validate-IsSound surfaces project_id draft_id vs validation after h sound
step-IsSound vs _ sound (publishes surfaces project_id draft_id actor_id now) =
    publish-IsSound surfaces project_id draft_id actor_id now vs sound
step-IsSound vs _ sound
      (rolls_back surfaces id project_id policy_ref version actor_id now w after h) =
    rollback-IsSound surfaces id project_id policy_ref version actor_id now vs w after h sound

-- Over any sequence of drafts, validations, publications and rollbacks, one after the other: no two
-- versions of a policy have one number, a policy has one published version at most, and every version that
-- is or was published has unique rule ids, allows no high or critical risk, and has no conflicting rules.
pub versions-IsSound : (vs : List VersionRow) → Reachable vs → IsSound vs
versions-IsSound _ start = (tt, (λ p r. omega arith, tt))
versions-IsSound _ (step vs after r s) = step-IsSound vs after (versions-IsSound vs r) s
