-- ===== src/PolicyCenter/Versions/Published.antt =====
-- What a publication and a rollback leave as the published policy.
use aegis_flow.Base.{
  ℕ, ◌<◌, String, Bool, true, false, none, some, List, [], ◌∷◌, any, ◌≡◌, refl, sym, ap, ◌∙◌, subst,
  inl, inr, arith, Bool-cases, ok, >>=-eq-ok, In, All, eq_iff, eq_refl, if◌then◌else◌, ltb, eqb,
}
use aegis_flow.Base.Rows.{find_row, find_row_sound, modify, modify-total}
use aegis_flow.PolicyCenter.{
  Rule, PolicyVersion, DecisionRequest, evaluate_policy, first_decision, default_decision,
  decision_from_rule,
}
use aegis_flow.PolicyCenter.Validation.{RiskSurface, validate_approval_policy}
use aegis_flow.PolicyCenter.Versions.{
  draft, VersionRow, policy_not_found, is_of, is_current, latest_version, same_version,
  is_draft_row, supersede_current, publication, publish_approval_policy_draft, is_past,
  newest_published, as_policy, load_published_approval_policy,
}

-- No version of the policy is published.
abbrev pub Unpublished : String → String → List VersionRow → Type 0
Unpublished project_id policy_ref vs = All (λ v. is_current project_id policy_ref v ≡ false) vs

pub supersede-Unpublished :
    (project_id policy_ref actor_id : String) (vs : List VersionRow)
    → Unpublished project_id policy_ref (supersede_current project_id policy_ref actor_id vs)
unfolding supersede_current
supersede-Unpublished project_id policy_ref actor_id [] = tt
supersede-Unpublished project_id policy_ref actor_id (v ∷ vs) = (
  elim (Bool-cases (is_current project_id policy_ref v)) [
    | inl t ↦ rw t (ground arith)
    | inr t ↦ rw t t
  ],
  supersede-Unpublished project_id policy_ref actor_id vs,
)

-- A draft is where it was, and no draft is new.
pub find_row-supersede :
    (project_id policy_ref actor_id id : String) (vs : List VersionRow)
    → find_row (is_draft_row project_id id) (supersede_current project_id policy_ref actor_id vs)
      ≡ find_row (is_draft_row project_id id) vs
unfolding supersede_current find_row
find_row-supersede project_id policy_ref actor_id id [] = refl
find_row-supersede project_id policy_ref actor_id id (v ∷ vs) =
    ground (arith, find_row-supersede project_id policy_ref actor_id id vs)

newest-none :
    (project_id policy_ref : String) (vs : List VersionRow)
    → Unpublished project_id policy_ref vs
    → newest_published project_id policy_ref vs ≡ none
unfolding newest_published
newest-none project_id policy_ref [] u = refl
newest-none project_id policy_ref (v ∷ vs) u =
    ground (arith, newest-none project_id policy_ref vs u.1)

-- One row that is published among rows that are not is the newest.
newest-modify :
    (project_id policy_ref : String) (p : VersionRow → Bool) (f : VersionRow → VersionRow)
    (vs : List VersionRow) (b w : VersionRow) (after : List VersionRow)
    → Unpublished project_id policy_ref vs
    → find_row p vs ≡ some b
    → is_current project_id policy_ref (f b) ≡ true
    → modify policy_not_found p f vs ≡ ok (w, after)
    → (newest_published project_id policy_ref after ≡ some w) × (w ≡ f b)
unfolding newest_published modify find_row
newest-modify project_id policy_ref p f [] b w after u found c h = cc
newest-modify project_id policy_ref p f (v ∷ vs) b w after u found c h = elim (Bool-cases (p v)) [
  | inl t ↦
      let same : v ≡ b = ground arith in
      let row : w ≡ f b = ground (arith, same) in
      let e : f b ∷ vs ≡ after = ground (arith, same) in
      let rest = newest-none project_id policy_ref vs u.1 in
      (
        subst (λ zs. newest_published project_id policy_ref zs ≡ some w) e
            (simp (c, rest, newest_published) (ap some (sym row))),
        row,
      )
  | inr t ↦
      let (r, k, s) =
        >>=-eq-ok {B = VersionRow × List VersionRow} (modify policy_not_found p f vs)
          (λ r. ok (r.0, v ∷ r.1)) {b = (w, after)} (ground arith) in
      let e : v ∷ r.1 ≡ after = ground arith in
      let row : r.0 ≡ w = ground arith in
      let (n, q) = newest-modify project_id policy_ref p f vs b r.0 r.1 u.1 (ground arith) c k in
      (
        subst (λ zs. newest_published project_id policy_ref zs ≡ some w) e
            (simp (u.0, n, newest_published) (ap some row)),
        sym row ∙ q,
      )
]

bounds : (v w rest : ℕ) → (if ltb rest v then v else rest) < w → (eqb v w ≡ false) × (rest < w)
bounds v w rest h = ground arith

-- The next number of a policy is new.
pub next-unused :
    (vs : List VersionRow) (w : VersionRow)
    → latest_version w.project_id w.policy_ref vs < w.version
    → any (same_version w) vs ≡ false
unfolding latest_version
next-unused [] w h = refl
next-unused (v ∷ vs) w h = elim (Bool-cases (is_of w.project_id w.policy_ref v)) [
  | inl t ↦
      let (above, rest) =
        bounds v.version w.version (latest_version w.project_id w.policy_ref vs) (rw t at h) in
      ground (arith, t, above, next-unused vs w rest)
  | inr t ↦ ground (arith, t, next-unused vs w (rw t at h))
]

first_decision-same :
    (redact : String → String) (request : DecisionRequest) (p q : PolicyVersion) (rules : List Rule)
    → (first_decision redact request p rules).decision
      ≡ (first_decision redact request q rules).decision
unfolding first_decision default_decision decision_from_rule
first_decision-same redact request p q [] = ground arith
first_decision-same redact request p q (rule ∷ rules) =
    ground (arith, first_decision-same redact request p q rules)

-- Policies with the same rules decide the same.
pub evaluate_policy-same :
    (redact : String → String) (request : DecisionRequest) (p q : PolicyVersion)
    → p.rules ≡ q.rules
    → (evaluate_policy redact request (some p)).decision
      ≡ (evaluate_policy redact request (some q)).decision
unfolding evaluate_policy
evaluate_policy-same redact request p q e =
    subst
      (λ rules.
        (first_decision redact request p p.rules).decision
        ≡ (first_decision redact request q rules).decision)
      e (first_decision-same redact request p q p.rules)

pub draft-own :
    (project_id id : String) (vs : List VersionRow) (v : VersionRow)
    → find_row (is_draft_row project_id id) vs ≡ some v
    → In v vs × ((v.project_id ≡ project_id) × (v.status ≡ draft))
draft-own project_id id vs v h =
    let (m, q) = find_row_sound (is_draft_row project_id id) vs v h in
    (m, ground (arith, q, eq_iff v.project_id project_id))

-- The publication of a valid draft.
pub publish-valid :
    (surfaces : List RiskSurface) (project_id draft_id actor_id : String) (now : ℕ)
    (vs : List VersionRow) (v : VersionRow)
    → find_row (is_draft_row project_id draft_id) vs ≡ some v
    → (validate_approval_policy surfaces v.rules).valid ≡ true
    → (w : VersionRow) × ((after : List VersionRow) × ((publish_approval_policy_draft surfaces
              project_id draft_id actor_id now vs
            ≡ (ok w, after))
          × ((modify policy_not_found
                  (is_draft_row project_id draft_id)
                  (publication (validate_approval_policy surfaces v.rules) actor_id now)
                  (supersede_current project_id v.policy_ref actor_id vs)
                ≡ ok (w, after))
              × ((newest_published project_id v.policy_ref after ≡ some w)
                  × (w ≡ publication (validate_approval_policy surfaces v.rules) actor_id now v)))))
unfolding publish_approval_policy_draft
publish-valid surfaces project_id draft_id actor_id now vs v found valid =
    let validation = validate_approval_policy surfaces v.rules in
    let p = is_draft_row project_id draft_id in
    let f = publication validation actor_id now in
    let rest = supersede_current project_id v.policy_ref actor_id vs in
    let still : find_row p rest ≡ some v =
      find_row-supersede project_id v.policy_ref actor_id draft_id vs ∙ found in
    let (m, q) = find_row_sound p rest v still in
    let ((w, after), e) = modify-total policy_not_found p f rest v m q in
    let (_, (own, _)) = draft-own project_id draft_id vs v found in
    let current : is_current project_id v.policy_ref (f v) ≡ true =
      ground (arith, eq_refl v.policy_ref, (eq_iff v.project_id project_id).1 own) in
    let (n, row) =
      newest-modify project_id v.policy_ref p f rest v w after
        (supersede-Unpublished project_id v.policy_ref actor_id vs) still current e in
    (w, (after, (simp (found, valid, e, publish_approval_policy_draft) refl, (e, (n, row)))))

-- A valid draft is published: the published policy of its name has the draft's number and rules from then on.
pub publish_approval_policy_draft_lem :
    (surfaces : List RiskSurface) (project_id draft_id actor_id : String) (now : ℕ)
    (vs : List VersionRow) (v : VersionRow)
    → find_row (is_draft_row project_id draft_id) vs ≡ some v
    → (validate_approval_policy surfaces v.rules).valid ≡ true
    → (w : VersionRow) × ((after : List VersionRow) × ((publish_approval_policy_draft surfaces
              project_id draft_id actor_id now vs
            ≡ (ok w, after))
          × (load_published_approval_policy project_id v.policy_ref after ≡ some (as_policy v))))
unfolding load_published_approval_policy
publish_approval_policy_draft_lem surfaces project_id draft_id actor_id now vs v found valid =
    let (w, (after, (e, (_, (n, row))))) =
      publish-valid surfaces project_id draft_id actor_id now vs v found valid in
    (
      w,
      (
        after,
        (
          e,
          simp (n, load_published_approval_policy)
              (ap (λ (r : VersionRow). some (as_policy r)) row),
        ),
      ),
    )

pub past-own :
    (project_id policy_ref : String) (version : ℕ) (vs : List VersionRow) (v : VersionRow)
    → find_row (is_past project_id policy_ref version) vs ≡ some v
    → (v.project_id ≡ project_id) × (v.policy_ref ≡ policy_ref)
past-own project_id policy_ref version vs v h =
    let (m, q) = find_row_sound (is_past project_id policy_ref version) vs v h in
    ground (arith, q, eq_iff v.project_id project_id, eq_iff v.policy_ref policy_ref)
