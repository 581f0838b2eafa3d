-- ===== src/PolicyCenter/Versions.antt =====
-- backend/app/policy_center/sqlalchemy_store.py: the versions of an approval policy, from draft to
-- published and superseded. The surfaces of the project, times and new ids are arguments. A rule is
-- kept as the value that its JSON is of.
pub mod Published
pub mod Invariant
pub mod Steps
use aegis_flow.Base.{
  ℕ, ◌+◌, String, Bool, true, false, not, ◌&&◌, ◌||◌, Option, none, some, List, [], ◌∷◌, ◌++◌, ◌==◌,
  map, any, keep, Result, ok, err, ◌>>=◌, ◌>>◌, raise_if, if◌then◌else◌, eqb, ltb,
}
use aegis_flow.Base.Rows.{find_row, modify}
use aegis_flow.PolicyCenter.{Rule, PolicyVersion}
use aegis_flow.PolicyCenter.Validation.{RiskSurface, ValidationResult, validate_approval_policy}

pub data PolicyStatus : Type 0 where
  draft published superseded : PolicyStatus

-- A row of `ApprovalPolicyVersion`. The impact summary is the one of the validation result.
pub record VersionRow : Type 0 where
  pub id : String
  pub project_id : String
  pub policy_ref : String
  pub version : ℕ
  pub status : PolicyStatus
  pub title : String
  pub description : String
  pub rules : List Rule
  pub validation_result : Option ValidationResult
  pub source_version_id : Option String
  pub published_at : Option ℕ
  pub published_by : Option String
  pub created_by : String
  pub updated_by : String

pub record DraftRequest : Type 0 where
  pub policy_ref : String
  pub title : String
  pub description : String
  pub rules : List Rule
  pub source_version_id : Option String

pub data PolicyError : Type 0 where
  policy_not_found validation_failed publish_conflict integrity_error : PolicyError

abbrev pub is_draft : PolicyStatus → Bool
is_draft draft = true
is_draft _ = false

abbrev pub is_published : PolicyStatus → Bool
is_published published = true
is_published _ = false

abbrev pub is_of : String → String → VersionRow → Bool
is_of project_id policy_ref v = v.project_id == project_id && v.policy_ref == policy_ref

-- The published versions of a policy.
abbrev pub is_current : String → String → VersionRow → Bool
is_current project_id policy_ref v = is_of project_id policy_ref v && is_published v.status

-- `select(func.max(version))`, with 0 where there is none
unfoldable pub latest_version : String → String → List VersionRow → ℕ
latest_version project_id policy_ref [] = 0
latest_version project_id policy_ref (v ∷ vs) =
    let rest = latest_version project_id policy_ref vs in
    if is_of project_id policy_ref v && ltb rest v.version then v.version else rest

-- `_next_approval_policy_version`
abbrev pub next_version : String → String → List VersionRow → ℕ
next_version project_id policy_ref vs = latest_version project_id policy_ref vs + 1

-- `uq_policy_center_approval_policy_version`
abbrev pub same_version : VersionRow → VersionRow → Bool
same_version v w = is_of v.project_id v.policy_ref w && eqb v.version w.version

-- A new row, under the unique constraint.
unfoldable pub insert_version :
    PolicyError → VersionRow → List VersionRow → Result PolicyError (List VersionRow)
insert_version conflict v vs = if any (same_version v) vs then err conflict else ok (vs ++ v ∷ [])

abbrev pub new_draft : String → String → String → DraftRequest → ℕ → VersionRow
new_draft id project_id actor_id request version = record {
  id = id;
  project_id = project_id;
  policy_ref = request.policy_ref;
  version = version;
  status = draft;
  title = request.title;
  description = request.description;
  rules = request.rules;
  validation_result = none;
  source_version_id = request.source_version_id;
  published_at = none;
  published_by = none;
  created_by = actor_id;
  updated_by = actor_id;
}

unfoldable pub create_approval_policy_draft :
    String
    → String
    → String
    → DraftRequest
    → List VersionRow
    → Result PolicyError (VersionRow × List VersionRow)
create_approval_policy_draft id project_id actor_id request vs =
    let v =
      new_draft id project_id actor_id request (next_version project_id request.policy_ref vs) in
    insert_version integrity_error v vs >>= λ after. ok (v, after)

-- The draft under an id.
abbrev pub is_draft_row : String → String → VersionRow → Bool
is_draft_row project_id draft_id v =
    (v.project_id == project_id && v.id == draft_id) && is_draft v.status

abbrev pub with_validation : ValidationResult → VersionRow → VersionRow
with_validation validation v = record v { validation_result = some validation }

unfoldable pub validate_approval_policy_draft :
    List RiskSurface
    → String
    → String
    → List VersionRow
    → Result PolicyError (ValidationResult × List VersionRow)
validate_approval_policy_draft surfaces project_id draft_id vs =
    elim (find_row (is_draft_row project_id draft_id) vs) [
      | none ↦ err policy_not_found
      | some v ↦
          let validation = validate_approval_policy surfaces v.rules in
          (modify policy_not_found (is_draft_row project_id draft_id) (with_validation validation)
              vs
            >>= λ r. ok (validation, r.1))
    ]

abbrev pub superseded_by : String → VersionRow → VersionRow
superseded_by actor_id v = record v { status = superseded; updated_by = actor_id }

-- `_supersede_current_policy`
unfoldable pub supersede_current : String → String → String → List VersionRow → List VersionRow
supersede_current project_id policy_ref actor_id [] = []
supersede_current project_id policy_ref actor_id (v ∷ vs) =
    let rest = supersede_current project_id policy_ref actor_id vs in
    (if is_current project_id policy_ref v then superseded_by actor_id v else v) ∷ rest

abbrev pub publication : ValidationResult → String → ℕ → VersionRow → VersionRow
publication validation actor_id now v = record v {
  status = published;
  validation_result = some validation;
  published_at = some now;
  published_by = some actor_id;
  updated_by = actor_id;
}

-- A draft that does not pass keeps the result of its validation, and the publication is refused.
unfoldable pub publish_approval_policy_draft :
    List RiskSurface
    → String
    → String
    → String
    → ℕ
    → List VersionRow
    → Result PolicyError VersionRow × List VersionRow
publish_approval_policy_draft surfaces project_id draft_id actor_id now vs =
    elim (find_row (is_draft_row project_id draft_id) vs) [
      | none ↦ (err policy_not_found, vs)
      | some v ↦
          let validation = validate_approval_policy surfaces v.rules in
          if not validation.valid
          then elim (modify policy_not_found (is_draft_row project_id draft_id)
              (with_validation validation) vs) [
                | err raised ↦ (err raised, vs)
                | ok (_, after) ↦ (err validation_failed, after)
              ]
          else elim (modify policy_not_found (is_draft_row project_id draft_id)
              (publication validation actor_id now)
              (supersede_current project_id v.policy_ref actor_id vs)) [
                | err raised ↦ (err raised, vs)
                | ok (w, after) ↦ (ok w, after)
              ]
    ]

-- `_get_approval_policy_by_version`
abbrev pub is_past : String → String → ℕ → VersionRow → Bool
is_past project_id policy_ref version v =
    (is_of project_id policy_ref v && eqb v.version version) && not (is_draft v.status)

abbrev pub rolled_back : String → String → ℕ → ValidationResult → ℕ → VersionRow → VersionRow
rolled_back id actor_id now validation version target = record target {
  id = id;
  version = version;
  status = published;
  validation_result = some validation;
  source_version_id = some target.id;
  published_at = some now;
  published_by = some actor_id;
  created_by = actor_id;
  updated_by = actor_id;
}

unfoldable pub rollback_approval_policy :
    List RiskSurface
    → String
    → String
    → String
    → ℕ
    → String
    → ℕ
    → List VersionRow
    → Result PolicyError (VersionRow × List VersionRow)
rollback_approval_policy surfaces id project_id policy_ref target_version actor_id now vs =
    elim (find_row (is_past project_id policy_ref target_version) vs) [
      | none ↦ err policy_not_found
      | some target ↦
          let validation = validate_approval_policy surfaces target.rules in
          if not validation.valid
          then err validation_failed
          else (let rest = supersede_current project_id policy_ref actor_id vs in
              let v =
                rolled_back id actor_id now validation (next_version project_id policy_ref rest)
                  target in
              insert_version publish_conflict v rest >>= λ after. ok (v, after))
    ]

-- The published version of the highest number; numbers of a policy are unique, so the order by id that
-- follows it never decides.
unfoldable pub newest_published : String → String → List VersionRow → Option VersionRow
newest_published project_id policy_ref [] = none
newest_published project_id policy_ref (v ∷ vs) =
    let rest = newest_published project_id policy_ref vs in
    if is_current project_id policy_ref v
    then elim rest [ none ↦ some v | some w ↦ if ltb v.version w.version then some w else some v ]
    else rest

-- Of `_approval_policy_version_read`, what the evaluator reads.
abbrev pub as_policy : VersionRow → PolicyVersion
as_policy v = record { policy_ref = v.policy_ref; version = v.version; rules = v.rules }

unfoldable pub load_published_approval_policy :
    String → String → List VersionRow → Option PolicyVersion
load_published_approval_policy project_id policy_ref vs =
    elim (newest_published project_id policy_ref vs) [ none ↦ none | some v ↦ some (as_policy v) ]
