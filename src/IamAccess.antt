-- ===== src/IamAccess.antt =====
-- backend/app/iam/access.py: which projects an account may use, and which it is shown. An id is a text;
-- `sorted` orders texts by their code points.
pub mod Visible
use aegis_flow.Base.{
  String, Bool, true, false, not, ◌&&◌, List, [], map, ◌==◌, if◌then◌else◌, any, keep, elem,
}
use aegis_flow.Base.Sorted.{sort_texts, sorted_set}

-- `PrincipalStatus`
pub data PrincipalStatus : Type 0 where
  active disabled : PrincipalStatus

-- `ProjectStatus`
pub data ProjectStatus : Type 0 where
  active archived : ProjectStatus

pub record AccountPrincipal : Type 0 where
  pub account_id : String
  pub status : PrincipalStatus
  pub is_super_admin : Bool

pub record MembershipGrant : Type 0 where
  pub account_id : String
  pub project_id : String
  pub project_status : ProjectStatus
  pub member_status : PrincipalStatus
  pub permissions : List String

-- `ProjectAccessService`; the ids of the active projects are a set.
pub record ProjectAccessService : Type 0 where
  pub memberships : List MembershipGrant
  pub active_project_ids : List String

abbrev pub is_active : PrincipalStatus → Bool
is_active PrincipalStatus.active = true
is_active disabled = false

abbrev pub is_open : ProjectStatus → Bool
is_open ProjectStatus.active = true
is_open archived = false

abbrev pub grants_access : AccountPrincipal → String → String → MembershipGrant → Bool
grants_access principal project_id required_permission grant =
    grant.account_id == principal.account_id
    && grant.project_id == project_id
    && is_open grant.project_status
    && is_active grant.member_status
    && elem required_permission grant.permissions

unfoldable pub can_access_project : ProjectAccessService → AccountPrincipal → String → String → Bool
can_access_project service principal project_id required_permission =
    if not (is_active principal.status)
    then false
    else if principal.is_super_admin
    then elem project_id service.active_project_ids
    else any (grants_access principal project_id required_permission) service.memberships

abbrev pub shows : AccountPrincipal → MembershipGrant → Bool
shows principal grant =
    grant.account_id == principal.account_id
    && is_open grant.project_status
    && is_active grant.member_status

unfoldable pub list_visible_project_ids : ProjectAccessService → AccountPrincipal → List String
list_visible_project_ids service principal =
    if not (is_active principal.status)
    then []
    else if principal.is_super_admin
    then sorted_set service.active_project_ids
    else sorted_set (map (λ g. g.project_id) (keep (shows principal) service.memberships))
