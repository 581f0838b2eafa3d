-- ===== src/Examples/Accounts.antt =====
-- The theorems on project access at an account with one grant.
use aegis_flow.Base.{true, false, [], ◌∷◌, ◌≡◌, refl, ◌↔◌, ◌⊎◌, In}
use aegis_flow.IamAccess.{
  PrincipalStatus, ProjectStatus, AccountPrincipal, MembershipGrant, ProjectAccessService,
  can_access_project, list_visible_project_ids,
}
use aegis_flow.IamAccess.Visible.{Grants, can_access_project_iff, can_access_project-visible}

abbrev amy : AccountPrincipal
amy = record { account_id = "amy"; status = PrincipalStatus.active; is_super_admin = false }

abbrev grant : MembershipGrant
grant = record {
  account_id = "amy";
  project_id = "p";
  project_status = ProjectStatus.active;
  member_status = PrincipalStatus.active;
  permissions = "run" ∷ [];
}

abbrev service : ProjectAccessService
service = record { memberships = grant ∷ []; active_project_ids = "p" ∷ [] }

can_access_project_iff_example : (can_access_project service amy "p" "run" ≡ true) ↔ (
    (amy.status ≡ PrincipalStatus.active)
    × (((amy.is_super_admin ≡ true) × In "p" service.active_project_ids)
        ⊎ ((amy.is_super_admin ≡ false)
            × ((g : MembershipGrant) × (In g service.memberships × Grants amy "p" "run" g)))))
can_access_project_iff_example = can_access_project_iff service amy "p" "run"

runs_in_p : can_access_project service amy "p" "run" ≡ true
unfolding can_access_project
runs_in_p = refl

can_access_project-visible_example : In "p" (list_visible_project_ids service amy)
can_access_project-visible_example = can_access_project-visible service amy "p" "run" runs_in_p
