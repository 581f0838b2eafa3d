-- ===== src/IamAccess/Visible.antt =====
-- Who may use a project, and that an account is shown every project it may use.
use aegis_flow.Base.{
  String, true, false, List, [], ◌∷◌, map, any, keep, ◌≡◌, sym, ◌↔◌, ◌⊎◌, inl, inr, arith, In,
  any_iff, elem_iff, eq_iff, Bool-cases,
}
use aegis_flow.Base.Sorted.{In-sorted_set}
use aegis_flow.IamAccess.{
  PrincipalStatus, ProjectStatus, AccountPrincipal, MembershipGrant, ProjectAccessService,
  is_active, is_open, grants_access, can_access_project, shows, list_visible_project_ids,
}

-- A grant of the permission, of an active member of an active project.
pub record Grants (principal : AccountPrincipal) (project_id permission : String)
    (g : MembershipGrant) : Type 0 where
  pub account : g.account_id ≡ principal.account_id
  pub project : g.project_id ≡ project_id
  pub project_open : g.project_status ≡ ProjectStatus.active
  pub member_active : g.member_status ≡ PrincipalStatus.active
  pub permitted : In permission g.permissions

is_open_iff : (s : ProjectStatus) → (is_open s ≡ true) ↔ (s ≡ ProjectStatus.active)
is_open_iff s = ground arith

is_active_iff : (s : PrincipalStatus) → (is_active s ≡ true) ↔ (s ≡ PrincipalStatus.active)
is_active_iff s = ground arith

grants_access_iff :
    (principal : AccountPrincipal) (project_id permission : String) (g : MembershipGrant)
    → (grants_access principal project_id permission g ≡ true)
      ↔ Grants principal project_id permission g
grants_access_iff principal project_id permission g =
    let a = eq_iff g.account_id principal.account_id in
    let b = eq_iff g.project_id project_id in
    let c = elem_iff permission g.permissions in
    let d = is_open_iff g.project_status in let e = is_active_iff g.member_status in ground arith

some_grant_iff :
    (principal : AccountPrincipal) (project_id permission : String) (gs : List MembershipGrant)
    → (any (grants_access principal project_id permission) gs ≡ true)
      ↔ ((g : MembershipGrant) × (In g gs × Grants principal project_id permission g))
some_grant_iff principal project_id permission gs =
    let i = any_iff (grants_access principal project_id permission) gs in
    (
      λ h.
          let (g, m, e) = i.0 h in
          (g, (m, (grants_access_iff principal project_id permission g).0 e)),
      λ (g, (m, x)). i.1 (g, m, (grants_access_iff principal project_id permission g).1 x),
    )

In-shown :
    (principal : AccountPrincipal) (project_id permission : String) (gs : List MembershipGrant)
    → any (grants_access principal project_id permission) gs ≡ true
    → In project_id (map (λ g. g.project_id) (keep (shows principal) gs))
In-shown principal project_id permission [] h = absurd (ground arith)
In-shown principal project_id permission (g ∷ gs) h =
    elim (Bool-cases (grants_access principal project_id permission g)) [
      | inl t ↦
          let named : project_id ≡ g.project_id =
            sym ((eq_iff g.project_id project_id).0 (ground arith)) in
          let s : shows principal g ≡ true = ground arith in rw s (inl named)
      | inr t ↦
          let later = In-shown principal project_id permission gs (ground arith) in
          elim (Bool-cases (shows principal g)) [ inl s ↦ rw s (inr later) | inr s ↦ rw s later ]
    ]

-- An account may use a project under a permission exactly when the account is active and, as a super
-- admin, the project is among the active ones, or, as any other account, a grant of its own gives the
-- permission in the project, which is active, to a member who is active.
pub can_access_project_iff :
    (service : ProjectAccessService) (principal : AccountPrincipal) (project_id permission : String)
    → (can_access_project service principal project_id permission ≡ true) ↔ (
        (principal.status ≡ PrincipalStatus.active)
        × (((principal.is_super_admin ≡ true) × In project_id service.active_project_ids)
            ⊎ ((principal.is_super_admin ≡ false)
                × ((g : MembershipGrant) × (In g service.memberships
                      × Grants principal project_id permission g)))))
unfolding can_access_project
can_access_project_iff service principal project_id permission =
    let a = is_active_iff principal.status in
    let b = elem_iff project_id service.active_project_ids in
    let c = some_grant_iff principal project_id permission service.memberships in ground arith

-- Every project that an account may use, under any permission, is among those that it is shown.
pub can_access_project-visible :
    (service : ProjectAccessService) (principal : AccountPrincipal) (project_id permission : String)
    → can_access_project service principal project_id permission ≡ true
    → In project_id (list_visible_project_ids service principal)
unfolding can_access_project list_visible_project_ids
can_access_project-visible service principal project_id permission h =
    elim (Bool-cases principal.is_super_admin) [
      | inl s ↦
          let m : In project_id service.active_project_ids =
            (elem_iff project_id service.active_project_ids).0 (ground arith) in
          let v = (In-sorted_set project_id service.active_project_ids).1 m in ground (arith, v)
      | inr s ↦
          let shown = In-shown principal project_id permission service.memberships (ground arith) in
          let v =
            (In-sorted_set project_id
                (map (λ g. g.project_id) (keep (shows principal) service.memberships))).1
              shown in
          ground (arith, v)
    ]
