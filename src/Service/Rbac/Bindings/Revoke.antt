-- ===== src/Service/Rbac/Bindings/Revoke.antt =====
-- internal/service/rbac_service.go, RevokeRole: what a revoked role rests on, and the protection of the last owner of an organization.
use env_vault.Base.{
  ◌≤◌, String, ◌≡◌, ◌≢◌, ◌⊎◌, inl, inr, true, false, ◌&&◌, arith, ok, err, Result-cases, Failure,
  permission_denied, str_eq, eq_iff, Bool-cases,
}
use env_vault.Text.{trim_space, is_blank}
use env_vault.Domain.{Role, RoleBinding}
use env_vault.Domain.Pagination.{PaginatedResult}
use env_vault.Auth.{UserInfo, Authorizer}
use env_vault.Service.Rbac.{RbacRepository, GrantSpec}
use env_vault.Service.Rbac.Guards.{
  guarded_cases, authz_resource, reject_self_grant, is_platform_admin,
  check_global_scope_only_platform, validate_role_binding_scope, first_200, count_owners,
  check_last_org_owner,
}
use env_vault.Service.Rbac.Coverage.{check_caller_parent_coverage}
use env_vault.Service.Rbac.Bindings.{
  revoke_checks, revoke_role, last_owner_check, grant_checks, grant_role,
}

-- The binding is not one of an organization's owner, or what the repository answers for a first page of
-- 200 of the organization's bindings shows at least two owners.
abbrev pub LeavesOwner : {S : Type 0} → RbacRepository S → String → String → String → S → Type 0
LeavesOwner repo role_code scope_type scope_id s =
    ((str_eq role_code "org_owner" && str_eq scope_type "organization") ≡ false)
    ⊎ ((bindings : PaginatedResult RoleBinding) × (repo.list_role_bindings scope_type scope_id
            first_200 s
          ≡ ok bindings)
        × (2 ≤ count_owners bindings.items))

module _ {S : Type 0} (repo : RbacRepository S) (authorizer : Authorizer S)
    (role_code scope_type scope_id : String) (s : S) where
  last_owner_check_sound :
      last_owner_check repo authorizer role_code scope_type scope_id s ≡ ok tt
      → LeavesOwner repo role_code scope_type scope_id s
  unfolding last_owner_check check_last_org_owner
  last_owner_check_sound h =
      elim (Bool-cases (str_eq role_code "org_owner" && str_eq scope_type "organization")) [
        | inr other ↦ inl other
        | inl owner ↦
            elim (Result-cases (repo.list_role_bindings scope_type scope_id first_200 s)) [
              | inr (e, failed) ↦ absurd (ground arith)
              | inl (bindings, read) ↦ inr (bindings, read, ground arith)
            ]
      ]

  last_owner_check_complete :
      LeavesOwner repo role_code scope_type scope_id s
      → last_owner_check repo authorizer role_code scope_type scope_id s ≡ ok tt
  unfolding last_owner_check check_last_org_owner
  last_owner_check_complete (inl other) = rw other
  last_owner_check_complete (inr (bindings, read, enough)) = ground arith

module _ {S : Type 0} (repo : RbacRepository S) (authorizer : Authorizer S) (user : UserInfo)
    (user_id role_code scope_type scope_id : String) (s : S) where
  -- Everything that a revocation must satisfy, on the state that it starts from.
  pub record MayRevoke : Type 0 where
    pub named : is_blank user.user_id ≡ false
    pub not_self : trim_space user.user_id ≢ trim_space user_id
    pub global_by_admin : scope_type ≡ "global" → is_platform_admin repo user s ≡ true
    pub allowed :
        authorizer.allow user "rbac:binding:manage" (authz_resource scope_type scope_id) s ≡ ok tt
    pub role : Role
    pub found : repo.get_role "" role_code s ≡ ok role
    pub fits :
        (trim_space role.scope_type ≡ "")
        ⊎ (trim_space scope_type ≡ "")
        ⊎ (trim_space role.scope_type ≡ trim_space scope_type)
    pub covered :
        check_caller_parent_coverage repo user role.permissions scope_type scope_id s ≡ ok tt
    pub leaves_owner : LeavesOwner repo role_code scope_type scope_id s

  revoke_checks_sound :
      revoke_checks repo authorizer user user_id role_code scope_type scope_id s ≡ ok tt → MayRevoke
  unfolding revoke_checks reject_self_grant check_global_scope_only_platform
      validate_role_binding_scope
  revoke_checks_sound h = elim (Result-cases (repo.get_role "" role_code s)) [
    | inr (e, failed) ↦ absurd (ground arith)
    | inl (role, found) ↦ record {
      named = ground arith;
      not_self = ground (arith, eq_iff (trim_space user.user_id) (trim_space user_id));
      global_by_admin = ground (arith, eq_iff scope_type "global");
      allowed = ground arith;
      role = role;
      found = found;
      fits = ground (
        arith,
        eq_iff (trim_space role.scope_type) "",
        eq_iff (trim_space scope_type) "",
        eq_iff (trim_space role.scope_type) (trim_space scope_type),
      );
      covered = ground arith;
      leaves_owner =
          last_owner_check_sound repo authorizer role_code scope_type scope_id s (ground arith);
    }
  ]

  revoke_checks_complete :
      MayRevoke → revoke_checks repo authorizer user user_id role_code scope_type scope_id s ≡ ok tt
  unfolding revoke_checks reject_self_grant check_global_scope_only_platform
      validate_role_binding_scope
  revoke_checks_complete m = ground (
    arith,
    eq_iff (trim_space user.user_id) (trim_space user_id),
    eq_iff scope_type "global",
    eq_iff (trim_space m.role.scope_type) "",
    eq_iff (trim_space scope_type) "",
    eq_iff (trim_space m.role.scope_type) (trim_space scope_type),
    last_owner_check_complete repo authorizer role_code scope_type scope_id s m.leaves_owner,
  )

-- A revocation either satisfies every condition and is then exactly the write of the repository,
-- or it fails one of them and is then an error that leaves the state as it was. The conditions are
-- those of a grant but the one on `platform_admin`, and for the owner role of an organization that the
-- one list of the organization's bindings that is asked for, the first page of size 200, as long as
-- the repository answers it, shows at least two owners; owners beyond that page are not counted.
pub revoke_role_cases :
    {S : Type 0} (repo : RbacRepository S) (authorizer : Authorizer S) (user : UserInfo)
    (user_id role_code scope_type scope_id actor : String) (s : S)
    → MayRevoke repo authorizer user user_id role_code scope_type scope_id s
        × (revoke_role repo authorizer user user_id role_code scope_type scope_id actor s
            ≡ repo.revoke_role user_id role_code scope_type scope_id actor s)
      ⊎ (¬ MayRevoke repo authorizer user user_id role_code scope_type scope_id s)
        × ((e : Failure) × (revoke_role repo authorizer user user_id role_code scope_type scope_id
                actor s
              ≡ (err e, s)))
unfolding revoke_role
revoke_role_cases repo authorizer user user_id role_code scope_type scope_id actor s =
    let checks = revoke_checks repo authorizer user user_id role_code scope_type scope_id in
    elim (guarded_cases checks (repo.revoke_role user_id role_code scope_type scope_id actor) s) [
      | inl (passed, written) ↦ inl (
        revoke_checks_sound repo authorizer user user_id role_code scope_type scope_id s passed,
        written,
      )
      | inr (e, refused, kept) ↦ inr (
        λ m. ground (
          arith,
          revoke_checks_complete repo authorizer user user_id role_code scope_type scope_id s m,
        ),
        (e, kept),
      )
    ]

-- Nobody changes the roles of a user of one's own id, whatever the white space around the ids:
-- granting to it and revoking from it are both refused and leave the state as it was.
self_change_refused :
    {S : Type 0} (repo : RbacRepository S) (authorizer : Authorizer S) (user : UserInfo)
    (spec : GrantSpec) (role_code scope_type scope_id actor : String) (s : S)
    → trim_space user.user_id ≡ trim_space spec.user_id
    → (grant_role repo authorizer user spec actor s ≡ (err permission_denied, s))
      × (revoke_role repo authorizer user spec.user_id role_code scope_type scope_id actor s
          ≡ (err permission_denied, s))
unfolding grant_role grant_checks revoke_role revoke_checks reject_self_grant
self_change_refused repo authorizer user spec role_code scope_type scope_id actor s same =
    let self = eq_iff (trim_space user.user_id) (trim_space spec.user_id) in
    (ground (arith, self), ground (arith, self))
