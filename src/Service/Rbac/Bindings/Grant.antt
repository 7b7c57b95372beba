-- ===== src/Service/Rbac/Bindings/Grant.antt =====
-- internal/service/rbac_service.go, GrantRole: what a granted role rests on.
use env_vault.Base.{
  String, ◌≡◌, ◌≢◌, ◌⊎◌, inl, inr, true, false, arith, ok, err, Result-cases, Failure, eq_iff,
}
use env_vault.Text.{trim_space, is_blank}
use env_vault.Domain.{Role}
use env_vault.Auth.{UserInfo, Authorizer}
use env_vault.Service.Rbac.{RbacRepository, GrantSpec}
use env_vault.Service.Rbac.Guards.{
  guarded_cases, platform_admin, authz_resource, reject_self_grant, is_platform_admin,
  check_global_scope_only_platform, validate_role_binding_scope,
}
use env_vault.Service.Rbac.Roles.{check_platform_role}
use env_vault.Service.Rbac.Coverage.{check_caller_parent_coverage}
use env_vault.Service.Rbac.Bindings.{grant_checks, grant_role}

module _ {S : Type 0} (repo : RbacRepository S) (authorizer : Authorizer S) (user : UserInfo)
    (spec : GrantSpec) (s : S) where
  -- Everything that a grant must satisfy, on the state that it starts from.
  pub record MayGrant : Type 0 where
    pub named : is_blank user.user_id ≡ false
    pub not_self : trim_space user.user_id ≢ trim_space spec.user_id
    pub global_by_admin : spec.scope_type ≡ "global" → is_platform_admin repo user s ≡ true
    pub allowed :
        authorizer.allow user "rbac:binding:manage" (authz_resource spec.scope_type spec.scope_id) s
        ≡ ok tt
    pub admin_by_admin : spec.role_code ≡ platform_admin → is_platform_admin repo user s ≡ true
    pub role : Role
    pub found : repo.get_role "" spec.role_code s ≡ ok role
    pub fits :
        (trim_space role.scope_type ≡ "")
        ⊎ (trim_space spec.scope_type ≡ "")
        ⊎ (trim_space role.scope_type ≡ trim_space spec.scope_type)
    pub covered :
        check_caller_parent_coverage repo user role.permissions spec.scope_type spec.scope_id s
        ≡ ok tt

  grant_checks_sound : grant_checks repo authorizer user spec s ≡ ok tt → MayGrant
  unfolding grant_checks reject_self_grant check_global_scope_only_platform
      validate_role_binding_scope
  grant_checks_sound h = elim (Result-cases (repo.get_role "" spec.role_code s)) [
    | inr (e, failed) ↦ absurd ground arith
    | inl (role, found) ↦ record {
      named = ground arith;
      not_self = ground (arith, eq_iff (trim_space user.user_id) (trim_space spec.user_id));
      global_by_admin = ground (arith, eq_iff spec.scope_type "global");
      allowed = ground arith;
      admin_by_admin = ground (arith, eq_iff spec.role_code platform_admin);
      role = role;
      found = found;
      fits = ground (
        arith,
        eq_iff (trim_space role.scope_type) "",
        eq_iff (trim_space spec.scope_type) "",
        eq_iff (trim_space role.scope_type) (trim_space spec.scope_type),
      );
      covered = ground arith;
    }
  ]

  grant_checks_complete : MayGrant → grant_checks repo authorizer user spec s ≡ ok tt
  unfolding grant_checks reject_self_grant check_global_scope_only_platform
      validate_role_binding_scope check_platform_role
  grant_checks_complete m = ground (
    arith,
    eq_iff (trim_space user.user_id) (trim_space spec.user_id),
    eq_iff spec.scope_type "global",
    eq_iff spec.role_code platform_admin,
    eq_iff (trim_space m.role.scope_type) "",
    eq_iff (trim_space spec.scope_type) "",
    eq_iff (trim_space m.role.scope_type) (trim_space spec.scope_type),
  )

-- A grant either satisfies every condition and is then exactly the write of the repository, or it
-- fails one of them and is then an error that leaves the state as it was. The conditions: the
-- caller is named and is not the grantee; a grant at global scope, and one of `platform_admin`, is
-- by a platform administrator; the authorizer allows `rbac:binding:manage` at the scope; the role
-- exists and fits the scope; and its permissions are covered by the caller's along the scope's
-- parents.
pub grant_role_cases :
    {S : Type 0} (repo : RbacRepository S) (authorizer : Authorizer S) (user : UserInfo)
    (spec : GrantSpec) (actor : String) (s : S)
    → MayGrant repo authorizer user spec s
        × (grant_role repo authorizer user spec actor s ≡ repo.grant_role spec actor s)
      ⊎ (¬ MayGrant repo authorizer user spec s)
        × ((e : Failure) × (grant_role repo authorizer user spec actor s ≡ (err e, s)))
unfolding grant_role
grant_role_cases repo authorizer user spec actor s =
    elim (guarded_cases (grant_checks repo authorizer user spec) (repo.grant_role spec actor) s) [
      | inl (passed, written) ↦ inl (grant_checks_sound repo authorizer user spec s passed, written)
      | inr (e, refused, kept) ↦
          inr (λ m. ground (arith, grant_checks_complete repo authorizer user spec s m), (e, kept))
    ]
