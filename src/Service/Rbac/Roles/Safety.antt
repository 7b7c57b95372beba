-- ===== src/Service/Rbac/Roles/Safety.antt =====
-- internal/service/rbac_service.go: what a created or an updated role rests on.
use env_vault.Base.{String, ◌≡◌, ◌⊎◌, inl, inr, true, arith, ok, err, Failure, eq_iff}
use env_vault.Auth.{UserInfo, Authorizer}
use env_vault.Service.Rbac.{RbacRepository, RoleSpec}
use env_vault.Service.Rbac.Guards.{
  guarded_cases, platform_admin, authz_resource, is_platform_admin,
  check_global_scope_only_platform,
}
use env_vault.Service.Rbac.Coverage.{check_caller_parent_coverage}
use env_vault.Service.Rbac.Roles.{role_checks, create_role, update_role}

module _ {S : Type 0} (repo : RbacRepository S) (authorizer : Authorizer S) (user : UserInfo)
    (spec : RoleSpec) (s : S) where
  -- Everything that the definition of a role must satisfy, on the state that it starts from.
  pub record MayDefine : Type 0 where
    pub global_by_admin : spec.scope_type ≡ "global" → is_platform_admin repo user s ≡ true
    pub allowed :
        authorizer.allow user "rbac:role:manage" (authz_resource spec.scope_type spec.scope_id) s
        ≡ ok tt
    pub admin_by_admin : spec.code ≡ platform_admin → is_platform_admin repo user s ≡ true
    pub covered :
        check_caller_parent_coverage repo user spec.permissions spec.scope_type spec.scope_id s
        ≡ ok tt

  role_checks_sound : role_checks repo authorizer user spec s ≡ ok tt → MayDefine
  unfolding role_checks check_global_scope_only_platform
  role_checks_sound h = record {
    global_by_admin = ground (arith, eq_iff spec.scope_type "global");
    allowed = ground arith;
    admin_by_admin = ground (arith, eq_iff spec.code platform_admin);
    covered = ground arith;
  }

  role_checks_complete : MayDefine → role_checks repo authorizer user spec s ≡ ok tt
  unfolding role_checks check_global_scope_only_platform
  role_checks_complete m =
      ground (arith, eq_iff spec.scope_type "global", eq_iff spec.code platform_admin)

-- Creating and updating a role rest on the same conditions. Either all of them hold and both are
-- exactly the repository's writes, or one fails and both are one error that leaves the state as
-- it was. The conditions: global scope and the role `platform_admin` are a platform
-- administrator's; the authorizer allows `rbac:role:manage` at the scope; and the permissions of
-- the role are covered by the caller's along the scope's parents.
pub define_role_cases :
    {S : Type 0} (repo : RbacRepository S) (authorizer : Authorizer S) (user : UserInfo)
    (id : String) (spec : RoleSpec) (actor : String) (s : S)
    → MayDefine repo authorizer user spec s
        × (create_role repo authorizer user spec actor s ≡ repo.create_role spec actor s)
        × (update_role repo authorizer user id spec actor s ≡ repo.update_role id spec actor s)
      ⊎ (¬ MayDefine repo authorizer user spec s)
        × ((e : Failure) × (create_role repo authorizer user spec actor s ≡ (err e, s))
            × (update_role repo authorizer user id spec actor s ≡ (err e, s)))
unfolding create_role update_role
define_role_cases repo authorizer user id spec actor s =
    elim (guarded_cases (role_checks repo authorizer user spec) (repo.create_role spec actor) s) [
      | inl (passed, written) ↦
          inl (role_checks_sound repo authorizer user spec s passed, written, ground arith)
      | inr (e, refused, kept) ↦ inr (
        λ m. ground (arith, role_checks_complete repo authorizer user spec s m),
        (e, kept, ground arith),
      )
    ]
