-- ===== src/Service/Rbac/Bindings.antt =====
-- internal/service/rbac_service.go: granting, revoking and listing role bindings.
pub mod Grant
pub mod Revoke
use env_vault.Base.{
  String, Bool, true, false, ◌&&◌, not, List, [], ◌∷◌, Result, ok, err, permission_denied, require,
  Action, ◌>>=◌, ◌>>◌, str_eq, if◌then◌else◌,
}
use env_vault.Base.Int.{sub_ℕ}
use env_vault.Text.{trim_space, is_blank}
use env_vault.Domain.{RoleBinding, EffectivePermissions}
use env_vault.Domain.Pagination.{Pagination, PaginatedResult}
use env_vault.Auth.{UserInfo, Authorizer}
use env_vault.Service.Rbac.{RbacRepository, GrantSpec}
use env_vault.Service.Rbac.Guards.{
  platform_admin, authz_resource, guarded, reject_self_grant, check_global_scope_only_platform,
  first_200, validate_role_binding_scope, check_last_org_owner, count_owners,
}
use env_vault.Service.Rbac.Roles.{check_platform_role}
use env_vault.Service.Rbac.Coverage.{check_caller_parent_coverage}

module _ {S : Type 0} (repo : RbacRepository S) (authorizer : Authorizer S) where
  unfoldable pub grant_checks : UserInfo → GrantSpec → S → Result (Unit {0})
  unfolding check_platform_role
  grant_checks user spec s = do
    reject_self_grant user spec.user_id
    check_global_scope_only_platform repo user spec.scope_type s
    authorizer.allow user "rbac:binding:manage" (authz_resource spec.scope_type spec.scope_id) s
    check_platform_role repo authorizer user spec.role_code s
    role ← repo.get_role "" spec.role_code s
    validate_role_binding_scope role spec.scope_type
    check_caller_parent_coverage repo user role.permissions spec.scope_type spec.scope_id s

  unfoldable pub grant_role : UserInfo → GrantSpec → String → Action S RoleBinding
  grant_role user spec actor = guarded (grant_checks user spec) (repo.grant_role spec actor)

  -- the count is taken only where the last owner could go
  unfoldable pub last_owner_check : String → String → String → S → Result (Unit {0})
  last_owner_check role_code scope_type scope_id s =
      if str_eq role_code "org_owner" && str_eq scope_type "organization"
      then (do
        bindings ← repo.list_role_bindings scope_type scope_id first_200 s
        check_last_org_owner scope_type role_code (sub_ℕ (count_owners bindings.items) 1))
      else ok tt

  -- `len(role.Permissions) > 0` makes no difference: an empty request is covered
  unfoldable pub revoke_checks :
      UserInfo → String → String → String → String → S → Result (Unit {0})
  unfolding last_owner_check
  revoke_checks user user_id role_code scope_type scope_id s = do
    reject_self_grant user user_id
    check_global_scope_only_platform repo user scope_type s
    authorizer.allow user "rbac:binding:manage" (authz_resource scope_type scope_id) s
    role ← repo.get_role "" role_code s
    validate_role_binding_scope role scope_type
    check_caller_parent_coverage repo user role.permissions scope_type scope_id s
    last_owner_check role_code scope_type scope_id s

  unfoldable pub revoke_role :
      UserInfo → String → String → String → String → String → Action S (Unit {0})
  revoke_role user user_id role_code scope_type scope_id actor =
      guarded (revoke_checks user user_id role_code scope_type scope_id)
        (repo.revoke_role user_id role_code scope_type scope_id actor)

  unfoldable pub list_role_bindings :
      UserInfo → String → String → Pagination → S → Result (PaginatedResult RoleBinding)
  list_role_bindings user scope_type scope_id page s =
      check_caller_parent_coverage repo user ("rbac:binding:read" ∷ []) scope_type scope_id s
      >> repo.list_role_bindings_cascading scope_type scope_id page s

  unfoldable pub list_user_grants :
      UserInfo → String → Pagination → S → Result (PaginatedResult RoleBinding)
  list_user_grants user user_id page s =
      check_caller_parent_coverage repo user ("rbac:binding:read" ∷ []) "global" "" s
      >> repo.list_user_grants user_id page s

  unfoldable pub effective_permissions :
      UserInfo → String → String → String → S → Result EffectivePermissions
  effective_permissions user user_id scope_type scope_id s =
      let caller = trim_space user.user_id in
      let target = trim_space user_id in
      if str_eq caller ""
      then err permission_denied
      else if str_eq caller target
      then repo.effective_permissions target scope_type scope_id s
      else authorizer.allow user "rbac:binding:read" (authz_resource scope_type scope_id) s
        >> repo.effective_permissions target scope_type scope_id s
