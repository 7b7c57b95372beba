-- ===== src/Service/Rbac/Roles.antt =====
-- internal/service/rbac_service.go: the methods on roles and users.
pub mod Safety
use env_vault.Base.{
  String, Bool, true, false, ◌&&◌, not, List, Result, ok, err, permission_denied, require, Action,
  ◌>>=◌, ◌>>◌, str_eq, if◌then◌else◌,
}
use env_vault.Text.{is_blank}
use env_vault.Domain.{Permission, Role, User}
use env_vault.Domain.Pagination.{Pagination, PaginatedResult}
use env_vault.Auth.{UserInfo, Authorizer}
use env_vault.Service.Rbac.{RbacRepository, RoleSpec}
use env_vault.Service.Rbac.Guards.{
  platform_admin, authz_resource, guarded, is_platform_admin, check_global_scope_only_platform,
}
use env_vault.Service.Rbac.Coverage.{check_caller_parent_coverage}

module _ {S : Type 0} (repo : RbacRepository S) (authorizer : Authorizer S) where
  -- Only a platform administrator may touch the role of that name.
  unfoldable pub check_platform_role : UserInfo → String → S → Result (Unit {0})
  check_platform_role user code s =
      require (not (str_eq code platform_admin && not (is_platform_admin repo user s)))
        permission_denied

  unfoldable pub role_checks : UserInfo → RoleSpec → S → Result (Unit {0})
  unfolding check_platform_role
  role_checks user spec s = do
    check_global_scope_only_platform repo user spec.scope_type s
    authorizer.allow user "rbac:role:manage" (authz_resource spec.scope_type spec.scope_id) s
    check_platform_role user spec.code s
    check_caller_parent_coverage repo user spec.permissions spec.scope_type spec.scope_id s

  unfoldable pub get_role : UserInfo → String → String → S → Result Role
  get_role user id code s =
      authorizer.allow user "rbac:role:read" (authz_resource "global" "") s
      >> repo.get_role id code s

  unfoldable pub create_role : UserInfo → RoleSpec → String → Action S Role
  create_role user spec actor = guarded (role_checks user spec) (repo.create_role spec actor)

  unfoldable pub update_role : UserInfo → String → RoleSpec → String → Action S Role
  update_role user id spec actor = guarded (role_checks user spec) (repo.update_role id spec actor)

  unfoldable pub delete_role : UserInfo → String → String → Action S (Unit {0})
  delete_role user id actor =
      guarded (authorizer.allow user "rbac:role:manage" (authz_resource "global" ""))
        (repo.delete_role id actor)

  unfoldable pub list_users : UserInfo → String → Pagination → S → Result (PaginatedResult User)
  list_users user keyword page s = do
    require (not (is_blank user.user_id)) permission_denied
    has_manage ← repo.user_has_permission_anywhere user.user_id "rbac:role:manage" s
    require has_manage permission_denied
    repo.list_users user.user_id keyword page s

-- The methods that ask for no permission: any caller that is logged in may use them.
module _ {S : Type 0} (repo : RbacRepository S) where
  unfoldable pub bootstrap : Action S (Unit {0})
  bootstrap = repo.ensure_system_data

  unfoldable pub ensure_bootstrap_admin : String → String → Action S (Unit {0})
  ensure_bootstrap_admin user_id name = repo.ensure_bootstrap_admin user_id name

  unfoldable pub list_permissions : S → Result (List Permission)
  list_permissions s = repo.list_permissions s

  unfoldable pub list_roles : S → Result (List Role)
  list_roles s = repo.list_roles s

  unfoldable pub sync_user : UserInfo → String → String → String → Action S User
  sync_user user user_id name email = repo.sync_user user_id name email
