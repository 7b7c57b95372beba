-- ===== src/Service/Rbac.antt =====
-- internal/service/rbac_service.go. Here: the repository that the service is given, an interface
-- of internal/store/store.go. The children hold the permission codes, the coverage of requested
-- permissions by owned ones, and the methods on roles and on role bindings.
pub mod Codes
pub mod Guards
pub mod Coverage
pub mod Roles
pub mod Bindings
use env_vault.Base.{String, Bool, Option, List, Result, Action}
use env_vault.Domain.{Permission, Time, Role, User, RoleBinding, EffectivePermissions}
use env_vault.Domain.Pagination.{Pagination, PaginatedResult}
use env_vault.Auth.{Resource, PermissionStore}

-- The columns of a role that a request names.
pub record RoleSpec : Type 0 where
  pub code : String
  pub name : String
  pub description : String
  pub scope_type : String
  pub scope_id : String
  pub permissions : List String

-- Whom a request grants what, where and until when.
pub record GrantSpec : Type 0 where
  pub user_id : String
  pub name : String
  pub email : String
  pub role_code : String
  pub scope_type : String
  pub scope_id : String
  pub expires_at : Option Time

-- RBACRepository. What only reads leaves the state; a write returns the state it leaves.
pub record RbacRepository (S : Type 0) : Type 0 where
  pub scopes : PermissionStore S
  pub effective_permissions : String → String → String → S → Result EffectivePermissions
  pub list_user_grants : String → Pagination → S → Result (PaginatedResult RoleBinding)
  pub list_role_bindings : String → String → Pagination → S → Result (PaginatedResult RoleBinding)
  pub list_role_bindings_cascading :
      String → String → Pagination → S → Result (PaginatedResult RoleBinding)
  pub ensure_system_data : Action S (Unit {0})
  pub ensure_bootstrap_admin : String → String → Action S (Unit {0})
  pub list_permissions : S → Result (List Permission)
  pub list_roles : S → Result (List Role)
  pub sync_user : String → String → String → Action S User
  pub get_role : String → String → S → Result Role
  pub user_has_permission_anywhere : String → String → S → Result Bool
  pub list_users : String → String → Pagination → S → Result (PaginatedResult User)
  pub create_role : RoleSpec → String → Action S Role
  pub update_role : String → RoleSpec → String → Action S Role
  pub delete_role : String → String → Action S (Unit {0})
  pub grant_role : GrantSpec → String → Action S RoleBinding
  pub revoke_role : String → String → String → String → String → Action S (Unit {0})
