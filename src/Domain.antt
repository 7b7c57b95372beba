-- ===== src/Domain.antt =====
-- The entities of internal/domain that the services pass around. Times are nanoseconds since Go's
-- zero time, which is 0.
pub mod Pagination
use env_vault.Base.{ℕ, String, Bool, Option, List}

abbrev pub Time : Type 0
Time = ℕ

-- internal/domain/rbac.go
pub record Permission : Type 0 where
  pub id : String
  pub code : String
  pub resource_type : String
  pub action : String
  pub description : String
  pub is_system : Bool

pub record Role : Type 0 where
  pub id : String
  pub code : String
  pub name : String
  pub description : String
  pub scope_type : String
  pub org_id : String
  pub project_id : String
  pub is_system : Bool
  pub permissions : List String

pub record User : Type 0 where
  pub id : String
  pub external_user_id : String
  pub name : String
  pub email : String
  pub source : String
  pub is_disabled : Bool
  pub last_seen_at : Option Time
  pub password_hash : String
  pub password_algo : String
  pub tokens_valid_after : Option Time

pub record RoleBinding : Type 0 where
  pub id : String
  pub user : User
  pub role_id : String
  pub role_code : String
  pub scope_type : String
  pub scope_id : String
  pub granted_by : String
  pub expires_at : Option Time
  pub created_at : Time

pub record EffectivePermissions : Type 0 where
  pub permissions : List String
  pub source_grants : List RoleBinding
