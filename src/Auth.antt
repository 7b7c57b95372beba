-- ===== src/Auth.antt =====
-- internal/auth/rbac.go: who asks, for what, and the decision.
pub mod Permissions
pub mod RateLimit
pub mod TokensCache
pub mod Bearer
pub mod Middleware
use env_vault.Base.{
  String, Bool, true, false, ◌&&◌, Option, none, some, List, [], ◌∷◌, Result, ok, err, Failure,
  permission_denied, ◌>>=◌, ◌>>◌, require, str_eq, any, not, if◌then◌else◌,
}
use env_vault.Text.{trim_space, is_blank, cut, is_some}
use Prim.Native.String

pub record UserInfo : Type 0 where
  pub user_id : String
  pub name : String
  pub jwt : String
  pub cookie : String

pub record Resource : Type 0 where
  pub kind : String
  pub id : String

pub record Scope : Type 0 where
  pub kind : String
  pub id : String

-- A set of texts (`map[string]struct{}`) is the list of its members.
abbrev pub member : String → List String → Bool
member a = any (str_eq a)

-- What the authorizer reads from the state `S` of the database.
pub record PermissionStore (S : Type 0) : Type 0 where
  pub resource_scopes : Resource → S → Result (List Scope)
  pub user_permissions : String → List Scope → S → Result (List String)

-- A context is live, or it was cancelled with an error (`ctx.Err()`).
abbrev pub Context : Type 0
Context = Option Failure

abbrev pub context_err : Context → Result (Unit {0})
context_err none = ok tt
context_err (some e) = err e

unfoldable pub permission_resource_type : String → String
permission_resource_type kind =
    let kind' = trim_space kind in
    if str_eq kind' "organization"
    then "org"
    else if str_eq kind' "environment"
    then "env"
    else kind'

-- strings.Contains(action, ":")
abbrev pub has_colon : String → Bool
has_colon s = is_some (cut b':' s)

unfoldable pub permission_code : String → String → String
unfolding permission_resource_type
permission_code action resource_type =
    let action' = trim_space action in
    let resource_type' = trim_space resource_type in
    if str_eq action' ""
    then ""
    else if has_colon action'
    then action'
    else if str_eq resource_type' ""
    then ""
    else if str_eq resource_type' "env_template" && str_eq action' "read"
    then "env:template:read"
    else String.◌++◌ (permission_resource_type resource_type') (String.◌++◌ ":" action')

-- `Authorizer`: a service is given one, and asks it before it acts.
pub record Authorizer (S : Type 0) : Type 0 where
  pub allow : UserInfo → String → Resource → S → Result (Unit {0})

module _ {S : Type 0} where
  abbrev pub configured : Option (PermissionStore S) → Result (PermissionStore S)
  configured none = err permission_denied
  configured (some store) = ok store

  -- RBACAuthorizer.Allow
  unfoldable pub allow :
      Context → Option (PermissionStore S) → UserInfo → String → Resource → S → Result (Unit {0})
  allow ctx store user action resource s = do
    context_err ctx
    store' ← configured store
    require (not (is_blank user.user_id)) permission_denied
    let permission = permission_code action resource.kind
    require (not (str_eq permission "")) permission_denied
    scopes ← store'.resource_scopes resource s
    permissions ← store'.user_permissions user.user_id scopes s
    require (member permission permissions) permission_denied

  abbrev pub rbac_authorizer : Context → Option (PermissionStore S) → Authorizer S
  rbac_authorizer ctx store = record { allow = allow ctx store }
