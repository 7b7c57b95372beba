-- ===== src/Http/Resources/Allowed.antt =====
-- internal/http/controller, the updates and deletions of one resource: what has been allowed when
-- something is written.
use env_vault.Base.{String, ◌≡◌, ◌⊎◌, true, Option, Result, ok, err, Failure}
use env_vault.Auth.{UserInfo, Authorizer}
use env_vault.Store.Cache.{Cache}
use env_vault.Http.{resource_type}
use env_vault.Http.Access.{allows}
use env_vault.Http.Resources.{Copies, Kind, CascadeScope, invalidate_cascade}

-- The authorizer allows the caller a permission on a resource of a kind.
abbrev pub May :
    {S R : Type 0} → Option (Authorizer S) → UserInfo → Kind S R → String → String → S → Type 0
May authorizer user kind permission id s =
    allows authorizer user permission (record { kind = resource_type kind.scope_type; id = id }) s
    ≡ true

-- What a deletion leaves in the cache: all when it failed, and when it succeeded what remains when
-- all that it names is removed.
abbrev Leaves : {R : Type 0} → Copies R → R → Result CascadeScope → R → Type 0
Leaves copies r out r' =
    ((e : Failure) × (out ≡ err e) × (r' ≡ r))
    ⊎ ((scope : CascadeScope) × (out ≡ ok scope) × (r' ≡ invalidate_cascade copies scope r))
