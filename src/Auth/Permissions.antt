-- ===== src/Auth/Permissions.antt =====
-- internal/auth/rbac.go, RBACAuthorizer.Allow: what a decision rests on.
use mathlib.Core.Logic.{◌↔◌}
use env_vault.Base.{
  String, ◌≡◌, refl, true, false, Option, none, some, List, arith, ok, str_eq, inl, inr,
  Result-cases,
}
use env_vault.Text.{is_blank}
use env_vault.Auth.{
  UserInfo, Resource, Scope, Context, PermissionStore, allow, member, permission_code,
}

module _ {S : Type 0} (ctx : Context) (store : Option (PermissionStore S)) (user : UserInfo)
    (action : String) (resource : Resource) (s : S) where
  -- The request is live, a store is there, the caller and the permission have a name, and the
  -- caller's permissions over the scopes of the resource hold it.
  pub record IsGranted : Type 0 where
    pub live : ctx ≡ none
    pub reads : PermissionStore S
    pub installed : store ≡ some reads
    pub named : is_blank user.user_id ≡ false
    pub coded : str_eq (permission_code action resource.kind) "" ≡ false
    pub scopes : List Scope
    pub scoped : reads.resource_scopes resource s ≡ ok scopes
    pub permissions : List String
    pub granted : reads.user_permissions user.user_id scopes s ≡ ok permissions
    pub held : member (permission_code action resource.kind) permissions ≡ true

  allow_complete : IsGranted → allow ctx store user action resource s ≡ ok tt
  unfolding allow
  allow_complete g = ground arith

module _ {S : Type 0} (store : PermissionStore S) (user : UserInfo) (action : String)
    (resource : Resource) (s : S) where
  allow_sound :
      allow none (some store) user action resource s ≡ ok tt
      → IsGranted none (some store) user action resource s
  unfolding allow
  allow_sound h = elim (Result-cases (store.resource_scopes resource s)) [
    | inr (e, failed) ↦ absurd (ground arith)
    | inl (scopes, scoped) ↦ elim (Result-cases (store.user_permissions user.user_id scopes s)) [
      | inr (e, failed) ↦ absurd (ground arith)
      | inl (permissions, granted) ↦ record {
        live = refl;
        reads = store;
        installed = refl;
        named = ground arith;
        coded = ground arith;
        scopes = scopes;
        scoped = scoped;
        permissions = permissions;
        granted = granted;
        held = ground arith;
      }
    ]
  ]

-- `Allow` returns nil exactly when the context is live, a store is configured, the caller and the
-- permission code are not blank, both reads of the store succeed, and the permissions that the
-- caller has over the scopes of the resource contain the code.
pub allow_iff :
    {S : Type 0} (ctx : Context) (store : Option (PermissionStore S)) (user : UserInfo)
    (action : String) (resource : Resource) (s : S)
    → (allow ctx store user action resource s ≡ ok tt) ↔ IsGranted ctx store user action resource s
unfolding allow
allow_iff (some e) store user action resource s = (λ h. cc, allow_complete _ _ _ _ _ _)
allow_iff none none user action resource s = (λ h. cc, allow_complete _ _ _ _ _ _)
allow_iff none (some store) user action resource s =
    (allow_sound store user action resource s, allow_complete _ _ _ _ _ _)
