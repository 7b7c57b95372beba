-- ===== src/Http/Access.antt =====
-- internal/http/controller/rbac_helpers.go, allowScope: it lets a caller through exactly when there is an
-- authorizer and that authorizer allows the permission.
use env_vault.Base.{
  String, ◌≡◌, refl, Bool, true, false, Option, none, some, Result, ok, err, not_found,
  permission_denied,
}
use env_vault.Auth.{UserInfo, Authorizer, Resource}
use env_vault.Http.{refusal, resource_type, allow_scope}

abbrev pub is_ok : {A : Type 0} → Result A → Bool
is_ok (ok a) = true
is_ok (err e) = false

-- There is an authorizer, and it answers without an error.
abbrev pub allows : {S : Type 0} → Option (Authorizer S) → UserInfo → String → Resource → S → Bool
allows none user permission resource s = false
allows (some authorizer) user permission resource s =
    is_ok (authorizer.allow user permission resource s)

refusal-is_ok : (A : Type 0) (r : Result (Unit {0})) → (refusal {A = A} r).0 ≡ is_ok r
refusal-is_ok A (ok _) = refl
refusal-is_ok A (err not_found) = refl
refusal-is_ok A (err permission_denied) = refl
refusal-is_ok A (err e) = refl

pub allow_scope-allows :
    {S : Type 0} (A : Type 0) (authorizer : Option (Authorizer S)) (user : UserInfo)
    (permission scope_type id : String) (s : S)
    → (allow_scope {A = A} authorizer user permission scope_type id s).0
      ≡ allows authorizer user permission (record { kind = resource_type scope_type; id = id }) s
unfolding allow_scope
allow_scope-allows A none user permission scope_type id s = refl
allow_scope-allows A (some authorizer) user permission scope_type id s = refusal-is_ok A _
