-- ===== src/Tests/Rbac.antt =====
-- Permissions, roles and role bindings on a database that only answers.
use env_vault.Base.{
  String, ◌≡◌, ◌↔◌, ◌⊎◌, refl, true, false, none, some, List, [], ◌∷◌, Exists, any, ok, err,
  Failure, not_found,
}
use env_vault.Text.{trim_space, has_prefix, cut, strip_suffix}
use env_vault.Domain.{User, Role, RoleBinding}
use env_vault.Domain.Pagination.{PaginatedResult}
use env_vault.Auth.{Resource, Scope, PermissionStore, member, allow}
use env_vault.Auth.Permissions.{IsGranted, allow_iff}
use env_vault.Service.Rbac.{RbacRepository, RoleSpec, GrantSpec}
use env_vault.Service.Rbac.Codes.{split_code, action_covers, expand_covered_codes}
use env_vault.Service.Rbac.Codes.Covers.{expand_iff_covers}
use env_vault.Service.Rbac.Coverage.{parent_scope_chain, check_caller_parent_coverage}
use env_vault.Service.Rbac.Coverage.Chain.{Covers, coverage_iff}
use env_vault.Service.Rbac.Roles.{create_role, update_role}
use env_vault.Service.Rbac.Roles.Safety.{MayDefine, define_role_cases}
use env_vault.Service.Rbac.Bindings.{grant_role, revoke_role}
use env_vault.Service.Rbac.Bindings.Grant.{MayGrant, grant_role_cases}
use env_vault.Service.Rbac.Bindings.Revoke.{MayRevoke, revoke_role_cases}
use env_vault.Tests.{alice, open_door}

abbrev pub bob : User
bob = record {
  id = "bob";
  external_user_id = "";
  name = "Bob";
  email = "bob@example.com";
  source = "password";
  is_disabled = false;
  last_seen_at = none;
  password_hash = "hash";
  password_algo = "argon2id";
  tokens_valid_after = none;
}

abbrev binding : String → String → RoleBinding
binding role_code scope_type = record {
  id = "1";
  user = bob;
  role_id = "2";
  role_code = role_code;
  scope_type = scope_type;
  scope_id = "";
  granted_by = "root";
  expires_at = none;
  created_at = 1;
}

abbrev reader : Role
reader = record {
  id = "3";
  code = "reader";
  name = "Reader";
  description = "";
  scope_type = "organization";
  org_id = "";
  project_id = "";
  is_system = false;
  permissions = "secret:read" ∷ [];
}

abbrev page_of : {A : Type 0} → A → PaginatedResult A
page_of x = record { items = x ∷ []; total = 1 }

abbrev scopes : PermissionStore (Unit {0})
scopes = record {
  resource_scopes = λ r s. ok (record { kind = "organization"; id = "o" } ∷ []);
  user_permissions = λ u ss s. ok ("rbac:binding:manage" ∷ []);
}

-- The caller owns `secret:read` everywhere, and everybody is a platform administrator.
abbrev repo : RbacRepository (Unit {0})
repo = record {
  scopes = scopes;
  effective_permissions =
      λ u k i s. ok (record { permissions = "secret:read" ∷ []; source_grants = [] });
  list_user_grants = λ u p s. ok (page_of (binding "platform_admin" "global"));
  list_role_bindings = λ k i p s. ok (page_of (binding "org_owner" "organization"));
  list_role_bindings_cascading = λ k i p s. ok (page_of (binding "org_owner" "organization"));
  ensure_system_data = λ s. (ok tt, s);
  ensure_bootstrap_admin = λ id name s. (ok tt, s);
  list_permissions = λ s. ok [];
  list_roles = λ s. ok (reader ∷ []);
  sync_user = λ id name email s. (err not_found, s);
  get_role = λ id code s. ok reader;
  user_has_permission_anywhere = λ u p s. ok true;
  list_users = λ u k p s. ok (page_of bob);
  create_role = λ spec actor s. (ok reader, s);
  update_role = λ id spec actor s. (ok reader, s);
  delete_role = λ id actor s. (ok tt, s);
  grant_role = λ spec actor s. (ok (binding "reader" "organization"), s);
  revoke_role = λ u r k i actor s. (ok tt, s);
}

abbrev spec : GrantSpec
spec = record {
  user_id = "bob";
  name = "";
  email = "";
  role_code = "reader";
  scope_type = "organization";
  scope_id = "o";
  expires_at = none;
}

abbrev role_spec : RoleSpec
role_spec = record {
  code = "reader";
  name = "";
  description = "";
  scope_type = "organization";
  scope_id = "o";
  permissions = "secret:read" ∷ [];
}

grant_role_cases_example :
    MayGrant repo open_door alice spec tt
      × (grant_role repo open_door alice spec "alice" tt ≡ repo.grant_role spec "alice" tt)
    ⊎ (¬ MayGrant repo open_door alice spec tt)
      × ((e : Failure) × (grant_role repo open_door alice spec "alice" tt ≡ (err e, tt)))
grant_role_cases_example = grant_role_cases repo open_door alice spec "alice" tt

revoke_role_cases_example :
    MayRevoke repo open_door alice "bob" "reader" "organization" "o" tt
      × (revoke_role repo open_door alice "bob" "reader" "organization" "o" "alice" tt
          ≡ repo.revoke_role "bob" "reader" "organization" "o" "alice" tt)
    ⊎ (¬ MayRevoke repo open_door alice "bob" "reader" "organization" "o" tt)
      × ((e : Failure) × (revoke_role repo open_door alice "bob" "reader" "organization" "o" "alice"
              tt
            ≡ (err e, tt)))
revoke_role_cases_example =
    revoke_role_cases repo open_door alice "bob" "reader" "organization" "o" "alice" tt

define_role_cases_example :
    MayDefine repo open_door alice role_spec tt
      × (create_role repo open_door alice role_spec "alice" tt
          ≡ repo.create_role role_spec "alice" tt)
      × (update_role repo open_door alice "3" role_spec "alice" tt
          ≡ repo.update_role "3" role_spec "alice" tt)
    ⊎ (¬ MayDefine repo open_door alice role_spec tt)
      × ((e : Failure) × (create_role repo open_door alice role_spec "alice" tt ≡ (err e, tt))
          × (update_role repo open_door alice "3" role_spec "alice" tt ≡ (err e, tt)))
define_role_cases_example = define_role_cases repo open_door alice "3" role_spec "alice" tt

abbrev self_spec : GrantSpec
self_spec = record spec { user_id = " alice" }

same_user : trim_space alice.user_id ≡ trim_space self_spec.user_id
unfolding trim_space
same_user = refl

abbrev chain : List Scope
chain = record { kind = "organization"; id = "o" } ∷ []

chain_found : parent_scope_chain repo "organization" "o" tt ≡ ok chain
unfolding parent_scope_chain trim_space
chain_found = refl

coverage_iff_example :
    (check_caller_parent_coverage repo alice ("secret:read" ∷ []) "organization" "o" tt ≡ ok tt) ↔ (
      (◌≡◌ {A = List String} ("secret:read" ∷ []) [])
      ⊎ Exists (Covers repo alice tt ("secret:read" ∷ [])) chain)
coverage_iff_example =
    coverage_iff repo alice ("secret:read" ∷ []) "organization" "o" tt chain chain_found
      ((_, refl), tt)

covered : check_caller_parent_coverage repo alice ("secret:read" ∷ []) "organization" "o" tt ≡ ok tt
unfolding check_caller_parent_coverage expand_covered_codes trim_space split_code has_prefix cut
    strip_suffix
covered = refl

abbrev org : Resource
org = record { kind = "organization"; id = "o" }

allow_iff_example :
    (allow none (some scopes) alice "rbac:binding:manage" org tt ≡ ok tt)
    ↔ IsGranted none (some scopes) alice "rbac:binding:manage" org tt
allow_iff_example = allow_iff none (some scopes) alice "rbac:binding:manage" org tt

tidy_read : trim_space (split_code "secret:manage").1 ≡ (split_code "secret:manage").1
unfolding trim_space split_code has_prefix cut
tidy_read = refl

tidy_child : trim_space "read" ≡ "read"
unfolding trim_space
tidy_child = refl

expand_iff_covers_example :
    member "read" (expand_covered_codes ("secret:manage" ∷ []))
    ≡ any (λ code. action_covers (split_code code).1 "read") ("secret:manage" ∷ [])
expand_iff_covers_example =
    expand_iff_covers ("secret:manage" ∷ []) "read" (tidy_read, tt) tidy_child
