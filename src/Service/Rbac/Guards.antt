-- ===== src/Service/Rbac/Guards.antt =====
-- internal/service/rbac_service.go: the checks in front of a write.
use env_vault.Base.{
  ℕ, suc, String, Bool, false, ◌&&◌, not, List, [], ◌∷◌, any, Result, ok, err, permission_denied,
  conflict, Failure, Result-cases, ◌≡◌, ◌⊎◌, inl, inr, Action, str_eq, if◌then◌else◌,
}
use env_vault.Base.Int.{ℤ, pos, ltb_ℤ}
use env_vault.Text.{trim_space, is_blank}
use env_vault.Domain.{Role, RoleBinding}
use env_vault.Domain.Pagination.{Pagination}
use env_vault.Auth.{UserInfo, Resource}
use env_vault.Service.Rbac.{RbacRepository}

abbrev pub platform_admin : String
platform_admin = "platform_admin"

abbrev pub authz_resource : String → String → Resource
authz_resource scope_type scope_id = record { kind = scope_type; id = scope_id }

-- The page of 200 rows that the service asks for.
abbrev pub first_200 : Pagination
first_200 = record { page_num = pos 1; page_size = pos 200 }

abbrev pub binds_platform_admin : RoleBinding → Bool
binds_platform_admin g = str_eq g.role_code platform_admin && str_eq g.scope_type "global"

unfoldable pub reject_self_grant : UserInfo → String → Result (Unit {0})
reject_self_grant caller target_user_id =
    if is_blank caller.user_id
    then err permission_denied
    else if str_eq (trim_space caller.user_id) (trim_space target_user_id)
    then err permission_denied
    else ok tt

unfoldable pub validate_role_binding_scope : Role → String → Result (Unit {0})
validate_role_binding_scope role scope_type =
    let role_scope = trim_space role.scope_type in
    let binding_scope = trim_space scope_type in
    if str_eq role_scope ""
    then ok tt
    else if str_eq binding_scope ""
    then ok tt
    else if str_eq role_scope binding_scope
    then ok tt
    else err conflict

unfoldable pub check_last_org_owner : String → String → ℤ → Result (Unit {0})
check_last_org_owner scope_type role_code after_count =
    if not (str_eq role_code "org_owner" && str_eq scope_type "organization")
    then ok tt
    else if ltb_ℤ after_count (pos 1)
    then err conflict
    else ok tt

unfoldable pub count_owners : List RoleBinding → ℕ
count_owners [] = 0
count_owners (b ∷ bs) =
    if str_eq b.role_code "org_owner" then suc (count_owners bs) else count_owners bs

-- A write that is made only if the checks pass, on the state that they read.
abbrev pub guarded : {S A : Type 0} → (S → Result (Unit {0})) → Action S A → Action S A
guarded checks write s = elim (checks s) [ ok _ ↦ write s | err e ↦ (err e, s) ]

-- What passes is the write, and what is refused leaves the state.
pub guarded_cases :
    {S A : Type 0} (checks : S → Result (Unit {0})) (write : Action S A) (s : S)
    → ((checks s ≡ ok tt) × (guarded checks write s ≡ write s))
      ⊎ ((e : Failure) × (checks s ≡ err e) × (guarded checks write s ≡ (err e, s)))
guarded_cases checks write s = elim (Result-cases (checks s)) [
  | inl (_, passed) ↦ inl (passed, rw (passed, guarded))
  | inr (e, refused) ↦ inr (e, refused, rw (refused, guarded))
]

module _ {S : Type 0} (repo : RbacRepository S) where
  unfoldable pub is_platform_admin : UserInfo → S → Bool
  is_platform_admin user s = elim (repo.list_user_grants user.user_id first_200 s) [
    | err e ↦ false
    | ok grants ↦ any binds_platform_admin grants.items
  ]

  unfoldable pub check_global_scope_only_platform : UserInfo → String → S → Result (Unit {0})
  unfolding is_platform_admin
  check_global_scope_only_platform user scope_type s =
      if not (str_eq scope_type "global")
      then ok tt
      else if is_platform_admin user s
      then ok tt
      else err permission_denied
