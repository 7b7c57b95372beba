-- ===== src/Service/Rbac/Coverage.antt =====
-- internal/service/rbac_service.go: whether a caller's permissions cover those that a request
-- hands out, at one of the scopes above the target.
pub mod Chain
use env_vault.Base.{
  String, Bool, true, false, ◌&&◌, List, [], ◌∷◌, Result, ok, err, failure, permission_denied,
  ◌>>=◌, str_eq, all, not, if◌then◌else◌,
}
use env_vault.Text.{trim_space}
use env_vault.Auth.{UserInfo, Scope, member}
use env_vault.Service.Rbac.{RbacRepository}
use env_vault.Service.Rbac.Codes.{split_code, expand_covered_codes}

-- One requested code against the actions that the caller owns.
unfoldable pub covers_request : List String → String → Bool
covers_request owned_actions req =
    let action = (split_code req).1 in not (str_eq action "") && member action owned_actions

module _ {S : Type 0} (repo : RbacRepository S) where
  unfoldable pub parent_scope_chain : String → String → S → Result (List Scope)
  parent_scope_chain scope_type scope_id s =
      if str_eq (trim_space scope_type) ""
      then err (failure "empty scope type")
      else repo.scopes.resource_scopes (record { kind = trim_space scope_type; id = scope_id }) s

  unfoldable pub caller_covers_at_scope : UserInfo → List String → Scope → S → Result Bool
  unfolding covers_request expand_covered_codes
  caller_covers_at_scope user [] scope s = ok true
  caller_covers_at_scope user (req ∷ reqs) scope s = do
    eff ← repo.effective_permissions user.user_id scope.kind scope.id s
    ok (all (covers_request (expand_covered_codes eff.permissions)) (req ∷ reqs))

  -- the loop over the chain: the first scope that covers the request ends it, and so does an error
  unfoldable pub covered_at_one : UserInfo → List String → List Scope → S → Result (Unit {0})
  unfolding caller_covers_at_scope
  covered_at_one user reqs [] s = err permission_denied
  covered_at_one user reqs (scope ∷ scopes) s =
      let rest = covered_at_one user reqs scopes s in
      caller_covers_at_scope user reqs scope s >>= λ covered. if covered then ok tt else rest

  unfoldable pub check_caller_parent_coverage :
      UserInfo → List String → String → String → S → Result (Unit {0})
  unfolding parent_scope_chain covered_at_one
  check_caller_parent_coverage user [] scope_type scope_id s = ok tt
  check_caller_parent_coverage user (req ∷ reqs) scope_type scope_id s = do
    scopes ← parent_scope_chain scope_type scope_id s
    covered_at_one user (req ∷ reqs) scopes s
