-- ===== src/Service/Rbac/Coverage/Chain.antt =====
-- internal/service/rbac_service.go, requireCoverage: the walk up the scopes: a request is covered exactly when one scope of the chain covers it.
use env_vault.Base.{
  String, ◌≡◌, refl, ◌↔◌, ◌⊎◌, inl, inr, true, List, [], ◌∷◌, arith, ok, Result-cases, all, All,
  Exists, Bool-cases,
}
use env_vault.Domain.{EffectivePermissions}
use env_vault.Auth.{UserInfo, Scope}
use env_vault.Service.Rbac.{RbacRepository}
use env_vault.Service.Rbac.Codes.{expand_covered_codes}
use env_vault.Service.Rbac.Coverage.{
  covers_request, parent_scope_chain, covered_at_one, check_caller_parent_coverage,
}

module _ {S : Type 0} (repo : RbacRepository S) (user : UserInfo) (s : S) where
  -- The caller's effective permissions at a scope could be read.
  abbrev pub IsReadable : Scope → Type 0
  IsReadable scope =
      (eff : EffectivePermissions) × (repo.effective_permissions user.user_id scope.kind scope.id s
        ≡ ok eff)

  -- The actions that the caller owns at a scope contain the action of every requested code.
  abbrev pub Covers : List String → Scope → Type 0
  Covers reqs scope =
      (eff : EffectivePermissions) × (repo.effective_permissions user.user_id scope.kind scope.id s
        ≡ ok eff)
      × (all (covers_request (expand_covered_codes eff.permissions)) reqs ≡ true)

  covered_at_one_sound :
      (req : String) (reqs : List String) (scopes : List Scope)
      → covered_at_one repo user (req ∷ reqs) scopes s ≡ ok tt
      → Exists (Covers (req ∷ reqs)) scopes
  unfolding covered_at_one
  covered_at_one_sound req reqs [] h = ground arith
  covered_at_one_sound req reqs (scope ∷ scopes) h =
      elim (Result-cases (repo.effective_permissions user.user_id scope.kind scope.id s)) [
        | inr (e, failed) ↦ absurd (ground arith)
        | inl (eff, read) ↦
            elim (Bool-cases
              (all (covers_request (expand_covered_codes eff.permissions)) (req ∷ reqs))) [
                | inl covered ↦ inl (eff, read, covered)
                | inr short ↦ inr (covered_at_one_sound req reqs scopes (ground arith))
              ]
      ]

  covered_at_one_complete :
      (req : String) (reqs : List String) (scopes : List Scope)
      → All IsReadable scopes
      → Exists (Covers (req ∷ reqs)) scopes
      → covered_at_one repo user (req ∷ reqs) scopes s ≡ ok tt
  unfolding covered_at_one
  covered_at_one_complete req reqs [] r h = absurd h
  covered_at_one_complete req reqs (scope ∷ scopes) ((eff, read), r) (inl (eff', read', covered)) =
      ground arith
  covered_at_one_complete req reqs (scope ∷ scopes) ((eff, read), r) (inr later) =
      ground (arith, covered_at_one_complete req reqs scopes r later)

-- When the chain of scopes and the caller's effective permissions at each of its scopes can be
-- read, the check passes exactly when nothing is requested or, at one scope of the chain, the
-- actions that the caller owns contain the action of every requested code.
pub coverage_iff :
    {S : Type 0} (repo : RbacRepository S) (user : UserInfo) (reqs : List String)
    (scope_type scope_id : String) (s : S) (scopes : List Scope)
    → parent_scope_chain repo scope_type scope_id s ≡ ok scopes
    → All (IsReadable repo user s) scopes
    → (check_caller_parent_coverage repo user reqs scope_type scope_id s ≡ ok tt)
      ↔ ((reqs ≡ []) ⊎ Exists (Covers repo user s reqs) scopes)
unfolding check_caller_parent_coverage
coverage_iff repo user [] scope_type scope_id s scopes h r = (λ _. inl refl, λ _. refl)
coverage_iff repo user (req ∷ reqs) scope_type scope_id s scopes h r = (
  λ e. inr (covered_at_one_sound repo user s req reqs scopes (ground arith)),
  elim [
    | inl none_asked ↦ cc
    | inr one ↦ ground (arith, covered_at_one_complete repo user s req reqs scopes r one)
  ],
)

-- Whatever the reads return, a check that passes for a request that is not empty has found a
-- scope of the chain at which the caller's owned actions contain every requested action.
coverage_sound :
    {S : Type 0} (repo : RbacRepository S) (user : UserInfo) (req : String) (reqs : List String)
    (scope_type scope_id : String) (s : S)
    → check_caller_parent_coverage repo user (req ∷ reqs) scope_type scope_id s ≡ ok tt
    → (scopes : List Scope) × (parent_scope_chain repo scope_type scope_id s ≡ ok scopes)
      × Exists (Covers repo user s (req ∷ reqs)) scopes
unfolding check_caller_parent_coverage
coverage_sound repo user req reqs scope_type scope_id s h =
    elim (Result-cases (parent_scope_chain repo scope_type scope_id s)) [
      | inr (e, failed) ↦ absurd (ground arith)
      | inl (scopes, chain) ↦
          (scopes, chain, covered_at_one_sound repo user s req reqs scopes (ground arith))
    ]
