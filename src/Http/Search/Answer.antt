-- ===== src/Http/Search/Answer.antt =====
-- internal/http/controller/search.go, GlobalSearch: what its answer shows, and which status it has.
use env_vault.Base.{
  ℕ, String, ◌≡◌, ◌≢◌, ◌⊎◌, ◌↔◌, refl, ap, ◌∙◌, Bool, true, false, ◌&&◌, ◌||◌, not, Option, none,
  some, List, [], ◌∷◌, ◌++◌, all, Result, ok, err, permission_denied, not_found, arith, inl, inr,
  Bool-cases,
}
use env_vault.Text.{trim_space, is_blank}
use env_vault.Auth.{UserInfo, Authorizer, Resource, member}
use env_vault.Store.Cache.Search.{GlobalSearchHit, GlobalSearchResult}
use env_vault.Http.{Reply, status_of, refusal, resource_type, allow_scope}
use env_vault.Http.Access.{is_ok, allows, allow_scope-allows}
use env_vault.Http.Search.{
  GlobalSearchRequest, Filtered, keep_allowed, filter_hits, if_asked, filtered,
  normalize_search_types, request_limit, global_search,
}

-- Either all is allowed and nothing was written, or something is refused and what was written first
-- is no success.
abbrev Written : Bool → List (Reply GlobalSearchResult) → Type 0
Written allowed w =
    (allowed ≡ true) × (w ≡ [])
    ⊎ (allowed ≡ false)
      × ((r : Reply GlobalSearchResult) × (rs : List (Reply GlobalSearchResult)) × (w ≡ r ∷ rs)
          × (r.status ≢ 200))

Written-append :
    (a b : Bool) (v w : List (Reply GlobalSearchResult))
    → Written a v
    → Written b w
    → Written (a && b) (v ++ w)
Written-append a b v w (inl (yes_a, empty)) h = rw (yes_a, empty) h
Written-append a b v w (inr (no_a, (r, rs, front, bad))) h =
    inr (rw no_a refl, (r, rs ++ w, rw front refl, bad))

keep_allowed-writes :
    (x : GlobalSearchHit) (a : Bool × List (Reply GlobalSearchResult)) (rest : Filtered)
    → (keep_allowed x a rest).1 ≡ a.1 ++ rest.1
keep_allowed-writes x (true, w) rest = refl
keep_allowed-writes x (false, w) rest = refl

-- The authorizer refuses by the two errors that stand for it, and by no other.
abbrev pub RefusesPlainly : {S : Type 0} → Option (Authorizer S) → S → Type 0
RefusesPlainly {S} authorizer s =
    (a : Authorizer S) (user : UserInfo) (permission : String) (r : Resource)
    → authorizer ≡ some a
    → (a.allow user permission r s ≡ ok tt)
      ⊎ (a.allow user permission r s ≡ err permission_denied)
      ⊎ (a.allow user permission r s ≡ err not_found)

-- The authorizer allows the caller the permission on the resource of a hit.
abbrev pub may_read :
    {S : Type 0} → Option (Authorizer S) → UserInfo → S → String → String → GlobalSearchHit → Bool
may_read authorizer user s permission scope_type x =
    allows authorizer user permission (record { kind = scope_type; id = x.id }) s

-- `allowScope` asks for a type that has no white space around it as it is.
pub allow_scope-may_read :
    {S : Type 0} (authorizer : Option (Authorizer S)) (user : UserInfo) (s : S)
    (permission scope_type : String) (x : GlobalSearchHit)
    → resource_type scope_type ≡ scope_type
    → (allow_scope {A = GlobalSearchResult} authorizer user permission scope_type x.id s).0
      ≡ may_read authorizer user s permission scope_type x
allow_scope-may_read authorizer user s permission scope_type x same =
    allow_scope-allows GlobalSearchResult authorizer user permission scope_type x.id s
    ∙ ap (λ t. allows authorizer user permission (record { kind = t; id = x.id }) s) same

-- The five types of resources.
pub organization_type : resource_type "organization" ≡ "organization"
unfolding trim_space
organization_type = refl

pub project_type : resource_type "project" ≡ "project"
unfolding trim_space
project_type = refl

pub environment_type : resource_type "environment" ≡ "environment"
unfolding trim_space
environment_type = refl

pub folder_type : resource_type "folder" ≡ "folder"
unfolding trim_space
folder_type = refl

pub secret_type : resource_type "secret" ≡ "secret"
unfolding trim_space
secret_type = refl

refusal-Written :
    (r : Result (Unit {0}))
    → (r ≡ ok tt) ⊎ (r ≡ err permission_denied) ⊎ (r ≡ err not_found)
    → Written (is_ok r) (refusal {A = GlobalSearchResult} r).1
refusal-Written r (inl allowed) = rw allowed (inl (refl, refl))
refusal-Written r (inr (inl denied)) = rw denied (inr (refl, (_, [], refl, omega arith)))
refusal-Written r (inr (inr missing)) = rw missing (inr (refl, (_, [], refl, omega arith)))

allow_scope-Written :
    {S : Type 0} (authorizer : Option (Authorizer S)) (user : UserInfo) (s : S)
    (permission scope_type : String) (x : GlobalSearchHit)
    → resource_type scope_type ≡ scope_type
    → RefusesPlainly authorizer s
    → Written
        (may_read authorizer user s permission scope_type x)
        (allow_scope authorizer user permission scope_type x.id s).1
unfolding allow_scope
allow_scope-Written none user s permission scope_type x same plain =
    inr (refl, (_, [], refl, omega arith))
allow_scope-Written (some a) user s permission scope_type x same plain =
    rw same (refusal-Written _ (plain a user permission _ refl))

module _ {S : Type 0} (authorizer : Option (Authorizer S)) (user : UserInfo) (s : S) where
  filter_hits-Written :
      (permission scope_type : String) (xs : List GlobalSearchHit)
      → resource_type scope_type ≡ scope_type
      → RefusesPlainly authorizer s
      → Written
          (all (may_read authorizer user s permission scope_type) xs)
          (filter_hits authorizer user s permission scope_type xs).1
  unfolding filter_hits
  filter_hits-Written permission scope_type [] same plain = inl (refl, refl)
  filter_hits-Written permission scope_type (x ∷ xs) same plain =
      rw
        (keep_allowed-writes x (allow_scope authorizer user permission scope_type x.id s)
          (filter_hits authorizer user s permission scope_type xs))
        (Written-append _ _ _ _
          (allow_scope-Written authorizer user s permission scope_type x same plain)
          (filter_hits-Written permission scope_type xs same plain))

  -- Whether all the hits of a type may be read, if it was asked for.
  abbrev pub all_readable : List String → String → String → String → List GlobalSearchHit → Bool
  all_readable types t permission scope_type xs =
      not (member t types) || all (may_read authorizer user s permission scope_type) xs

  if_asked-Written :
      (types : List String) (t permission scope_type : String) (xs : List GlobalSearchHit)
      → resource_type scope_type ≡ scope_type
      → RefusesPlainly authorizer s
      → Written
          (all_readable types t permission scope_type xs)
          (if_asked authorizer user s types t
            (filter_hits authorizer user s permission scope_type xs)).1
  if_asked-Written types t permission scope_type xs same plain =
      elim (Bool-cases (member t types)) [
        | inl asked ↦ rw asked (filter_hits-Written permission scope_type xs same plain)
        | inr not_asked ↦ rw not_asked (inl (refl, refl))
      ]

  abbrev pub every_hit_readable : List String → GlobalSearchResult → Bool
  every_hit_readable types r =
      all_readable types "org" "org:read" "organization" r.orgs
      && (all_readable types "project" "project:read" "project" r.projects
          && (all_readable types "env" "env:read" "environment" r.envs
              && (all_readable types "folder" "folder:read" "folder" r.folders
                  && all_readable types "secret" "secret:read" "secret" r.secrets)))

  filtered-Written :
      (types : List String) (r : GlobalSearchResult)
      → RefusesPlainly authorizer s
      → Written (every_hit_readable types r) (filtered authorizer user s types r).1
  unfolding filtered
  filtered-Written types r plain =
      Written-append _ _ _ _
        (if_asked-Written types "org" "org:read" "organization" r.orgs organization_type plain)
        (Written-append _ _ _ _
          (if_asked-Written types "project" "project:read" "project" r.projects project_type plain)
          (Written-append _ _ _ _
            (if_asked-Written types "env" "env:read" "environment" r.envs environment_type plain)
            (Written-append _ _ _ _
              (if_asked-Written types "folder" "folder:read" "folder" r.folders folder_type plain)
              (if_asked-Written types "secret" "secret:read" "secret" r.secrets secret_type
                plain))))

-- A search with a keyword answers with status 200 exactly when the authorizer allows the caller to read
-- every hit of the types that were asked for, also those that are taken out of the answer: with
-- one hit that it does not allow the status is another. For an authorizer that refuses by
-- "permission denied" or "not found" only.
pub search_succeeds_iff :
    {S : Type 0} (authorizer : Option (Authorizer S)) (user : UserInfo) (s : S)
    (search : String → ℕ → GlobalSearchResult) (req : GlobalSearchRequest)
    → RefusesPlainly authorizer s
    → is_blank req.keyword ≡ false
    → (status_of (global_search authorizer user s search req) ≡ some 200) ↔ (
        every_hit_readable authorizer user s
          (normalize_search_types req.types)
          (search (trim_space req.keyword) (request_limit req.limit))
        ≡ true)
unfolding global_search
search_succeeds_iff authorizer user s search req plain named =
    let types = normalize_search_types req.types in
    let r = search (trim_space req.keyword) (request_limit req.limit) in
    elim (filtered-Written authorizer user s types r plain) [
      | inl (all_read, nothing) ↦ rw (named, nothing) (λ _. all_read, λ _. refl)
      | inr (refused, (first, rest, front, bad)) ↦
          rw (named, front) (λ h. absurd (bad (ground arith)), λ h. absurd (ground arith))
    ]
