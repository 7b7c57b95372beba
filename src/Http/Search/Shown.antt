-- ===== src/Http/Search/Shown.antt =====
-- internal/http/controller/search.go, GlobalSearch: a body never shows what the caller may not read.
use env_vault.Base.{
  ℕ, String, ◌≡◌, refl, sym, ◌∙◌, Bool, true, false, Option, none, some, List, [], ◌∷◌, All,
  All-append, Result, ok, err, permission_denied, not_found, inl, inr, Bool-cases,
}
use env_vault.Text.{trim_space, is_blank}
use env_vault.Auth.{UserInfo, Authorizer, member}
use env_vault.Store.Cache.Search.{GlobalSearchHit, GlobalSearchResult}
use env_vault.Http.{Reply, write, refusal, resource_type, allow_scope}
use env_vault.Http.Search.{
  GlobalSearchRequest, Filtered, keep_allowed, filter_hits, if_asked, filtered,
  normalize_search_types, request_limit, global_search,
}
use env_vault.Http.Search.Answer.{
  may_read, allow_scope-may_read, organization_type, project_type, environment_type, folder_type,
  secret_type,
}

module _ {S : Type 0} (authorizer : Option (Authorizer S)) (user : UserInfo) (s : S) where
  abbrev Readable : String → String → GlobalSearchHit → Type 0
  Readable permission scope_type x = may_read authorizer user s permission scope_type x ≡ true

  -- A body is empty, or each of its hits may be read.
  abbrev pub ShowsReadable : Option GlobalSearchResult → Type 0
  ShowsReadable none = Unit
  ShowsReadable (some r) =
      All (Readable "org:read" "organization") r.orgs
      × All (Readable "project:read" "project") r.projects
      × All (Readable "env:read" "environment") r.envs
      × All (Readable "folder:read" "folder") r.folders
      × All (Readable "secret:read" "secret") r.secrets

  abbrev BodyReadable : Reply GlobalSearchResult → Type 0
  BodyReadable reply = ShowsReadable reply.content

  refusal-Readable :
      (r : Result (Unit {0})) → All BodyReadable (refusal {A = GlobalSearchResult} r).1
  unfolding write
  refusal-Readable (ok _) = tt
  refusal-Readable (err not_found) = (tt, tt)
  refusal-Readable (err permission_denied) = (tt, tt)
  refusal-Readable (err e) = (tt, tt)

allow_scope-Readable :
    {S : Type 0} (authorizer : Option (Authorizer S)) (user : UserInfo) (s : S)
    (permission scope_type id : String)
    → All
        (BodyReadable authorizer user s)
        (allow_scope {A = GlobalSearchResult} authorizer user permission scope_type id s).1
unfolding allow_scope
allow_scope-Readable none user s permission scope_type id = (tt, tt)
allow_scope-Readable (some a) user s permission scope_type id = refusal-Readable (some a) user s _

module _ {S : Type 0} (authorizer : Option (Authorizer S)) (user : UserInfo) (s : S) where
  -- The hits that are kept may be read, and what was written shows nothing.
  abbrev IsFiltered : String → String → Filtered → Type 0
  IsFiltered permission scope_type f =
      All (Readable authorizer user s permission scope_type) f.0
      × All (BodyReadable authorizer user s) f.1

  keep_allowed-IsFiltered :
      (permission scope_type : String) (x : GlobalSearchHit)
      (a : Bool × List (Reply GlobalSearchResult)) (rest : Filtered)
      → (a.0 ≡ true → Readable authorizer user s permission scope_type x)
      → All (BodyReadable authorizer user s) a.1
      → IsFiltered permission scope_type rest
      → IsFiltered permission scope_type (keep_allowed x a rest)
  keep_allowed-IsFiltered permission scope_type x (true, w) rest may shows h =
      ((may refl, h.0), All-append _ w rest.1 shows h.1)
  keep_allowed-IsFiltered permission scope_type x (false, w) rest may shows h =
      (h.0, All-append _ w rest.1 shows h.1)

  filter_hits-IsFiltered :
      (permission scope_type : String) (xs : List GlobalSearchHit)
      → resource_type scope_type ≡ scope_type
      → IsFiltered permission scope_type (filter_hits authorizer user s permission scope_type xs)
  unfolding filter_hits
  filter_hits-IsFiltered permission scope_type [] same = (tt, tt)
  filter_hits-IsFiltered permission scope_type (x ∷ xs) same =
      keep_allowed-IsFiltered permission scope_type x
        (allow_scope authorizer user permission scope_type x.id s)
        (filter_hits authorizer user s permission scope_type xs)
        (λ allowed.
          sym (allow_scope-may_read authorizer user s permission scope_type x same) ∙ allowed)
        (allow_scope-Readable authorizer user s permission scope_type x.id)
        (filter_hits-IsFiltered permission scope_type xs same)

  if_asked-IsFiltered :
      (types : List String) (t permission scope_type : String) (xs : List GlobalSearchHit)
      → resource_type scope_type ≡ scope_type
      → IsFiltered permission scope_type (
          if_asked authorizer user s types t
            (filter_hits authorizer user s permission scope_type xs))
  if_asked-IsFiltered types t permission scope_type xs same = elim (Bool-cases (member t types)) [
    | inl asked ↦ rw asked (filter_hits-IsFiltered permission scope_type xs same)
    | inr not_asked ↦ rw not_asked (tt, tt)
  ]

  filtered-Readable :
      (types : List String) (r : GlobalSearchResult)
      → ShowsReadable authorizer user s (some (filtered authorizer user s types r).0)
        × All (BodyReadable authorizer user s) (filtered authorizer user s types r).1
  unfolding filtered
  filtered-Readable types r =
      let orgs =
        if_asked-IsFiltered types "org" "org:read" "organization" r.orgs organization_type in
      let projects =
        if_asked-IsFiltered types "project" "project:read" "project" r.projects project_type in
      let envs = if_asked-IsFiltered types "env" "env:read" "environment" r.envs environment_type in
      let folders =
        if_asked-IsFiltered types "folder" "folder:read" "folder" r.folders folder_type in
      let secrets =
        if_asked-IsFiltered types "secret" "secret:read" "secret" r.secrets secret_type in
      (
        (orgs.0, projects.0, envs.0, folders.0, secrets.0),
        All-append _ _ _ orgs.1 (
            All-append _ _ _ projects.1
              (All-append _ _ _ envs.1 (All-append _ _ _ folders.1 secrets.1))),
      )

-- Whatever the cache finds and whatever the authorizer answers, every hit in every body that a search
-- writes is one whose type's permission to read the authorizer allows the caller on the resource of the
-- hit's id; without an authorizer no body shows a hit.
pub search-ShowsReadable :
    {S : Type 0} (authorizer : Option (Authorizer S)) (user : UserInfo) (s : S)
    (search : String → ℕ → GlobalSearchResult) (req : GlobalSearchRequest)
    → All
        (λ reply. ShowsReadable authorizer user s reply.content)
        (global_search authorizer user s search req)
unfolding global_search
search-ShowsReadable authorizer user s search req = elim (Bool-cases (is_blank req.keyword)) [
  | inl blank ↦ rw blank (tt, tt)
  | inr named ↦
      let types = normalize_search_types req.types in
      let r = search (trim_space req.keyword) (request_limit req.limit) in
      let (shown, written) = filtered-Readable authorizer user s types r in
      rw named (All-append _ (filtered authorizer user s types r).1 _ written (shown, tt))
]
