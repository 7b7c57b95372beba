-- ===== src/Http/Search.antt =====
-- internal/http/controller/search.go: the search over all types, with what the caller may not read
-- taken out of its answer.
pub mod Answer
pub mod Shown
use env_vault.Base.{
  ℕ, zero, suc, String, Bool, true, false, ◌&&◌, not, Option, none, some, List, [], ◌∷◌, ◌++◌, any,
  ltb, str_eq, if◌then◌else◌,
}
use env_vault.Base.Int.{ℤ, pos, negsuc}
use env_vault.Text.{trim_space, is_blank}
use env_vault.Auth.{UserInfo, Authorizer, member}
use env_vault.Store.Cache.Search.{GlobalSearchHit, GlobalSearchResult}
use env_vault.Http.{Reply, Message, text, ok_reply, fail, allow_scope}

abbrev all_types : List String
all_types = "org" ∷ "project" ∷ "env" ∷ "folder" ∷ "secret" ∷ []

-- the known types, once each, after those already seen
unfoldable pub known_types : List String → List String → List String
known_types seen [] = []
known_types seen (t ∷ ts) =
    let new = member t all_types && not (member t seen) in
    let rest = known_types (if new then t ∷ seen else seen) ts in if new then t ∷ rest else rest

unfoldable pub normalize_search_types : List String → List String
unfolding known_types
normalize_search_types [] = all_types
normalize_search_types (t ∷ ts) = known_types [] (t ∷ ts)

abbrev pub request_limit : ℤ → ℕ
request_limit (pos zero) = 50
request_limit (pos (suc n)) = if ltb 200 (suc n) then 200 else suc n
request_limit (negsuc n) = 50

pub record GlobalSearchRequest : Type 0 where
  pub keyword : String
  pub types : List String
  pub limit : ℤ

-- What is kept, and what was written on the way.
abbrev pub Filtered : Type 0
Filtered = List GlobalSearchHit × List (Reply GlobalSearchResult)

abbrev pub keep_allowed :
    GlobalSearchHit → Bool × List (Reply GlobalSearchResult) → Filtered → Filtered
keep_allowed x (true, written) (kept, later) = (x ∷ kept, written ++ later)
keep_allowed x (false, written) (kept, later) = (kept, written ++ later)

module _ {S : Type 0} (authorizer : Option (Authorizer S)) (user : UserInfo) (s : S) where
  -- the five filters differ in the permission and the type of the resource
  unfoldable pub filter_hits : String → String → List GlobalSearchHit → Filtered
  unfolding allow_scope
  filter_hits permission scope_type [] = ([], [])
  filter_hits permission scope_type (x ∷ xs) =
      let rest = filter_hits permission scope_type xs in
      keep_allowed x (allow_scope authorizer user permission scope_type x.id s) rest

  abbrev pub filter_org_hits : List GlobalSearchHit → Filtered
  filter_org_hits = filter_hits "org:read" "organization"

  abbrev pub filter_project_hits : List GlobalSearchHit → Filtered
  filter_project_hits = filter_hits "project:read" "project"

  abbrev pub filter_env_hits : List GlobalSearchHit → Filtered
  filter_env_hits = filter_hits "env:read" "environment"

  abbrev pub filter_folder_hits : List GlobalSearchHit → Filtered
  filter_folder_hits = filter_hits "folder:read" "folder"

  abbrev pub filter_secret_hits : List GlobalSearchHit → Filtered
  filter_secret_hits = filter_hits "secret:read" "secret"

  -- a type that was not asked for is left empty, and nothing is checked
  abbrev pub if_asked : List String → String → Filtered → Filtered
  if_asked types t filtered = if member t types then filtered else ([], [])

  unfoldable pub filtered :
      List String → GlobalSearchResult → GlobalSearchResult × List (Reply GlobalSearchResult)
  unfolding filter_hits
  filtered types result =
      let (orgs, w1) = if_asked types "org" (filter_org_hits result.orgs) in
      let (projects, w2) = if_asked types "project" (filter_project_hits result.projects) in
      let (envs, w3) = if_asked types "env" (filter_env_hits result.envs) in
      let (folders, w4) = if_asked types "folder" (filter_folder_hits result.folders) in
      let (secrets, w5) = if_asked types "secret" (filter_secret_hits result.secrets) in
      (
        record {
          orgs = orgs;
          projects = projects;
          envs = envs;
          folders = folders;
          secrets = secrets;
        },
        w1 ++ (w2 ++ (w3 ++ (w4 ++ w5))),
      )

  -- `search` is the cache's GlobalSearch, which answers without an error
  unfoldable pub global_search :
      (String → ℕ → GlobalSearchResult) → GlobalSearchRequest → List (Reply GlobalSearchResult)
  unfolding trim_space normalize_search_types filtered
  global_search search req =
      if is_blank req.keyword
      then fail 400 (pos 1002) (text "keyword is required") ∷ []
      else (let (shown, written) =
            filtered (normalize_search_types req.types)
              (search (trim_space req.keyword) (request_limit req.limit)) in
          written ++ ok_reply shown ∷ [])
