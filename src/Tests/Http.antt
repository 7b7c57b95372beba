-- ===== src/Tests/Http.antt =====
-- The controllers, on a database of two folders and an authorizer that knows one of them.
use env_vault.Base.{
  ℕ, String, ◌≡◌, ◌⊎◌, ◌↔◌, refl, true, false, inl, inr, Bool-cases, none, some, [], ◌∷◌, All,
  arith, str_eq, Result, ok, err, not_found, permission_denied, if◌then◌else◌,
}
use env_vault.Base.Int.{pos}
use env_vault.Text.{trim_space, is_blank}
use env_vault.Auth.{Authorizer}
use env_vault.Store.Cache.Search.{GlobalSearchHit, GlobalSearchResult}
use env_vault.Http.{status_of}
use env_vault.Http.Search.{GlobalSearchRequest, normalize_search_types, global_search}
use env_vault.Http.Search.Answer.{RefusesPlainly, every_hit_readable, search_succeeds_iff}
use env_vault.Http.Search.Shown.{ShowsReadable, search-ShowsReadable}
use env_vault.Http.Folders
use env_vault.Http.Folders.Checks.{IsChecked, batch_update_folders-IsChecked}
use env_vault.Service.Tree.{Entity}
use env_vault.Tests.{alice}

-- Allows one resource and refuses the others.
abbrev opens_only : String → Authorizer (Unit {0})
opens_only id = record {
  allow = λ user action resource s. if str_eq resource.id id then ok tt else err permission_denied;
}

abbrev hit : String → GlobalSearchHit
hit id = record {
  id = id;
  code = "";
  name = "";
  comment = "";
  match_field = "code";
  key = "";
  path = "";
  folder_id = "";
  env_id = "";
  project_id = "";
  org_id = "";
}

abbrev results : GlobalSearchResult
results = record {
  orgs = hit "o1" ∷ hit "o2" ∷ [];
  projects = [];
  envs = [];
  folders = [];
  secrets = [];
}

abbrev search : String → ℕ → GlobalSearchResult
search keyword limit = results

abbrev request : GlobalSearchRequest
request = record { keyword = " acme "; types = "org" ∷ []; limit = pos 0 }

opens_only-refuses :
    (id : String)
    → let r : Result (Unit {0}) = if str_eq id "o1" then ok tt else err permission_denied in
      (r ≡ ok tt) ⊎ (r ≡ err permission_denied) ⊎ (r ≡ err not_found)
opens_only-refuses id = elim (Bool-cases (str_eq id "o1")) [
  | inl same ↦ rw same (inl refl)
  | inr other ↦ rw other (inr (inl refl))
]

refuses_plainly : RefusesPlainly (some (opens_only "o1")) tt
refuses_plainly a user permission r same =
    let e : opens_only "o1" ≡ a = ground arith in rw (← e) (opens_only-refuses r.id)

named : is_blank " acme " ≡ false
unfolding trim_space
named = refl

search_succeeds_iff_example :
    (status_of (global_search (some (opens_only "o1")) alice tt search request) ≡ some 200) ↔ (
      every_hit_readable
        (some (opens_only "o1"))
        alice
        tt
        (normalize_search_types ("org" ∷ []))
        (search (trim_space " acme ") 50)
      ≡ true)
search_succeeds_iff_example =
    search_succeeds_iff (some (opens_only "o1")) alice tt search request refuses_plainly named

search-ShowsReadable_example :
    All
      (λ reply. ShowsReadable (some (opens_only "o1")) alice tt reply.content)
      (global_search (some (opens_only "o1")) alice tt search request)
search-ShowsReadable_example = search-ShowsReadable (some (opens_only "o1")) alice tt search request

abbrev folder_of : String → Entity
folder_of id = record {
  id = id;
  parent_id = "e1";
  code = "svc";
  name = "Service";
  comment = "";
  created_by = "alice";
  updated_by = "alice";
}

abbrev repo : Folders.FolderRepository (Unit {0})
repo = record {
  get_folder = λ id s. ok (folder_of id);
  update_folder = λ id name comment actor s. (ok (record (folder_of id) { name = name }), s);
  get_folder_context = λ id s. err not_found;
}

abbrev ctrl : Folders.FolderController (Unit {0}) (Unit {0})
ctrl = record {
  repo = repo;
  authorizer = opens_only "11111111-1111-1111-1111-111111111111";
  cache = none;
}

abbrev update : Folders.BatchUpdateFolderRequest
update = record {
  id_list = "11111111-1111-1111-1111-111111111111" ∷ [];
  code = "svc";
  name = "New name";
  comment = "";
}

abbrev world : Folders.World (Unit {0}) (Unit {0})
world = record { db = tt; redis = tt }

batch_update_folders-IsChecked_example :
    ((Folders.batch_update_folders ctrl alice update world).1 ≡ world)
    ⊎ IsChecked ctrl alice update tt
batch_update_folders-IsChecked_example = batch_update_folders-IsChecked ctrl alice update world
