-- ===== src/Http/Lists.antt =====
-- internal/http/controller: the lists of organizations, projects, environments and folders, and the
-- form of their pages (rbac_helpers.go). What a caller may see of a list is the repository's.
use env_vault.Base.{
  ℕ, String, Bool, ◌&&◌, not, List, [], map, Result, ok, ◌>>=◌, str_eq, if◌then◌else◌,
}
use env_vault.Base.Int.{ℤ, pos}
use env_vault.Text.{trim_space, is_blank}
use env_vault.Domain.Pagination.{Pagination, PaginatedResult, normalize}
use env_vault.Service.Tree.{Entity}
use env_vault.Service.Secret.Batch.{is_empty}
use env_vault.Http.{Reply, text, fail, write}

pub record PageResp (A : Type 0) : Type 0 where
  pub page_num : ℤ
  pub page_size : ℤ
  pub total : ℕ
  pub list : List A

-- an empty page has no number and no size, which the JSON leaves out
unfoldable pub page_data : {A : Type 0} → List A → ℕ → Pagination → PageResp A
unfolding normalize
page_data items total pagination =
    let p = normalize pagination in
    if is_empty items
    then (record { page_num = pos 0; page_size = pos 0; total = total; list = [] })
    else (record { page_num = p.page_num; page_size = p.page_size; total = total; list = items })

pub record ListRequest : Type 0 where
  pub page : Pagination
  pub org_id : String
  pub project_id : String
  pub environment_id : String
  pub folder_parent_id : String
  pub include_subfolders : Bool

pub record FolderWithSubfolders : Type 0 where
  pub folder : Entity
  pub subfolders : List Entity

-- A list of folders, with or without their subfolders.
pub data FolderList : Type 0 where
  plain : PageResp Entity → FolderList
  nested : PageResp FolderWithSubfolders → FolderList

-- The lists of ResourceRepository, of the caller by their id.
pub record ListRepository (S : Type 0) : Type 0 where
  pub list_organizations : String → Pagination → S → Result (PaginatedResult Entity)
  pub list_projects : String → String → Pagination → S → Result (PaginatedResult Entity)
  pub list_environments : String → String → Pagination → S → Result (PaginatedResult Entity)
  pub list_folders : String → String → String → Pagination → S → Result (PaginatedResult Entity)
  -- none of a folder is the empty list
  pub list_folder_children : String → List String → S → Result (String → List Entity)
  pub get_folder_env_id : String → S → Result String

abbrev bad_request : {A : Type 0} → String → Reply A
bad_request msg = fail 400 (pos 1002) (text msg)

abbrev page_of : Pagination → Result (PaginatedResult Entity) → Result (PageResp Entity)
page_of p found = found >>= λ r. ok (page_data r.items r.total p)

-- `validateListFolders` and `validateListFoldersIncludeSubfolders`: what is wrong with a request, if
-- anything
unfoldable pub folders_complaint : ListRequest → String
unfolding trim_space
folders_complaint req =
    if is_blank req.environment_id && is_blank req.folder_parent_id
    then "environmentId or folderParentId is required"
    else if not (is_blank req.environment_id) && not (is_blank req.folder_parent_id)
    then "environmentId and folderParentId are mutually exclusive"
    else if req.include_subfolders && is_blank req.environment_id
    then "includeSubfolders only valid with environmentId"
    else ""

abbrev with_children : (String → List Entity) → Entity → FolderWithSubfolders
with_children children f = record { folder = f; subfolders = children f.id }

module _ {S : Type 0} (repo : ListRepository S) (user_id : String) (s : S) where
  unfoldable pub list_organizations : ListRequest → Reply (PageResp Entity)
  unfolding normalize page_data write
  list_organizations req =
      let p = normalize req.page in write (page_of p (repo.list_organizations user_id p s))

  unfoldable pub list_projects : ListRequest → Reply (PageResp Entity)
  unfolding normalize page_data write
  list_projects req =
      let p = normalize req.page in
      if str_eq req.org_id ""
      then bad_request "orgId is required"
      else write (page_of p (repo.list_projects user_id req.org_id p s))

  unfoldable pub list_environments : ListRequest → Reply (PageResp Entity)
  unfolding normalize page_data write
  list_environments req =
      let p = normalize req.page in
      if str_eq req.project_id ""
      then bad_request "projectId is required"
      else write (page_of p (repo.list_environments user_id req.project_id p s))

  abbrev nested_list : PaginatedResult Entity → Pagination → Result FolderList
  nested_list r p = repo.list_folder_children user_id (map (λ f. f.id) r.items) s >>= λ children.
      ok (nested (page_data (map (with_children children) r.items) r.total p))

  -- the parent of a list is looked up first
  abbrev parent_found : String → Result String
  parent_found parent_id = if str_eq parent_id "" then ok "" else repo.get_folder_env_id parent_id s

  abbrev found_folders : ListRequest → Pagination → Result FolderList
  found_folders req p = parent_found (trim_space req.folder_parent_id) >>= λ _.
      repo.list_folders user_id (trim_space req.environment_id) (trim_space req.folder_parent_id) p
        s
      >>= λ r.
          if req.include_subfolders
          then nested_list r p
          else ok (plain (page_data r.items r.total p))

  unfoldable pub list_folders : ListRequest → Reply FolderList
  unfolding normalize page_data write folders_complaint trim_space
  list_folders req =
      if str_eq (folders_complaint req) ""
      then write (found_folders req (normalize req.page))
      else bad_request (folders_complaint req)
