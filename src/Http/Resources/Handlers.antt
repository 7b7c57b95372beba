-- ===== src/Http/Resources/Handlers.antt =====
-- internal/http/controller/resource_organization.go, resource_project.go, resource_environment.go and
-- resource_folder.go: the handlers by their names, over the repository of internal/store/store.go.
use env_vault.Base.{
  String, Bool, true, false, ◌&&◌, not, Option, List, [], ◌∷◌, Result, ok, err, Action, str_eq,
  if◌then◌else◌,
}
use env_vault.Base.Int.{ℤ, pos, eq_ℤ}
use env_vault.Text.{is_blank}
use env_vault.Auth.{UserInfo, Authorizer}
use env_vault.Service.Tree.{Entity, FolderTreeEntry}
use env_vault.Service.Secret.Batch.{is_empty}
use env_vault.Store.Cache.Meta.{upsert_org, upsert_project, upsert_environment, upsert_folder}
use env_vault.Http.{Reply, text, fail, fail_with_msg, write, allow_scope, matches_uuid}
use env_vault.Http.Folders.{World, FolderContext}
use env_vault.Http.Resources.{
  Copies, CascadeScope, IdOrCode, Kind, with_cache, names_one, required, is_code, Written,
  if_allowed, update_resource, delete_one,
}

pub record EnvSpec : Type 0 where
  pub code : String
  pub name : String
  pub comment : String
  pub sort_order : ℤ

-- The part of ResourceRepository that the handlers use. A lookup by code has the parent first.
pub record ResourceRepository (S : Type 0) : Type 0 where
  pub create_organization : String → String → String → String → Action S Entity
  pub get_organization : String → S → Result Entity
  pub get_organization_by_code : String → S → Result Entity
  pub update_organization : String → String → String → String → Action S Entity
  pub delete_organization : String → String → Bool → Action S CascadeScope
  pub create_project : String → String → String → String → String → List EnvSpec → Action S Entity
  pub get_project : String → S → Result Entity
  pub get_project_by_code : String → String → S → Result Entity
  pub update_project : String → String → String → String → Action S Entity
  pub delete_project : String → String → Action S CascadeScope
  pub create_environment : String → String → String → String → String → Action S Entity
  pub get_environment : String → S → Result Entity
  pub get_environment_by_code : String → String → S → Result Entity
  pub update_environment : String → String → String → String → Action S Entity
  pub delete_environment : String → String → Action S CascadeScope
  pub create_top_level_folders_in_envs :
      String → String → String → String → List String → Action S (List Entity)
  pub create_folders_across_envs :
      String → String → String → String → String → List String → Action S (List Entity)
  pub get_folder : String → S → Result Entity
  pub get_folder_by_code : String → String → S → Result Entity
  pub get_folder_context : String → S → Result FolderContext
  pub update_folder : String → String → String → String → Action S Entity
  pub delete_folder : String → String → Action S CascadeScope

pub record CreateEntityRequest : Type 0 where
  pub parent_id : String
  pub code : String
  pub name : String
  pub comment : String
  pub environments : List EnvSpec

pub record CreateFolderRequest : Type 0 where
  pub level : ℤ
  pub code : String
  pub name : String
  pub comment : String
  pub parent_code : String
  pub env_list : List String

abbrev invalid : {A : Type 0} → String → Reply A
invalid msg = fail 400 (pos 1002) (text msg)

abbrev bad_code : {A : Type 0} → Reply A
bad_code = invalid "code must match ^[a-z0-9]+(-[a-z0-9]+)*$"

-- validateEnvIdsForCreate
unfoldable pub all_uuids : List String → Bool
all_uuids [] = true
all_uuids (id ∷ ids) = let rest = all_uuids ids in matches_uuid id && rest

unfoldable pub all_codes : List EnvSpec → Bool
unfolding is_code
all_codes [] = true
all_codes (e ∷ es) = let rest = all_codes es in is_code e.code && rest

module _ {S R : Type 0} (repo : ResourceRepository S) (authorizer : Option (Authorizer S))
    (copies : Copies R) (user : UserInfo) where
  -- the arguments of `UpsertFolder`, which takes no more of the entity than the hash holds
  abbrev folder_entry : Entity → FolderContext → FolderTreeEntry
  folder_entry item place = record {
    id = item.id;
    code = item.code;
    name = item.name;
    comment = item.comment;
    sort_order = 0;
    created_by_label = "";
    updated_by_label = "";
    created_at = 0;
    updated_at = 0;
    level = place.level;
    environment_id = place.environment_id;
    parent_id = place.parent_id;
    project_id = place.project_id;
    created_by = item.created_by;
    updated_by = item.updated_by;
  }

  abbrev copy_at : Entity → Result FolderContext → R → R
  copy_at item (err e) r = r
  copy_at item (ok place) r =
      with_cache copies (λ ops c. upsert_folder ops c (folder_entry item place)) r

  -- a folder whose place is not found is not copied
  unfoldable pub copy_folder : Entity → S → R → R
  unfolding with_cache
  copy_folder item s r = copy_at item (repo.get_folder_context item.id s) r

  abbrev pub organizations : Bool → Kind S R
  organizations force = record {
    name = "organization";
    scope_type = "organization";
    read = "org:read";
    update = "org:update";
    delete = "org:delete";
    get = repo.get_organization;
    get_by_code = λ parent code s. repo.get_organization_by_code code s;
    set = repo.update_organization;
    remove = λ id actor s. repo.delete_organization id actor force s;
    copy = λ item s r. with_cache copies (λ ops c. upsert_org ops c item) r;
  }

  abbrev pub projects : Kind S R
  projects = record {
    name = "project";
    scope_type = "project";
    read = "project:read";
    update = "project:update";
    delete = "project:delete";
    get = repo.get_project;
    get_by_code = repo.get_project_by_code;
    set = repo.update_project;
    remove = repo.delete_project;
    copy = λ item s r. with_cache copies (λ ops c. upsert_project ops c item) r;
  }

  abbrev pub environments : Kind S R
  environments = record {
    name = "environment";
    scope_type = "environment";
    read = "env:read";
    update = "env:update";
    delete = "env:delete";
    get = repo.get_environment;
    get_by_code = repo.get_environment_by_code;
    set = repo.update_environment;
    remove = repo.delete_environment;
    copy = λ item s r. with_cache copies (λ ops c. upsert_environment ops c item) r;
  }

  abbrev pub folders : Kind S R
  folders = record {
    name = "folder";
    scope_type = "folder";
    read = "folder:read";
    update = "folder:update";
    delete = "folder:delete";
    get = repo.get_folder;
    get_by_code = repo.get_folder_by_code;
    set = repo.update_folder;
    remove = repo.delete_folder;
    copy = copy_folder;
  }

  -- a resource that was found is shown to a caller who may read it
  abbrev shown : Kind S R → S → Result Entity → String → List (Reply Entity)
  shown kind s (err e) id = write (err e) ∷ []
  shown kind s (ok item) id =
      (if_allowed authorizer user (allow_scope authorizer user kind.read kind.scope_type id s)
        (record { db = s; redis = tt }) (write (ok item) ∷ [], record { db = s; redis = tt })).0

  abbrev by_code : Kind S R → S → Result Entity → List (Reply Entity)
  by_code kind s (err e) = write (err e) ∷ []
  by_code kind s (ok item) = shown kind s (ok item) item.id

  unfoldable pub get_resource : Kind S R → IdOrCode → S → List (Reply Entity)
  unfolding names_one allow_scope write
  get_resource kind req s =
      if names_one req
      then (if str_eq req.id ""
          then by_code kind s (kind.get_by_code req.parent_id req.code s)
          else shown kind s (kind.get req.id s) req.id)
      else required authorizer user kind ∷ []

  abbrev created : (Entity → S → R → R) → R → Result Entity × S → Written S R Entity
  created copy r (err e, s) = (write (err e) ∷ [], record { db = s; redis = r })
  created copy r (ok item, s) = (write (ok item) ∷ [], record { db = s; redis = copy item s r })

  abbrev create_checked :
      CreateEntityRequest
      → String
      → String
      → String
      → World S R
      → Written S R Entity
      → Written S R Entity
  create_checked req permission scope_type scope_id w rest =
      if is_code req.code
      then if_allowed authorizer user
          (allow_scope authorizer user permission scope_type scope_id w.db) w rest
      else (bad_code ∷ [], w)

  unfoldable pub create_organization : CreateEntityRequest → World S R → Written S R Entity
  unfolding is_code allow_scope write
  create_organization req w = create_checked req "org:create" "global" "" w (
      created (organizations false).copy w.redis
        (repo.create_organization req.code req.name req.comment user.user_id w.db))

  unfoldable pub create_project : CreateEntityRequest → World S R → Written S R Entity
  unfolding is_code all_codes allow_scope write
  create_project req w = create_checked req "project:create" "organization" req.parent_id w (
      if all_codes req.environments
      then created projects.copy w.redis (
          repo.create_project req.parent_id req.code req.name req.comment user.user_id
            req.environments w.db)
      else (bad_code ∷ [], w))

  unfoldable pub create_environment : CreateEntityRequest → World S R → Written S R Entity
  unfolding is_code allow_scope write
  create_environment req w = create_checked req "env:create" "project" req.parent_id w (
      created environments.copy w.redis
        (repo.create_environment req.parent_id req.code req.name req.comment user.user_id w.db))

  unfoldable pub copy_folders : List Entity → S → R → R
  unfolding copy_folder
  copy_folders [] s r = r
  copy_folders (item ∷ items) s r = copy_folders items s (copy_folder item s r)

  abbrev pub created_folders : R → Result (List Entity) × S → Written S R (List Entity)
  created_folders r (err e, s) = (write (err e) ∷ [], record { db = s; redis = r })
  created_folders r (ok items, s) =
      (write (ok items) ∷ [], record { db = s; redis = copy_folders items s r })

  unfoldable pub create_folder_batch : CreateFolderRequest → World S R → Written S R (List Entity)
  unfolding copy_folders write
  create_folder_batch req w = created_folders w.redis (
      if eq_ℤ req.level (pos 1)
      then repo.create_top_level_folders_in_envs req.code req.name req.comment user.user_id
          req.env_list w.db
      else repo.create_folders_across_envs req.parent_code req.code req.name req.comment
          user.user_id req.env_list w.db)

  -- no permission is asked for
  unfoldable pub create_folder : CreateFolderRequest → World S R → Written S R (List Entity)
  unfolding is_code all_uuids create_folder_batch
  create_folder req w =
      if not (is_code req.code)
      then (bad_code ∷ [], w)
      else if not (eq_ℤ req.level (pos 1)) && not (eq_ℤ req.level (pos 2))
      then (invalid "level must be 1 or 2" ∷ [], w)
      else if is_empty req.env_list
      then (fail_with_msg (text "envList is required and cannot be empty") ∷ [], w)
      else if not (all_uuids req.env_list)
      then (invalid "envList contains invalid id" ∷ [], w)
      else if eq_ℤ req.level (pos 2) && is_blank req.parent_code
      then (invalid "parentCode is required for level=2" ∷ [], w)
      else create_folder_batch req w

  abbrev pub update_organization : IdOrCode → String → String → World S R → Written S R Entity
  update_organization = update_resource authorizer user (organizations false)

  abbrev pub update_project : IdOrCode → String → String → World S R → Written S R Entity
  update_project = update_resource authorizer user projects

  abbrev pub update_environment : IdOrCode → String → String → World S R → Written S R Entity
  update_environment = update_resource authorizer user environments

  abbrev pub update_folder : IdOrCode → String → String → World S R → Written S R Entity
  update_folder = update_resource authorizer user folders

  abbrev pub delete_organization : Bool → IdOrCode → World S R → Written S R (Unit {0})
  delete_organization force =
      delete_one authorizer user copies (organizations force)
        (if force then "org:force_delete" ∷ [] else [])

  abbrev pub delete_project : IdOrCode → World S R → Written S R (Unit {0})
  delete_project = delete_one authorizer user copies projects []

  abbrev pub delete_environment : IdOrCode → World S R → Written S R (Unit {0})
  delete_environment = delete_one authorizer user copies environments []

  abbrev pub delete_folder : IdOrCode → World S R → Written S R (Unit {0})
  delete_folder = delete_one authorizer user copies folders []

  abbrev pub get_organization : IdOrCode → S → List (Reply Entity)
  get_organization = get_resource (organizations false)

  abbrev pub get_project : IdOrCode → S → List (Reply Entity)
  get_project = get_resource projects

  abbrev pub get_environment : IdOrCode → S → List (Reply Entity)
  get_environment = get_resource environments

  abbrev pub get_folder : IdOrCode → S → List (Reply Entity)
  get_folder = get_resource folders
