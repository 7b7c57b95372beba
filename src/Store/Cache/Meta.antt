-- ===== src/Store/Cache/Meta.antt =====
-- internal/store/redis/cache.go: the metadata of organizations, projects, environments and folders.
-- The four reads of `ListAllMeta` and the four writers of `WarmTree` are goroutines; here they stand
-- one after the other, on keys that no two of them share.
pub mod View
pub mod Hashes
pub mod Listed
use env_vault.Base.{
  ℕ, String, Bool, true, false, ◌||◌, ◌&&◌, not, Option, none, some, List, [], ◌∷◌, Result, ok, err,
  Action, str_eq, map, ◌>>=◌, if◌then◌else◌,
}
use env_vault.Base.Int.{ℤ, pos, negsuc, eq_ℤ}
use env_vault.Base.Actions
use env_vault.Text.Decimal.{itoa}
use env_vault.Service.Tree.{Entity, FolderTreeEntry, TreeMetaSnapshot}
use env_vault.Service.Secret.Batch.{is_empty, collect}
use env_vault.Store.Cache.{
  ResourceType, org, project, env, folder, Fields, field, CacheOps, Cache, type_ids_key, type_key,
  atoi,
}

abbrev pub org_fields : Entity → Fields
org_fields e =
    ("id", e.id)
    ∷ ("code", e.code)
    ∷ ("name", e.name)
    ∷ ("comment", e.comment)
    ∷ ("created_by", e.created_by)
    ∷ ("updated_by", e.updated_by)
    ∷ []

-- a project's and an environment's hash has its parent under a name of its own
abbrev pub child_fields : String → Entity → Fields
child_fields parent e =
    ("id", e.id)
    ∷ (parent, e.parent_id)
    ∷ ("code", e.code)
    ∷ ("name", e.name)
    ∷ ("comment", e.comment)
    ∷ ("created_by", e.created_by)
    ∷ ("updated_by", e.updated_by)
    ∷ []

abbrev pub folder_fields : FolderTreeEntry → Fields
folder_fields f =
    ("id", f.id)
    ∷ ("environment_id", f.environment_id)
    ∷ ("project_id", f.project_id)
    ∷ ("parent_id", f.parent_id)
    ∷ ("level", itoa f.level)
    ∷ ("code", f.code)
    ∷ ("name", f.name)
    ∷ ("comment", f.comment)
    ∷ ("created_by", f.created_by)
    ∷ ("updated_by", f.updated_by)
    ∷ []

unfoldable pub hash_to_org : Fields → Entity
unfolding field
hash_to_org values = record {
  id = field "id" values;
  parent_id = "";
  code = field "code" values;
  name = field "name" values;
  comment = field "comment" values;
  created_by = field "created_by" values;
  updated_by = field "updated_by" values;
}

unfoldable pub hash_to_child : String → Fields → Entity
unfolding field
hash_to_child parent values = record {
  id = field "id" values;
  parent_id = field parent values;
  code = field "code" values;
  name = field "name" values;
  comment = field "comment" values;
  created_by = field "created_by" values;
  updated_by = field "updated_by" values;
}

abbrev pub hash_to_project : Fields → Entity
hash_to_project = hash_to_child "org_id"

abbrev pub hash_to_env : Fields → Entity
hash_to_env = hash_to_child "project_id"

-- the fields that no hash holds have their zero values
abbrev entry_at : ℕ → Fields → FolderTreeEntry
entry_at level values = record {
  id = field "id" values;
  code = field "code" values;
  name = field "name" values;
  comment = field "comment" values;
  sort_order = 0;
  created_by_label = "";
  updated_by_label = "";
  created_at = 0;
  updated_at = 0;
  level = level;
  environment_id = field "environment_id" values;
  parent_id = field "parent_id" values;
  project_id = field "project_id" values;
  created_by = field "created_by" values;
  updated_by = field "updated_by" values;
}

abbrev entry_if_level : ℤ → Fields → Option FolderTreeEntry
entry_if_level level values =
    if eq_ℤ level (pos 1)
    then some (entry_at 1 values)
    else if eq_ℤ level (pos 2)
    then some (entry_at 2 values)
    else none

-- a hash without one of the ids or with another level is passed over
unfoldable pub hash_to_folder_entry : Fields → Option FolderTreeEntry
unfolding field atoi
hash_to_folder_entry values =
    if str_eq (field "id" values) ""
      || str_eq (field "environment_id" values) ""
      || str_eq (field "project_id" values) ""
    then none
    else entry_if_level (atoi (field "level" values)) values

abbrev pub first_error : Result (Unit {0}) → Result (Unit {0}) → Result (Unit {0})
first_error (err e) second = err e
first_error (ok _) second = second

-- Two commands of a pipeline: both are sent, and the first error is returned.
abbrev pub pipelined :
    {R : Type 0} → Action R (Unit {0}) → Action R (Unit {0}) → Action R (Unit {0})
pipelined first second s =
    let (r, s') = first s in let (r', s'') = second s' in (first_error r r', s'')

-- hashes that are there, in the order of the ids
abbrev pub present : List Fields → List Fields
present [] = []
present (h ∷ hs) = let rest = present hs in if is_empty h then rest else h ∷ rest

abbrev pub folder_entries : List Fields → List FolderTreeEntry
folder_entries [] = []
folder_entries (h ∷ hs) =
    let rest = folder_entries hs in
    elim (hash_to_folder_entry h) [ none ↦ rest | some entry ↦ entry ∷ rest ]

module _ {R : Type 0} (ops : CacheOps R) (c : Cache) where
  unfoldable pub upsert_resource : ResourceType → String → Fields → Action R (Unit {0})
  upsert_resource t id fields =
      pipelined (ops.hset (type_key c t id) fields) (ops.sadd (type_ids_key c t) id)

  unfoldable pub delete_resource : ResourceType → String → Action R (Unit {0})
  delete_resource t id = pipelined (ops.del (type_key c t id ∷ [])) (ops.srem (type_ids_key c t) id)

  abbrev pub upsert_org : Entity → Action R (Unit {0})
  upsert_org e = upsert_resource org e.id (org_fields e)

  abbrev pub upsert_project : Entity → Action R (Unit {0})
  upsert_project e = upsert_resource project e.id (child_fields "org_id" e)

  abbrev pub upsert_environment : Entity → Action R (Unit {0})
  upsert_environment e = upsert_resource env e.id (child_fields "project_id" e)

  abbrev pub upsert_folder : FolderTreeEntry → Action R (Unit {0})
  upsert_folder f = upsert_resource folder f.id (folder_fields f)

  abbrev pub delete_org : String → Action R (Unit {0})
  delete_org = delete_resource org

  abbrev pub delete_project : String → Action R (Unit {0})
  delete_project = delete_resource project

  abbrev pub delete_environment : String → Action R (Unit {0})
  delete_environment = delete_resource env

  abbrev pub delete_folder : String → Action R (Unit {0})
  delete_folder = delete_resource folder

  -- the hashes of a type that are there
  unfoldable pub scan_type : ResourceType → R → Result (List Fields)
  scan_type t s = ops.smembers (type_ids_key c t) s >>= λ ids.
      collect (λ id. ops.hget_all (type_key c t id) s) ids >>= λ hashes. ok (present hashes)

  unfoldable pub list_all_meta : R → Result TreeMetaSnapshot
  unfolding scan_type hash_to_org hash_to_child hash_to_folder_entry
  list_all_meta s = scan_type org s >>= λ orgs. scan_type project s >>= λ projects.
      scan_type env s >>= λ envs. scan_type folder s >>= λ folders. ok (record {
        orgs = map hash_to_org orgs;
        projects = map hash_to_project projects;
        envs = map hash_to_env envs;
        folders = folder_entries folders;
      })

  -- a writer stops at its first error
  unfoldable pub each_upsert :
      {A : Type 0} → (A → Action R (Unit {0})) → List A → Action R (Unit {0})
  each_upsert upsert [] = Actions.return tt
  each_upsert upsert (x ∷ xs) = Actions.◌>>◌ (upsert x) (each_upsert upsert xs)

  -- all four writers run, and the first error is returned
  unfoldable pub warm_tree : TreeMetaSnapshot → Action R (Unit {0})
  unfolding each_upsert upsert_resource
  warm_tree snapshot = pipelined (each_upsert upsert_org snapshot.orgs) (
      pipelined (each_upsert upsert_project snapshot.projects) (
        pipelined (each_upsert upsert_environment snapshot.envs)
          (each_upsert upsert_folder snapshot.folders)))
