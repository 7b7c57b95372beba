-- ===== src/Http/Folders.antt =====
-- internal/http/controller/resource_folder_batch.go: the update of the names and comments of several
-- folders that have one code. The label of the caller, which the repository keeps in memory, is left
-- aside.
pub mod Checks
use env_vault.Base.{
  ℕ, String, Bool, true, false, ◌&&◌, ◌||◌, not, Option, none, some, List, [], ◌∷◌, length, leb,
  Result, ok, err, Failure, permission_denied, not_found, Action, str_eq, if◌then◌else◌,
}
use env_vault.Base.Int.{pos}
use env_vault.Text.{trim_space}
use Prim.Native.String
use env_vault.Auth.{UserInfo, Authorizer, member}
use env_vault.Service.Tree.{Entity, FolderTreeEntry}
use env_vault.Service.Secret.Batch.{is_empty}
use env_vault.Store.Cache.{CacheOps, Cache}
use env_vault.Store.Cache.Meta.{upsert_folder}
use env_vault.Http.{
  Reply, text, fail, fail_with_msg, write, Checked, answered, passed, check, matches_uuid, ◌>>=◌,
  ◌>>◌,
}

pub record BatchUpdateFolderRequest : Type 0 where
  pub id_list : List String
  pub code : String
  pub name : String
  pub comment : String

-- The place of a folder: its environment, its project, its parent and its level.
pub record FolderContext : Type 0 where
  pub environment_id : String
  pub project_id : String
  pub parent_id : String
  pub level : ℕ

-- What the handler uses of the repository of internal/store/store.go on a database `S`.
pub record FolderRepository (S : Type 0) : Type 0 where
  pub get_folder : String → S → Result Entity
  pub update_folder : String → String → String → String → Action S Entity
  pub get_folder_context : String → S → Result FolderContext

pub record FolderController (S : Type 0) (R : Type 0) : Type 0 where
  pub repo : FolderRepository S
  pub authorizer : Authorizer S
  -- none when there is no Redis
  pub cache : Option (CacheOps R × Cache)

-- The database and the Redis of the cache.
pub record World (S : Type 0) (R : Type 0) : Type 0 where
  pub db : S
  pub redis : R

abbrev pub Answer : Type 0 → Type 0
Answer B = Checked (List Entity) B

unfoldable pub check_uuids : List String → Answer (Unit {0})
check_uuids [] = passed tt
check_uuids (id ∷ ids) = do
  check (matches_uuid id)
      (fail 400 (pos 1002) (text (String.◌++◌ "idList contains invalid uuid: " id)))
  check_uuids ids

-- each trimmed id once, in the order of their first occurrence
unfoldable pub cleaned_ids : List String → List String → List String
unfolding trim_space
cleaned_ids seen [] = []
cleaned_ids seen (id ∷ ids) =
    let id' = trim_space id in
    let skip = str_eq id' "" || member id' seen in
    let rest = cleaned_ids (if skip then seen else id' ∷ seen) ids in
    if skip then rest else id' ∷ rest

abbrev no_ids : Reply (List Entity)
no_ids = fail_with_msg (text "idList is required and cannot be empty")

unfoldable pub request_ids : BatchUpdateFolderRequest → Answer (List String)
unfolding check_uuids cleaned_ids
request_ids req = do
  check (not (is_empty req.id_list)) no_ids
  check (leb (length req.id_list) 100) (fail 400 (pos 1002) (text "idList max length is 100"))
  check_uuids req.id_list
  let ids = cleaned_ids [] req.id_list
  check (not (is_empty ids)) no_ids
  passed ids

abbrev mismatch : String → Entity → Reply (List Entity)
mismatch code folder = fail_with_msg (
    text (
      String.◌++◌
        (String.◌++◌
          "batch update failed: folder code mismatch, expected all folders to have code '" code)
        (String.◌++◌ (String.◌++◌ "' but folder '" folder.id)
          (String.◌++◌ (String.◌++◌ "' has code '" folder.code) "'"))))

-- the code of the request, or when it is empty that of the first folder that has one
unfoldable pub check_codes : String → List Entity → Answer (Unit {0})
check_codes code [] = passed tt
check_codes code (folder ∷ folders) =
    let base = if str_eq code "" then folder.code else code in
    ◌>>◌ (check (str_eq folder.code base) (mismatch base folder)) (check_codes base folders)

module _ {S R : Type 0} (ctrl : FolderController S R) (user : UserInfo) where
  abbrev found : String → Result Entity → Answer Entity
  found id (ok folder) = passed folder
  found id (err not_found) =
      answered (fail 404 (pos 1404) (text (String.◌++◌ "folder not found: " id)))
  found id (err e) = answered (write (err e))

  unfoldable pub current_folders : List String → S → Answer (List Entity)
  unfolding write
  current_folders [] s = passed []
  current_folders (id ∷ ids) s = do
    folder ← found id (ctrl.repo.get_folder id s)
    folders ← current_folders ids s
    passed (folder ∷ folders)

  abbrev allowed : String → Result (Unit {0}) → Answer (Unit {0})
  allowed id (ok _) = passed tt
  allowed id (err permission_denied) = answered (
      fail 403 (pos 1403)
        (text (String.◌++◌ (String.◌++◌ "permission denied: folder:update on folder '" id) "'")))
  allowed id (err e) = answered (write (err e))

  abbrev pub may_update : Entity → S → Result (Unit {0})
  may_update folder =
      ctrl.authorizer.allow user "folder:update" (record { kind = "folder"; id = folder.id })

  unfoldable pub check_permissions : List Entity → S → Answer (Unit {0})
  unfolding write
  check_permissions [] s = passed tt
  check_permissions (folder ∷ folders) s = do
    allowed folder.id (may_update folder s)
    check_permissions folders s

  -- all that the handler asks for before it writes
  unfoldable pub update_checks : BatchUpdateFolderRequest → S → Answer (List String)
  unfolding request_ids current_folders check_codes check_permissions trim_space
  update_checks req s = do
    ids ← request_ids req
    folders ← current_folders ids s
    check_codes (trim_space req.code) folders
    check_permissions folders s
    passed ids

  abbrev with_item : Entity → Result (List Entity) × S → Result (List Entity) × S
  with_item item (ok items, s) = (ok (item ∷ items), s)
  with_item item (err e, s) = (err e, s)

  abbrev go_on : (S → Result (List Entity) × S) → Result Entity × S → Result (List Entity) × S
  go_on rest (err e, s) = (err e, s)
  go_on rest (ok item, s) = with_item item (rest s)

  -- the folders are written one after the other, up to the first error
  unfoldable pub update_folders : BatchUpdateFolderRequest → List String → Action S (List Entity)
  update_folders req [] s = (ok [], s)
  update_folders req (id ∷ ids) s =
      go_on (update_folders req ids)
        (ctrl.repo.update_folder id req.name req.comment user.user_id s)

  -- the arguments of `UpsertFolder`, which takes no more of the entity than the hash holds
  abbrev entry_of : Entity → FolderContext → FolderTreeEntry
  entry_of item place = record {
    id = item.id;
    code = item.code;
    name = item.name;
    comment = item.comment;
    sort_order = 0;
    created_by_label = "";
    updated_by_label = "";
    created_at = 0;
    updated_at = 0;
    level = place.level;
    environment_id = place.environment_id;
    parent_id = place.parent_id;
    project_id = place.project_id;
    created_by = item.created_by;
    updated_by = item.updated_by;
  }

  -- an error is logged
  abbrev cache_folder : Option (CacheOps R × Cache) → Entity → Result FolderContext → R → R
  cache_folder none item place r = r
  cache_folder (some (ops, c)) item (err e) r = r
  cache_folder (some (ops, c)) item (ok place) r = (upsert_folder ops c (entry_of item place) r).1

  unfoldable pub cache_folders : List Entity → S → R → R
  cache_folders [] s r = r
  cache_folders (item ∷ items) s r =
      cache_folders items s
        (cache_folder ctrl.cache item (ctrl.repo.get_folder_context item.id s) r)

  abbrev written : R → Result (List Entity) × S → Reply (List Entity) × World S R
  written r (ok items, s) = (write (ok items), record { db = s; redis = cache_folders items s r })
  written r (err e, s) = (write (err e), record { db = s; redis = r })

  abbrev after_checks :
      BatchUpdateFolderRequest → World S R → Answer (List String) → Reply (List Entity) × World S R
  after_checks req w (answered r) = (r, w)
  after_checks req w (passed ids) = written w.redis (update_folders req ids w.db)

  unfoldable pub batch_update_folders :
      BatchUpdateFolderRequest → World S R → Reply (List Entity) × World S R
  unfolding write update_checks update_folders cache_folders
  batch_update_folders req w = after_checks req w (update_checks req w.db)
