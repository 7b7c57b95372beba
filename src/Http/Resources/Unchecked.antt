-- ===== src/Http/Resources/Unchecked.antt =====
-- internal/http/controller/resource_folder.go, CreateFolder: what it does not ask for.
use env_vault.Base.{◌≡◌, refl, true, false, Option, List, ok, err, Result}
use env_vault.Base.Int.{pos}
use env_vault.Auth.{UserInfo, Authorizer}
use env_vault.Service.Tree.{Entity}
use env_vault.Service.Secret.Batch.{is_empty}
use env_vault.Http.Folders.{World}
use env_vault.Http.Resources.{Copies, is_code}
use env_vault.Http.Resources.Handlers.{
  ResourceRepository, CreateFolderRequest, all_uuids, created_folders, create_folder_batch,
  create_folder,
}

created_folders-db :
    {S R : Type 0} (repo : ResourceRepository S) (authorizer : Option (Authorizer S))
    (copies : Copies R) (user : UserInfo) (r : R) (out : Result (List Entity) × S)
    → (created_folders repo authorizer copies user r out).1.db ≡ out.1
created_folders-db repo authorizer copies user r (ok items, s) = refl
created_folders-db repo authorizer copies user r (err e, s) = refl

-- Whoever the caller is and whatever the authorizer would answer, also when it refuses everything, a
-- well-formed request for folders of level 1 is carried out: the database is what the repository's
-- creation of these folders in these environments leaves.
create_folder_unchecked :
    {S R : Type 0} (repo : ResourceRepository S) (authorizer : Option (Authorizer S))
    (copies : Copies R) (user : UserInfo) (req : CreateFolderRequest) (w : World S R)
    → is_code req.code ≡ true
    → req.level ≡ pos 1
    → is_empty req.env_list ≡ false
    → all_uuids req.env_list ≡ true
    → (create_folder repo authorizer copies user req w).1.db
      ≡ (repo.create_top_level_folders_in_envs req.code req.name req.comment user.user_id
          req.env_list w.db).1
unfolding create_folder create_folder_batch
create_folder_unchecked repo authorizer copies user req w coded level some_env uuids =
    rw (coded, level, some_env, uuids) (created_folders-db repo authorizer copies user w.redis _)
