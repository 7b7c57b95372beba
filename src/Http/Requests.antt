-- ===== src/Http/Requests.antt =====
-- internal/http/controller/resource_secret_batch.go: the checks of the batch requests on secrets and
-- the answers to them. The texts of the errors stand without the places that they name; of several
-- repetitions, the one that is named depends on the order of a Go map.
pub mod Passed
pub mod Updated
use Prim.Native.String
use env_vault.Base.{
  ℕ, String, Bool, true, false, ◌&&◌, ◌||◌, not, none, List, [], ◌∷◌, map, length, leb, Result, ok,
  err, Failure, failure, permission_denied, not_found, conflict, require, ◌>>=◌, ◌>>◌, str_eq,
  if◌then◌else◌,
}
use env_vault.Base.Int.{pos, negsuc}
use env_vault.Text.{trim_space, is_blank, is_secret_key}
use env_vault.Auth.{UserInfo, member}
use env_vault.Service.Secret.{SecretService, World}
use env_vault.Service.Secret.Batch.{
  BatchCreateEnvTarget, BatchCreateSecretSpec, is_empty, collect, batch_create,
}
use env_vault.Service.Secret.Batch.ByIds.{
  BatchUpdateByIdsValueSpec, BatchUpdateByIdsRequest, batch_update_by_ids,
}
use env_vault.Http
use env_vault.Http.{
  Reply, Message, text, prefixed, coded, fail, Checked, answered, passed, check, matches_uuid,
}

pub record SecretBatchEnvValue : Type 0 where
  pub env_code : String
  pub folder_id : String
  pub value : String

pub record SecretBatchCreateItem : Type 0 where
  pub key : String
  pub comment : String
  pub env_list : List SecretBatchEnvValue

abbrev pub target_of : SecretBatchEnvValue → BatchCreateEnvTarget
target_of e = record { env_code = trim_space e.env_code; folder_id = e.folder_id; value = e.value }

abbrev pub env_target : SecretBatchEnvValue → Result BatchCreateEnvTarget
env_target e = do
  require (not (is_blank e.env_code)) (failure "envCode is empty")
  require (not (is_blank e.folder_id)) (failure "folderId is empty")
  ok (target_of e)

-- Something stands in a list twice: a list of positions, or of envs, that is longer than one.
unfoldable pub repeats : List String → Bool
repeats [] = false
repeats (x ∷ xs) = let rest = repeats xs in member x xs || rest

abbrev pub check_env_code_uniqueness : List BatchCreateEnvTarget → Result (Unit {0})
check_env_code_uniqueness envs =
    require (not (repeats (map (λ e. e.env_code) envs))) (failure "envCode repeated")

abbrev pub check_folder_id_uniqueness : List BatchCreateEnvTarget → Result (Unit {0})
check_folder_id_uniqueness envs =
    require (not (repeats (map (λ e. e.folder_id) envs))) (failure "folderId shared")

unfoldable pub extract_envs : SecretBatchCreateItem → Result (List BatchCreateEnvTarget)
unfolding trim_space repeats
extract_envs item = do
  require (not (is_empty item.env_list)) (failure "envList is empty")
  envs ← collect env_target item.env_list
  check_env_code_uniqueness envs
  check_folder_id_uniqueness envs
  ok envs

abbrev pub create_spec : SecretBatchCreateItem → Result BatchCreateSecretSpec
create_spec item = do
  require (is_secret_key item.key) (failure "key format")
  envs ← extract_envs item
  ok (record { key = item.key; comment = item.comment; envs = envs })

-- `secretBatchCreateRequestToDomain`
unfoldable pub create_request : List SecretBatchCreateItem → Result (List BatchCreateSecretSpec)
unfolding extract_envs
create_request items = do
  require (not (is_empty items)) (failure "secretList is empty")
  collect create_spec items

unfoldable pub batch_error : String → String → String → Failure → Reply (Unit {0})
batch_error prefix missing clash permission_denied =
    coded (negsuc 0) (text (String.◌++◌ prefix "，权限不足"))
batch_error prefix missing clash not_found = coded (negsuc 0) (text (String.◌++◌ prefix missing))
batch_error prefix missing clash conflict = coded (negsuc 0) (text (String.◌++◌ prefix clash))
batch_error prefix missing clash e = coded (negsuc 0) (prefixed (String.◌++◌ prefix "，") e)

abbrev pub batch_create_error : String → Failure → Reply (Unit {0})
batch_create_error prefix = batch_error prefix "，目标 folder 不存在" "，secret 已存在"

abbrev pub batch_update_error : String → Failure → Reply (Unit {0})
batch_update_error prefix = batch_error prefix "，secret 不存在" "，secret 冲突"

abbrev pub batch_success : Reply (Unit {0})
batch_success = coded (pos 0) (text "success")

abbrev pub answer : (Failure → Reply (Unit {0})) → Result (Unit {0}) → Reply (Unit {0})
answer refuse (err e) = refuse e
answer refuse (ok _) = batch_success

module _ {D C : Type 0} (s : SecretService D C) (user : UserInfo) (actor : String) where
  abbrev create_passed :
      Result (List BatchCreateSecretSpec) → World D C → Reply (Unit {0}) × World D C
  create_passed (err e) w = (batch_create_error "入参校验" e, w)
  create_passed (ok specs) w =
      let (r, w') = batch_create s user specs actor w in (answer (batch_create_error "创建失败") r, w')

  unfoldable pub batch_create_secret :
      List SecretBatchCreateItem → World D C → Reply (Unit {0}) × World D C
  unfolding create_request batch_error
  batch_create_secret items w = create_passed (create_request items) w

abbrev pub invalid : String → Reply (Unit {0})
invalid msg = fail 400 (pos 1002) (text msg)

abbrev pub check_value : BatchUpdateByIdsValueSpec → Checked (Unit {0}) (Unit {0})
check_value v =
    Http.◌>>◌ (check (not (is_blank v.id)) (invalid "id is empty"))
      (check (matches_uuid v.id) (invalid "id is no UUID"))

unfoldable pub check_values : List BatchUpdateByIdsValueSpec → Checked (Unit {0}) (Unit {0})
check_values [] = passed tt
check_values (v ∷ vs) = let rest = check_values vs in Http.◌>>◌ (check_value v) rest

-- The checks of BatchUpdateSecret; what it hands to the service is the request field by field.
unfoldable pub update_request : BatchUpdateByIdsRequest → Checked (Unit {0}) (Unit {0})
unfolding check_values
update_request req = Http.◌>>◌ (check (not (is_blank req.key)) (invalid "key is empty")) (
    Http.◌>>◌ (check (is_secret_key req.key) (invalid "key format")) (
      Http.◌>>◌ (check (leb (length req.values) 100) (invalid "values max length is 100")) (
        Http.◌>>◌ (check_values req.values) (
          check (not (is_empty req.values && is_blank req.comment))
            (invalid "values and comment are empty")))))

module _ {D C : Type 0} (s : SecretService D C) (user : UserInfo) (actor : String) where
  abbrev update_passed :
      BatchUpdateByIdsRequest
      → Checked (Unit {0}) (Unit {0})
      → World D C
      → Reply (Unit {0}) × World D C
  update_passed req (answered r) w = (r, w)
  update_passed req (passed _) w =
      let (r, w') = batch_update_by_ids s user req actor w in
      (answer (batch_update_error "更新失败") r, w')

  unfoldable pub batch_update_secret :
      BatchUpdateByIdsRequest → World D C → Reply (Unit {0}) × World D C
  unfolding update_request batch_error
  batch_update_secret req w = update_passed req (update_request req) w
