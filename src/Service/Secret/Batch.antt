-- ===== src/Service/Secret/Batch.antt =====
-- internal/service/secret_service.go: BatchCreate and BatchUpdate. The texts of
-- the errors stand without the places that they name.
pub mod AllOrNothing
pub mod ByIds
pub mod Unchecked
use env_vault.Base.{
  ℕ, String, Bool, true, false, ◌++◌, not, ◌==◌, Option, none, some, List, [], ◌∷◌, map, length,
  ltb, any, str_eq, Result, ok, err, Failure, failure, permission_denied, require, Action, ◌>>=◌,
  ◌>>◌, if◌then◌else◌,
}
use env_vault.Text.{is_blank, is_secret_key}
use env_vault.Auth.{UserInfo, Resource, member}
use env_vault.Service.Secret.{
  Ciphertext, Secret, BatchCreateSecretItem, BatchUpdateSecretItem, SecretService, World,
  folder_scope, secret_scope, encrypt, cache_upsert,
}

pub record BatchCreateEnvTarget : Type 0 where
  pub env_code : String
  pub folder_id : String
  pub value : String

pub record BatchCreateSecretSpec : Type 0 where
  pub key : String
  pub comment : String
  pub envs : List BatchCreateEnvTarget

pub record BatchUpdateSecretSpec : Type 0 where
  pub id : String
  pub key : String
  pub value : String
  pub comment : String

abbrev pub is_empty : {A : Type 0} → List A → Bool
is_empty [] = true
is_empty (x ∷ xs) = false

-- A loop that stops at the first error.
abbrev pub each : {A : Type 0} → (A → Result (Unit {0})) → List A → Result (Unit {0})
each f [] = ok tt
each f (x ∷ xs) = let rest = each f xs in f x >> rest

-- A loop that appends what it makes of each element, until the first error.
abbrev pub collect : {A B : Type 0} → (A → Result B) → List A → Result (List B)
collect f [] = ok []
collect f (x ∷ xs) = let rest = collect f xs in f x >>= λ y. rest >>= λ ys. ok (y ∷ ys)

abbrev pub check_folder : BatchCreateEnvTarget → Result (Unit {0})
check_folder e = require (not (is_blank e.folder_id)) (failure "folderId is empty")

abbrev pub check_create_spec : BatchCreateSecretSpec → Result (Unit {0})
check_create_spec item = do
  require (is_secret_key item.key) (failure "key format")
  require (not (is_empty item.envs)) (failure "no env")
  each check_folder item.envs

abbrev check_update_spec : BatchUpdateSecretSpec → Result (Unit {0})
check_update_spec item = do
  require (not (is_blank item.id)) (failure "id is empty")
  require (is_secret_key item.key) (failure "key format")

module _ {D C : Type 0} (s : SecretService D C) where
  abbrev pub create_target :
      String → String → String → BatchCreateEnvTarget → Result BatchCreateSecretItem
  create_target actor key comment e = do
    ciphertext ← encrypt s e.value
    ok (record {
      folder_id = e.folder_id;
      key = key;
      comment = comment;
      actor = actor;
      ciphertext = ciphertext;
    })

  -- the two loops over the list and each item's environments
  unfoldable pub create_targets :
      String → List BatchCreateSecretSpec → Result (List BatchCreateSecretItem)
  create_targets actor [] = ok []
  create_targets actor (item ∷ items) =
      let rest = create_targets actor items in
      collect (create_target actor item.key item.comment) item.envs >>= λ first.
      rest >>= λ more. ok (first ++ more)

  abbrev pub update_target : String → BatchUpdateSecretSpec → Result BatchUpdateSecretItem
  update_target actor item = do
    ciphertext ← encrypt s item.value
    ok (record {
      id = item.id;
      key = item.key;
      comment = item.comment;
      actor = actor;
      ciphertext = ciphertext;
    })

  abbrev pub may_create : UserInfo → D → BatchCreateSecretItem → Result (Unit {0})
  may_create user d t = s.authorizer.allow user "secret:create" (folder_scope t.folder_id) d

  abbrev pub may_update : UserInfo → D → BatchUpdateSecretItem → Result (Unit {0})
  may_update user d t = s.authorizer.allow user "secret:update" (secret_scope t.id) d

  -- what was written and its ciphertexts, pair by pair
  unfoldable pub cache_all : List Secret → List Ciphertext → C → C
  cache_all [] cs c = c
  cache_all (x ∷ xs) [] c = c
  cache_all (x ∷ xs) (t ∷ ts) c = cache_all xs ts (cache_upsert s x t c)

  abbrev pub batch_written :
      List Ciphertext → Result (List Secret) → World D C → Result (Unit {0}) × World D C
  batch_written ciphertexts (err e) w = (err e, w)
  batch_written ciphertexts (ok secrets) w =
      (ok tt, record w { cached = cache_all secrets ciphertexts w.cached })

  -- everything in front of the write, and the items that it then takes
  unfoldable pub create_items :
      UserInfo → List BatchCreateSecretSpec → String → D → Result (List BatchCreateSecretItem)
  unfolding create_targets
  create_items user specs actor d = do
    require (not (is_blank user.user_id)) permission_denied
    require (not (is_empty specs)) (failure "secretList is empty")
    each check_create_spec specs
    targets ← create_targets actor specs
    each (may_create user d) targets
    ok targets

  unfoldable pub batch_create :
      UserInfo → List BatchCreateSecretSpec → String → Action (World D C) (Unit {0})
  batch_create user specs actor w = elim (create_items user specs actor w.db) [
    | err e ↦ (err e, w)
    | ok items ↦
        (let (r, d) = s.repo.batch_create_secrets items w.db in
          batch_written (map (λ t. t.ciphertext) items) r (record w { db = d }))
  ]

  unfoldable pub update_items :
      UserInfo → List BatchUpdateSecretSpec → String → D → Result (List BatchUpdateSecretItem)
  update_items user specs actor d = do
    require (not (is_blank user.user_id)) permission_denied
    require (not (is_empty specs)) (failure "secretList is empty")
    each check_update_spec specs
    targets ← collect (update_target actor) specs
    each (may_update user d) targets
    ok targets

  -- the write of a batch of updates
  abbrev pub write_updates : List BatchUpdateSecretItem → Action (World D C) (Unit {0})
  write_updates items w =
      let (r, d) = s.repo.batch_update_secrets items w.db in
      batch_written (map (λ t. t.ciphertext) items) r (record w { db = d })

  unfoldable pub batch_update :
      UserInfo → List BatchUpdateSecretSpec → String → Action (World D C) (Unit {0})
  batch_update user specs actor w = elim (update_items user specs actor w.db) [
    | err e ↦ (err e, w)
    | ok items ↦ write_updates items w
  ]
