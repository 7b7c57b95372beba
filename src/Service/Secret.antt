-- ===== src/Service/Secret.antt =====
-- internal/service/secret_service.go and the records of internal/domain/entity.go that it passes
-- on. Here: a secret, its ciphertext, and what the service is given, the repository
-- (ResourceRepository of internal/store/store.go), the encryptor, the cache and the authorizer.
-- The children hold the paths, the operations on one secret, the batches and the lists.
pub mod Paths
pub mod Single
pub mod Batch
pub mod Search
pub mod FolderReveal
pub mod AcrossEnvs
use env_vault.Base.{
  ℕ, String, Bool, Option, none, some, List, Result, ok, err, Failure, failure, Action,
}
use env_vault.Domain.{Time}
use env_vault.Domain.Pagination.{Pagination, PaginatedResult}
use env_vault.Auth.{Resource, Authorizer}

pub record Ciphertext : Type 0 where
  pub algorithm : String
  pub nonce : List ℕ
  pub bytes : List ℕ

pub record Secret : Type 0 where
  pub id : String
  pub org_id : String
  pub org_code : String
  pub project_id : String
  pub project_code : String
  pub environment_id : String
  pub environment_code : String
  pub folder_id : String
  pub folder_code : String
  pub key : String
  pub path : String
  pub value : String
  pub values : List (String × String)
  pub comment : String
  pub version : ℕ
  pub sort_order : ℕ
  pub created_by : String
  pub created_by_label : String
  pub updated_by : String
  pub updated_by_label : String
  pub created_at : Time
  pub updated_at : Time

-- The bytes of a ciphertext's JSON, by what json.Unmarshal makes of them.
pub data RawCiphertext : Type 0 where
  no_bytes undecodable : RawCiphertext
  encoded : Ciphertext → RawCiphertext

pub record SecretCacheRecord : Type 0 where
  pub secret : Secret
  pub value_ciphertext : RawCiphertext

pub record ListFilter : Type 0 where
  pub environment_id : String
  pub folder_id : String
  pub project_id : String
  pub keyword : String

pub record BatchCreateSecretItem : Type 0 where
  pub folder_id : String
  pub key : String
  pub comment : String
  pub actor : String
  pub ciphertext : Ciphertext

pub record BatchUpdateSecretItem : Type 0 where
  pub id : String
  pub key : String
  pub comment : String
  pub actor : String
  pub ciphertext : Ciphertext

-- The payload of an audit record: nil, the keys that were shown, or what a list across environments
-- has shown.
pub data AuditPayload : Type 0 where
  no_payload : AuditPayload
  keys_payload : (keys : List String) → AuditPayload
  across_keys : (folder_code : String) (keys env_list : List String) (hits : ℕ) → AuditPayload
  across_items :
      (env_list : List String) (total_hits : ℕ) (items : List (String × String)) → AuditPayload

-- What only reads leaves the state; a write returns the state it leaves.
pub record SecretRepository (D : Type 0) : Type 0 where
  pub create_secret : String → String → String → String → Ciphertext → Action D Secret
  pub update_secret : String → String → String → String → Ciphertext → Action D Secret
  pub delete_secret : String → String → Action D (Unit {0})
  pub get_secret : String → D → Result Secret
  pub get_secret_by_path : String → String → String → String → String → D → Result Secret
  pub get_secret_ciphertext : String → D → Result (Secret × Ciphertext)
  -- the keys may be a nil slice, which is NULL in the query
  pub batch_reveal_secrets_by_path :
      String
      → String
      → String
      → String
      → String
      → String
      → Option (List String)
      → D
      → Result (List (Secret × RawCiphertext))
  pub list_secrets : String → String → ListFilter → Pagination → D → Result (PaginatedResult Secret)
  pub list_secrets_with_ciphertext :
      String → String → ListFilter → Pagination → D → Result (PaginatedResult SecretCacheRecord)
  pub list_secrets_in_project_by_envs :
      String → String → String → String → List String → D → Result (List (Secret × RawCiphertext))
  pub list_secrets_by_project_folder_key :
      String
      → String
      → String
      → String
      → List String
      → List String
      → D
      → Result (List (Secret × RawCiphertext))
  -- one secret for each item, in their order
  pub batch_create_secrets : List BatchCreateSecretItem → Action D (List Secret)
  pub batch_update_secrets : List BatchUpdateSecretItem → Action D (List Secret)
  pub get_secrets_keys : List String → D → Result (List String)
  pub get_secret_ids_by_key : String → D → Result (List String)
  pub batch_update_comment_by_ids : List String → String → String → Action D (Unit {0})
  pub record_audit : String → String → String → String → AuditPayload → Action D (Unit {0})

-- internal/crypto; the nonces that it draws are its own.
pub record Encryptor : Type 0 where
  pub encrypt_bytes : String → Result Ciphertext
  pub decrypt_bytes : Ciphertext → Result String

-- The errors of the cache are only logged, so what it leaves is all that counts.
pub record SecretCache (C : Type 0) : Type 0 where
  pub upsert_secret : SecretCacheRecord → C → C
  pub delete_secret : String → C → C

-- The service's fields: the encryptor and the cache may be nil.
pub record SecretService (D C : Type 0) : Type 0 where
  pub repo : SecretRepository D
  pub encryptor : Option Encryptor
  pub cache : Option (SecretCache C)
  pub authorizer : Authorizer D

-- The database and the cache.
pub record World (D C : Type 0) : Type 0 where
  pub db : D
  pub cached : C

abbrev pub folder_scope : String → Resource
folder_scope folder_id = record { kind = "folder"; id = folder_id }

abbrev pub secret_scope : String → Resource
secret_scope id = record { kind = "secret"; id = id }

module _ {D C : Type 0} (s : SecretService D C) where
  unfoldable pub encrypt : String → Result Ciphertext
  encrypt value = elim s.encryptor [
    | none ↦ err (failure "encryptor is not configured")
    | some encryptor ↦ encryptor.encrypt_bytes value
  ]

  unfoldable pub decrypt : Ciphertext → Result String
  decrypt ciphertext = elim s.encryptor [
    | none ↦ err (failure "encryptor is not configured")
    | some encryptor ↦ encryptor.decrypt_bytes ciphertext
  ]

  -- json.Marshal of a text and bytes does not fail
  unfoldable pub cache_upsert : Secret → Ciphertext → C → C
  cache_upsert secret ciphertext c = elim s.cache [
    | none ↦ c
    | some cache ↦
        cache.upsert_secret (record { secret = secret; value_ciphertext = encoded ciphertext }) c
  ]

  unfoldable pub cache_delete : String → C → C
  cache_delete id c = elim s.cache [ none ↦ c | some cache ↦ cache.delete_secret id c ]
