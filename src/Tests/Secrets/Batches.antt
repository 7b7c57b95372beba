-- ===== src/Tests/Secrets/Batches.antt =====
-- internal/service/secret_service.go at concrete inputs: the batches.
use env_vault.Base.{◌≡◌, ◌⊎◌, refl, true, false, List, [], ◌∷◌, map, All, ok, err, Failure}
use env_vault.Text.{trim_space, is_blank, is_secret_key}
use env_vault.Service.Secret.{
  Ciphertext, Secret, RawCiphertext, no_bytes, encoded, SecretCacheRecord, ListFilter,
  SecretRepository, Encryptor, SecretService, World, folder_scope, secret_scope, encrypt, decrypt,
}
use env_vault.Service.Secret.Batch.{
  BatchCreateSecretSpec, BatchUpdateSecretSpec, may_create, may_update, batch_written, batch_create,
  batch_update, write_updates,
}
use env_vault.Service.Secret.Batch.AllOrNothing.{folders_of, batch_create_cases, batch_update_cases}
use env_vault.Tests.{alice, open_door}
use env_vault.Tests.Secrets.{sealed_text, rows, service, closed_door, vault}

abbrev new_secrets : List BatchCreateSecretSpec
new_secrets =
    record {
      key = "URL";
      comment = "";
      envs = record { env_code = "dev"; folder_id = "f1"; value = "v" } ∷ [];
    }
    ∷ []

batch_create_cases_example :
    ((items : List env_vault.Service.Secret.BatchCreateSecretItem) × (map (λ t. t.folder_id) items
        ≡ folders_of new_secrets)
      × All (λ t. may_create (service open_door) alice vault.db t ≡ ok tt) items
      × (batch_create (service open_door) alice new_secrets "alice" vault ≡ (
          let (r, d) = rows.batch_create_secrets items vault.db in
          batch_written
            (service open_door)
            (map (λ t. t.ciphertext) items)
            r
            (record vault { db = d }))))
    ⊎ ((e : Failure) × (batch_create (service open_door) alice new_secrets "alice" vault
          ≡ (err e, vault)))
batch_create_cases_example = batch_create_cases (service open_door) alice new_secrets "alice" vault

abbrev changes : List BatchUpdateSecretSpec
changes = record { id = "s1"; key = "URL"; value = "v"; comment = "" } ∷ []

batch_update_cases_example :
    ((items : List env_vault.Service.Secret.BatchUpdateSecretItem) × (map (λ t. t.id) items
        ≡ map (λ item. item.id) changes)
      × All (λ t. may_update (service open_door) alice vault.db t ≡ ok tt) items
      × (batch_update (service open_door) alice changes "alice" vault
          ≡ write_updates (service open_door) items vault))
    ⊎ ((e : Failure) × (batch_update (service open_door) alice changes "alice" vault
          ≡ (err e, vault)))
batch_update_cases_example = batch_update_cases (service open_door) alice changes "alice" vault

id_given : is_blank "s1" ≡ false
unfolding trim_space
id_given = refl

key_given : is_blank "URL" ≡ false
unfolding trim_space
key_given = refl

key_fits : is_secret_key "URL" ≡ true
unfolding is_secret_key
key_fits = refl

encrypted : encrypt (service closed_door) "v" ≡ ok (sealed_text "v")
unfolding encrypt
encrypted = refl
