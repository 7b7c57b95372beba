-- ===== src/Tests/Requests.antt =====
-- Batch requests on secrets.
use env_vault.Base.{◌≤◌, ◌≡◌, refl, true, false, [], ◌∷◌, All, length, ok}
use env_vault.Base.Int.{pos}
use env_vault.Text.{trim_space, is_secret_key}
use env_vault.Auth.Bearer.{is_uuid}
use env_vault.Service.Secret.Batch.{BatchCreateSecretSpec}
use env_vault.Service.Secret.Batch.ByIds.{
  BatchUpdateByIdsRequest, batch_update_by_ids, by_ids_items,
}
use env_vault.Service.Secret.{encrypt}
use env_vault.Http.{matches_uuid}
use env_vault.Http.Requests.{
  SecretBatchCreateItem, create_request, extract_envs, repeats, update_request, check_values,
  batch_update_secret,
}
use env_vault.Http.Requests.Updated.{batch_update_success}
use env_vault.Tests.{alice}
use env_vault.Tests.Secrets.{service, closed_door, vault}

abbrev item : SecretBatchCreateItem
item = record {
  key = "URL";
  comment = "";
  env_list =
      (record { env_code = " dev"; folder_id = "f1"; value = "x" })
      ∷ (record { env_code = "prod"; folder_id = "f2"; value = "" })
      ∷ [];
}

abbrev spec : BatchCreateSecretSpec
spec = record {
  key = "URL";
  comment = "";
  envs =
      (record { env_code = "dev"; folder_id = "f1"; value = "x" })
      ∷ (record { env_code = "prod"; folder_id = "f2"; value = "" })
      ∷ [];
}

passed_on : create_request (item ∷ []) ≡ ok (spec ∷ [])
unfolding create_request extract_envs is_secret_key trim_space repeats
passed_on = refl

abbrev request : BatchUpdateByIdsRequest
request = record {
  values = (record { id = "11111111-1111-1111-1111-111111111111"; value = "x" }) ∷ [];
  key = "URL";
  comment = "";
}

updated : (batch_update_secret (service closed_door) alice "alice" request vault).0.code ≡ pos 0
unfolding batch_update_secret update_request check_values is_secret_key trim_space is_uuid
    batch_update_by_ids by_ids_items encrypt
updated = refl

batch_update_success_example :
    (is_secret_key "URL" ≡ true)
    × (length request.values ≤ 32)
    × All (λ v. matches_uuid v.id ≡ true) request.values
    × (repeats ("11111111-1111-1111-1111-111111111111" ∷ []) ≡ false)
    × (batch_update_by_ids (service closed_door) alice request "alice" vault
        ≡ (ok tt, (batch_update_secret (service closed_door) alice "alice" request vault).1))
batch_update_success_example =
    batch_update_success (service closed_door) alice "alice" request vault updated
