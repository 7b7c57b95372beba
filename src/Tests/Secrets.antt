-- ===== src/Tests/Secrets.antt =====
-- Secrets of one folder: the repository keeps what was created last, and answers everything else.
mod Single
mod Batches
mod Lists
mod Folders
mod Across
use env_vault.Base.{
  ℕ, String, ◌≡◌, ◌↔◌, ◌⊎◌, refl, true, false, Option, none, some, List, [], ◌∷◌, map, any, ◌||◌,
  All, arith, Result, ok, err, Failure, permission_denied,
}
use env_vault.Base.Int.{pos}
use env_vault.Text.{trim_space, is_blank, split, is_secret_key}
use env_vault.Text.Cut.{Lacks}
use env_vault.Domain.Pagination.{PaginatedResult, limit}
use env_vault.Auth.{Authorizer}
use env_vault.Service.Secret.{
  Ciphertext, Secret, RawCiphertext, no_bytes, encoded, SecretCacheRecord, ListFilter,
  SecretRepository, Encryptor, SecretService, World, folder_scope, secret_scope, encrypt, decrypt,
}
use env_vault.Service.Secret.Paths.{SecretPath, FolderPath, parse_secret_path, parse_folder_path}
use env_vault.Service.Secret.Paths.RoundTrip.{dotted, segments, parse_secret_path_iff}
use env_vault.Service.Secret.Single.{sealed, create, update, delete, opened, reveal, reveal_by_path}
use env_vault.Service.Secret.Single.Laws.{Revealed, reveal_sound, reveal-create}
use env_vault.Service.Secret.Batch.{
  BatchCreateSecretSpec, BatchUpdateSecretSpec, may_create, may_update, batch_written, batch_create,
  batch_update, write_updates,
}
use env_vault.Service.Secret.Batch.ByIds.{batch_update_by_ids}
use env_vault.Service.Secret.Batch.AllOrNothing.{folders_of, batch_create_cases, batch_update_cases}
use env_vault.Service.Secret.Search.{
  narrow_secret_search_scope, add_records, aggregate_secrets_by_project, fill_values_per_secret,
  fill_value, reveal_if_permitted,
}
use env_vault.Service.Secret.Search.Groups.{find, last_at, grouped_is_last}
use env_vault.Service.Secret.Search.Pages.{later_pages_empty}
use env_vault.Service.Secret.Search.Values.{ShowsPermitted, shown_values_permitted}
use env_vault.Service.Secret.FolderReveal.{
  keys_not_found, open_secret, audit_batch, folder_secrets_by_path, batch_reveal_by_path,
  batch_reveal_by_code,
}
use env_vault.Service.Secret.FolderReveal.Audit.{audited_keys, batch_reveal_audited}
use env_vault.Tests.{differ, alice, open_door}

abbrev pub a_secret : Secret
a_secret = record {
  id = "s1";
  org_id = "";
  org_code = "org";
  project_id = "";
  project_code = "proj";
  environment_id = "";
  environment_code = "dev";
  folder_id = "f1";
  folder_code = "svc";
  key = "URL";
  path = "org.proj.dev.svc.URL";
  value = "";
  values = [];
  comment = "";
  version = 1;
  sort_order = 0;
  created_by = "alice";
  created_by_label = "";
  updated_by = "alice";
  updated_by_label = "";
  created_at = 1;
  updated_at = 1;
}

-- The plaintext stands in the place of the algorithm.
abbrev pub sealed_text : String → Ciphertext
sealed_text v = record { algorithm = v; nonce = []; bytes = [] }

-- A NULL list of keys finds nothing.
abbrev found_rows : Option (List String) → Ciphertext → Result (List (Secret × RawCiphertext))
found_rows none d = ok []
found_rows (some keys) d = ok ((a_secret, encoded d) ∷ [])

-- The state is the ciphertext that was written last.
abbrev pub rows : SecretRepository Ciphertext
rows = record {
  create_secret = λ f k m a c d. (ok a_secret, c);
  update_secret = λ i k m a c d. (ok a_secret, c);
  delete_secret = λ i a d. (ok tt, d);
  get_secret = λ i d. ok a_secret;
  get_secret_by_path = λ o p e f k d. ok a_secret;
  get_secret_ciphertext = λ i d. ok (a_secret, d);
  batch_reveal_secrets_by_path = λ u a o p e f ks d. found_rows ks d;
  list_secrets = λ u a f p d. ok (record { items = a_secret ∷ []; total = 1 });
  list_secrets_with_ciphertext = λ u a f p d. ok (record {
    items = record { secret = a_secret; value_ciphertext = encoded d } ∷ [];
    total = 1;
  });
  list_secrets_in_project_by_envs = λ u a p f es d. ok ((a_secret, encoded d) ∷ []);
  list_secrets_by_project_folder_key = λ u a p f ks es d. ok ((a_secret, encoded d) ∷ []);
  batch_create_secrets = λ items d. (ok [], d);
  batch_update_secrets = λ items d. (ok [], d);
  get_secrets_keys = λ ids d. ok (map (λ i. "URL") ids);
  get_secret_ids_by_key = λ k d. ok [];
  batch_update_comment_by_ids = λ ids m a d. (ok tt, d);
  record_audit = λ a k i act p d. (ok tt, d);
}

abbrev cipher : Encryptor
cipher = record { encrypt_bytes = λ v. ok (sealed_text v); decrypt_bytes = λ c. ok c.algorithm }

abbrev pub service : Authorizer Ciphertext → SecretService Ciphertext (Unit {0})
service door = record { repo = rows; encryptor = some cipher; cache = none; authorizer = door }

abbrev pub closed_door : Authorizer Ciphertext
closed_door = record { allow = λ user action resource s. err permission_denied }

abbrev pub vault : World Ciphertext (Unit {0})
vault = record { db = sealed_text "hidden"; cached = tt }

pub alice_named : is_blank alice.user_id ≡ false
unfolding trim_space
alice_named = refl
