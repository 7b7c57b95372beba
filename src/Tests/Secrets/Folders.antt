-- ===== src/Tests/Secrets/Folders.antt =====
-- internal/service/secret_service.go at concrete inputs: the paths, and all the secrets of a folder.
use env_vault.Base.{
  all, filter, not, str_eq, String, ◌≡◌, ◌↔◌, refl, false, List, [], ◌∷◌, any, ◌||◌, All, ok,
}
use env_vault.Text.{trim_space, is_blank, split}
use env_vault.Text.Cut.{Lacks}
use env_vault.Service.Secret.{keys_payload, decrypt}
use env_vault.Service.Secret.Paths.{SecretPath, FolderPath, parse_secret_path, parse_folder_path}
use env_vault.Service.Secret.Paths.RoundTrip.{dotted, segments, parse_secret_path_iff}
use env_vault.Service.Secret.FolderReveal.{
  keys_not_found, open_secret, audit_batch, folder_secrets_by_path, batch_reveal_by_path,
}
use env_vault.Service.Secret.{Secret}
use env_vault.Service.Secret.FolderReveal.Audit.{audited_keys, batch_reveal_audited}
use env_vault.Tests.{alice, open_door}
use env_vault.Tests.Secrets.{a_secret, rows, service, vault}

abbrev a_path : SecretPath
a_path = record {
  org_code = "org";
  project_code = "proj";
  env_code = "dev";
  folder_code = "svc";
  key = "URL";
}

parse_secret_path_iff_example : (parse_secret_path " org.proj.dev.svc.URL" ≡ ok a_path) ↔ (
    (trim_space " org.proj.dev.svc.URL" ≡ dotted "org" ("proj" ∷ "dev" ∷ "svc" ∷ "URL" ∷ []))
    × All (Lacks b'.') (segments a_path)
    × (any is_blank (segments a_path) ≡ false))
parse_secret_path_iff_example = parse_secret_path_iff " org.proj.dev.svc.URL" a_path

abbrev a_folder : FolderPath
a_folder = record { org_code = "org"; project_code = "proj"; env_code = "dev"; folder_code = "svc" }

folder_opened :
    (batch_reveal_by_path
      (service open_door)
      alice
      "org.proj.dev.svc"
      ("URL" ∷ "PORT" ∷ [])
      "alice"
      vault).0
    ≡ ok (record a_secret { value = "hidden" } ∷ [], "PORT" ∷ [])
unfolding batch_reveal_by_path folder_secrets_by_path parse_folder_path trim_space split open_secret
    decrypt audit_batch keys_not_found
folder_opened = refl

batch_reveal_audited_example :
    ((rows.record_audit "alice" "folder" "f1" "reveal_batch"
        (keys_payload
          (audited_keys ("URL" ∷ "PORT" ∷ []) (record a_secret { value = "hidden" } ∷ [])))
        vault.db).0
      ≡ ok tt)
    × ((batch_reveal_by_path
          (service open_door)
          alice
          "org.proj.dev.svc"
          ("URL" ∷ "PORT" ∷ [])
          "alice"
          vault).1
        ≡ record vault {
          db =
              (rows.record_audit "alice" "folder" "f1" "reveal_batch"
                (keys_payload
                  (audited_keys ("URL" ∷ "PORT" ∷ []) (record a_secret { value = "hidden" } ∷ [])))
                vault.db).1;
        })
    × (◌≡◌ {A = List String} ("PORT" ∷ []) (
        filter
          (λ k.
            all (λ (y : Secret). not (str_eq k y.key)) (record a_secret { value = "hidden" } ∷ []))
          ("URL" ∷ "PORT" ∷ [])))
batch_reveal_audited_example =
    batch_reveal_audited (service open_door) alice "org.proj.dev.svc" "alice" ("URL" ∷ "PORT" ∷ [])
      ("PORT" ∷ []) (record a_secret { value = "hidden" }) [] vault folder_opened

codes_given : (is_blank "org" || is_blank "proj" || is_blank "dev" || is_blank "svc") ≡ false
unfolding trim_space
codes_given = refl
