-- ===== src/Tests/Secrets/Across.antt =====
-- internal/service/secret_service.go at concrete inputs: a list across environments.
use env_vault.Base.{all, String, ◌≡◌, refl, true, List, [], ◌∷◌, some, none, ok}
use env_vault.Text.{trim_space, is_secret_key}
use env_vault.Service.Secret.{decrypt}
use env_vault.Service.Secret.AcrossEnvs.{
  Query, SecretAcrossEnvs, env_value, placeholders, clean_keys, clean_envs, clean_query, fetch,
  put_value, put_hit, project_code_of, group_rows, audit_groups, answer, list_across_envs,
}
use env_vault.Service.Secret.AcrossEnvs.Complete.{has_key, all_list, across_envs_complete}
use env_vault.Tests.{alice, open_door}
use env_vault.Tests.Secrets.{a_secret, service, vault}

abbrev keys : List String
keys = " URL" ∷ "PORT" ∷ "URL" ∷ []

abbrev env_list : List String
env_list = "dev" ∷ "" ∷ "prod " ∷ []

abbrev query : Query
query = record {
  project_id = "p1";
  folder_code = "svc";
  keys = "URL" ∷ "PORT" ∷ [];
  env_list = "dev" ∷ "prod" ∷ [];
}

-- A value in one environment, and a key without any.
abbrev found_across : List SecretAcrossEnvs
found_across =
    record {
      project_code = "proj";
      key = "URL";
      comment = "";
      envs = ("dev", some (env_value a_secret "hidden")) ∷ ("prod", none) ∷ [];
    }
    ∷ record {
      project_code = "proj";
      key = "PORT";
      comment = "";
      envs = ("dev", none) ∷ ("prod", none) ∷ [];
    }
    ∷ []

cleaned : clean_query alice " p1" "svc" keys env_list ≡ ok query
unfolding clean_query clean_keys clean_envs trim_space is_secret_key
cleaned = refl

listed :
    (list_across_envs (service open_door) alice " p1" "svc" keys env_list "alice" vault).0
    ≡ ok found_across
unfolding list_across_envs clean_query clean_keys clean_envs trim_space is_secret_key fetch
    group_rows put_hit put_value decrypt audit_groups answer project_code_of placeholders
listed = refl

across_envs_complete_example :
    (all (λ k. has_key k found_across) ("URL" ∷ "PORT" ∷ []) ≡ true)
    × (all (λ c. all_list c found_across) ("dev" ∷ "prod" ∷ []) ≡ true)
across_envs_complete_example =
    across_envs_complete (service open_door) alice " p1" "svc" keys env_list "alice" vault query
      found_across cleaned listed
