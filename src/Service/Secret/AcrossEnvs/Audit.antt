-- ===== src/Service/Secret/AcrossEnvs/Audit.antt =====
-- internal/service/secret_service.go, ListAcrossEnvs: the audit of what it shows.
use env_vault.Base.{ℕ, ◌+◌, List, [], ◌∷◌}
use env_vault.Service.Secret.{AuditPayload, no_payload, keys_payload, across_keys, across_items}
use env_vault.Service.Secret.AcrossEnvs.{SecretAcrossEnvs, count_values}

-- How many values an answer shows.
abbrev pub shown_values : List SecretAcrossEnvs → ℕ
shown_values [] = 0
shown_values (a ∷ xs) = count_values a.envs + shown_values xs

-- The number of values that an audit record names.
abbrev pub hits_of : AuditPayload → ℕ
hits_of no_payload = 0
hits_of (keys_payload keys) = 0
hits_of (across_keys folder_code keys env_list hits) = hits
hits_of (across_items env_list hits items) = hits
