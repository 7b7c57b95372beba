-- ===== src/Tests/Secrets/Lists.antt =====
-- internal/service/secret_service.go at concrete inputs: the lists and the searches.
use env_vault.Base.{ℕ, ◌≡◌, refl, none, [], ◌∷◌, All, arith, ok}
use env_vault.Base.Int.{pos}
use env_vault.Domain.Pagination.{PaginatedResult, limit}
use env_vault.Service.Secret.{Secret, encoded, SecretCacheRecord, decrypt}
use env_vault.Service.Secret.Search.{
  add_records, aggregate_secrets_by_project, fill_values_per_secret, fill_value,
  reveal_if_permitted,
}
use env_vault.Service.Secret.Search.Groups.{find, last_at, grouped_is_last}
use env_vault.Service.Secret.Search.Pages.{later_pages_empty}
use env_vault.Service.Secret.Search.Values.{ShowsPermitted, shown_values_permitted}
use env_vault.Tests.{differ, alice, open_door}
use env_vault.Tests.Secrets.{a_secret, sealed_text, service, vault}

grouped_is_last_example :
    find "svc" "URL" "dev" (add_records (a_secret ∷ []) [])
    ≡ last_at "svc" "URL" "dev" (a_secret ∷ []) none
grouped_is_last_example = grouped_is_last "svc" "URL" "dev" (a_secret ∷ []) (differ "dev" "" refl)

abbrev found : PaginatedResult SecretCacheRecord
found = record {
  items = record { secret = a_secret; value_ciphertext = encoded (sealed_text "v") } ∷ [];
  total = 21;
}

ten_rows : limit (record { page_num = pos 2; page_size = pos 10 }) ≡ pos 10
unfolding limit
ten_rows = refl

later_pages_empty_example :
    (total : ℕ) × (aggregate_secrets_by_project found
        (record { page_num = pos 2; page_size = pos 10 })
      ≡ ok (record { items = []; total = total }))
later_pages_empty_example =
    later_pages_empty found 0 (pos 10) 10 (omega arith) ten_rows (omega arith)

abbrev filled : PaginatedResult Secret
filled = record { items = record a_secret { values = ("dev", "v") ∷ [] } ∷ []; total = 21 }

filled_found : fill_values_per_secret (service open_door) alice found vault.db ≡ ok filled
unfolding fill_values_per_secret fill_value reveal_if_permitted decrypt
filled_found = refl

shown_values_permitted_example :
    All (ShowsPermitted (service open_door) alice vault.db) filled.items
shown_values_permitted_example =
    shown_values_permitted (service open_door) alice vault.db found filled (refl, tt) filled_found
