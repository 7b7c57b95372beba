-- ===== src/Service/Secret/Search.antt =====
-- internal/service/secret_service.go: List and Search, with narrowSecretSearchScope,
-- fillValuesPerSecret, aggregateSecretsByProject, revealIfPermitted and paginateSecrets. A map is
-- an association list in the order of its first insertions; a slice out of its bounds is Go's
-- panic, which is an error of the model's own.
pub mod Scope
pub mod Groups
pub mod Pages
pub mod Values
use env_vault.Base.{
  ℕ, ◌+◌, ◌-◌, zero, suc, String, Bool, true, false, ◌&&◌, ◌||◌, not, Option, none, some, List, [],
  ◌∷◌, map, length, take, drop, ltb, leb, str_eq, Result, ok, err, Failure, failure,
  permission_denied, require, ◌>>=◌, ◌>>◌, if◌then◌else◌, ◌==◌,
}
use env_vault.Base.Int.{ℤ, pos, negsuc, pos_part}
use env_vault.Text.{trim_space, is_blank}
use env_vault.Domain.Pagination
use env_vault.Domain.Pagination.{Pagination, PaginatedResult}
use env_vault.Auth.{UserInfo}
use env_vault.Service.Secret.{
  Ciphertext, Secret, RawCiphertext, no_bytes, undecodable, encoded, SecretCacheRecord, ListFilter,
  SecretService, secret_scope, decrypt,
}
use env_vault.Service.Secret.Batch.{collect}

-- SecretGroup of internal/domain/entity.go: a key, and its secret in each environment.
pub record SecretGroup : Type 0 where
  pub key : String
  pub envs : List (String × Secret)

-- A hit of a search is a group or a secret (`any`).
pub data SearchItem : Type 0 where
  group : SecretGroup → SearchItem
  single : Secret → SearchItem

abbrev panic : Failure
panic = failure "slice bounds out of range"

unfoldable pub narrow_secret_search_scope : ListFilter → ListFilter
narrow_secret_search_scope filter =
    let folder_id = trim_space filter.folder_id in
    let environment_id = trim_space filter.environment_id in
    let project_id = trim_space filter.project_id in
    if not (str_eq folder_id "")
    then record filter { folder_id = folder_id; environment_id = ""; project_id = "" }
    else if not (str_eq environment_id "")
    then record filter { folder_id = folder_id; environment_id = environment_id; project_id = "" }
    else record filter {
      folder_id = folder_id;
      environment_id = environment_id;
      project_id = project_id;
    }

-- g.Envs[code] = secret
unfoldable pub put_env : String → Secret → List (String × Secret) → List (String × Secret)
put_env code x [] = (code, x) ∷ []
put_env code x ((code', y) ∷ envs) =
    let rest = put_env code x envs in
    if str_eq code' code then (code', x) ∷ envs else (code', y) ∷ rest

-- An environment's secret goes into the group, if it has an environment.
abbrev pub with_env : Secret → SecretGroup → SecretGroup
with_env x g =
    if str_eq x.environment_code ""
    then g
    else record g { envs = put_env x.environment_code x g.envs }

abbrev pub Groups : Type 0
Groups = List ((String × String) × SecretGroup)

-- One turn of the loop over the records: the group of the folder's code and the key.
unfoldable pub add_record : Secret → Groups → Groups
unfolding put_env
add_record x [] = ((x.folder_code, x.key), with_env x (record { key = x.key; envs = [] })) ∷ []
add_record x (((folder_code, key), g) ∷ gs) =
    let rest = add_record x gs in
    if str_eq folder_code x.folder_code && str_eq key x.key
    then ((folder_code, key), with_env x g) ∷ gs
    else ((folder_code, key), g) ∷ rest

unfoldable pub add_records : List Secret → Groups → Groups
unfolding add_record
add_records [] gs = gs
add_records (x ∷ xs) gs = add_records xs (add_record x gs)

-- all[offset:end] after both were cut to the length
unfoldable pub page_slice : {A : Type 0} → ℤ → ℕ → List A → Result (List A)
page_slice (negsuc n) limit all = err panic
page_slice (pos n) limit all =
    let offset = if ltb (length all) n then length all else n in
    let end_of_page = if ltb (length all) (offset + limit) then length all else offset + limit in
    ok (take (end_of_page - offset) (drop offset all))

unfoldable pub aggregate_secrets_by_project :
    PaginatedResult SecretCacheRecord → Pagination → Result (PaginatedResult SecretGroup)
aggregate_secrets_by_project records page =
    let all = map (λ g. g.1) (add_records (map (λ r. r.secret) records.items) []) in
    let total = if records.total == 0 then length all else records.total in
    page_slice (Pagination.offset page) (pos_part (Pagination.limit page)) all >>= λ items.
    ok (record { items = items; total = total })

unfoldable pub paginate_secrets : List Secret → Pagination → Result (PaginatedResult Secret)
paginate_secrets items page =
    page_slice (Pagination.offset (Pagination.normalize page))
      (pos_part (Pagination.limit (Pagination.normalize page))) items
    >>= λ shown. ok (record { items = shown; total = length items })

module _ {D C : Type 0} (s : SecretService D C) where
  -- the plaintext, or nothing where the caller may not reveal it or it cannot be decrypted
  abbrev opened_or_empty : RawCiphertext → String
  opened_or_empty no_bytes = ""
  opened_or_empty undecodable = ""
  opened_or_empty (encoded c) = elim (decrypt s c) [ ok plaintext ↦ plaintext | err e ↦ "" ]

  abbrev pub permitted : Result (Unit {0}) → RawCiphertext → Result String
  permitted (ok _) raw = ok (opened_or_empty raw)
  permitted (err permission_denied) raw = ok ""
  permitted (err e) raw = err e

  unfoldable pub reveal_if_permitted : UserInfo → String → RawCiphertext → D → Result String
  reveal_if_permitted user id no_bytes d = ok ""
  reveal_if_permitted user id undecodable d =
      permitted (s.authorizer.allow user "secret:reveal" (secret_scope id) d) undecodable
  reveal_if_permitted user id (encoded c) d =
      permitted (s.authorizer.allow user "secret:reveal" (secret_scope id) d) (encoded c)

  -- one secret of the result, with its value under its environment's code
  unfoldable pub fill_value : UserInfo → D → SecretCacheRecord → Result Secret
  unfolding reveal_if_permitted
  fill_value user d r = do
    plaintext ← reveal_if_permitted user r.secret.id r.value_ciphertext d
    ok (
        if not (str_eq plaintext "") || not (str_eq r.secret.environment_code "")
        then record r.secret { values = (r.secret.environment_code, plaintext) ∷ [] }
        else r.secret)

  unfoldable pub fill_values_per_secret :
      UserInfo → PaginatedResult SecretCacheRecord → D → Result (PaginatedResult Secret)
  unfolding fill_value
  fill_values_per_secret user records d = do
    items ← collect (fill_value user d) records.items
    ok (record { items = items; total = records.total })

  unfoldable pub list : UserInfo → ListFilter → Pagination → D → Result (PaginatedResult Secret)
  unfolding narrow_secret_search_scope
  list user filter page d = do
    require (not (is_blank user.user_id)) permission_denied
    s.repo.list_secrets user.user_id "secret:list" (narrow_secret_search_scope filter) page d

  -- groups where the scope is a project, secrets otherwise
  unfoldable pub shaped :
      UserInfo
      → ListFilter
      → Pagination
      → D
      → PaginatedResult SecretCacheRecord
      → Result (PaginatedResult SearchItem)
  unfolding aggregate_secrets_by_project fill_values_per_secret
  shaped user narrowed page d records =
      if not (str_eq narrowed.project_id "")
      then (aggregate_secrets_by_project records page >>= λ groups.
          ok (record { items = map group groups.items; total = groups.total }))
      else (fill_values_per_secret user records d >>= λ secrets.
          ok (record { items = map single secrets.items; total = secrets.total }))

  unfoldable pub search :
      UserInfo → ListFilter → Pagination → D → Result (PaginatedResult SearchItem)
  unfolding narrow_secret_search_scope shaped
  search user filter page d = do
    require (not (is_blank user.user_id)) permission_denied
    let narrowed = narrow_secret_search_scope filter
    records ← s.repo.list_secrets_with_ciphertext user.user_id "secret:search" narrowed page d
    shaped user narrowed page d records
