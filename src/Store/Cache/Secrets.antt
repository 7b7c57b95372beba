-- ===== src/Store/Cache/Secrets.antt =====
-- internal/store/redis/cache.go: the secrets on Redis, WarmSecrets, UpsertSecret and DeleteSecret. The
-- loop over the cursors of SCAN takes fuel; `none` means that it is still running.
pub mod Kept
pub mod Warming
use env_vault.Base.{
  ℕ, zero, suc, ◌==◌, String, Bool, true, false, ◌||◌, not, Option, none, some, List, [], ◌∷◌,
  Result, ok, err, Action, str_eq, if◌then◌else◌,
}
use env_vault.Base.Actions.{◌>>=◌, ◌>>◌, read, return}
use env_vault.Text.Decimal.{itoa}
use env_vault.Service.Secret.{Secret, SecretCacheRecord}
use env_vault.Service.Secret.Batch.{is_empty}
use env_vault.Store.Cache.{Fields, CacheOps, Codec, Cache, ids_key, secret_key, path_key}

abbrev pub secret_fields : Codec → SecretCacheRecord → Fields
secret_fields codec r =
    ("id", r.secret.id)
    ∷ ("org_id", r.secret.org_id)
    ∷ ("org_code", r.secret.org_code)
    ∷ ("project_id", r.secret.project_id)
    ∷ ("project_code", r.secret.project_code)
    ∷ ("environment_id", r.secret.environment_id)
    ∷ ("environment_code", r.secret.environment_code)
    ∷ ("folder_id", r.secret.folder_id)
    ∷ ("folder_code", r.secret.folder_code)
    ∷ ("key", r.secret.key)
    ∷ ("path", r.secret.path)
    ∷ ("value_ciphertext", codec.base64 r.value_ciphertext)
    ∷ ("comment", r.secret.comment)
    ∷ ("version", itoa r.secret.version)
    ∷ ("created_by", r.secret.created_by)
    ∷ ("created_by_label", r.secret.created_by_label)
    ∷ ("updated_by", r.secret.updated_by)
    ∷ ("updated_by_label", r.secret.updated_by_label)
    ∷ ("created_at", codec.format r.secret.created_at)
    ∷ ("updated_at", codec.format r.secret.updated_at)
    ∷ []

-- HGET of a field that is missing reads as the empty text
abbrev pub text_or_empty : Option String → String
text_or_empty none = ""
text_or_empty (some t) = t

module _ {R : Type 0} (ops : CacheOps R) (codec : Codec) (c : Cache) where
  -- a path that the secret has left no longer leads to it
  abbrev pub forget_path : String → String → Action R (Unit {0})
  forget_path old new =
      if str_eq old "" || str_eq old new then return tt else ops.del (path_key c old ∷ [])

  abbrev pub keep_path : String → String → Action R (Unit {0})
  keep_path path id = if str_eq path "" then return tt else ops.set (path_key c path) id

  unfoldable pub upsert_secret : SecretCacheRecord → Action R (Unit {0})
  upsert_secret r = do
    old ← read (ops.hget (secret_key c r.secret.id) "path")
    forget_path (text_or_empty old) r.secret.path
    ops.hset (secret_key c r.secret.id) (secret_fields codec r)
    keep_path r.secret.path r.secret.id
    ops.sadd (ids_key c) r.secret.id

  abbrev pub keys_of : String → Option String → List String
  keys_of id path =
      if str_eq (text_or_empty path) ""
      then secret_key c id ∷ []
      else secret_key c id ∷ path_key c (text_or_empty path) ∷ []

  unfoldable pub delete_secret : String → Action R (Unit {0})
  delete_secret id = do
    path ← read (ops.hget (secret_key c id) "path")
    ops.del (keys_of id path)
    ops.srem (ids_key c) id

  abbrev pub delete_found : List String → Action R (Unit {0})
  delete_found keys = if is_empty keys then return tt else ops.del keys

  -- what runs once a step has succeeded
  abbrev pub after :
      Result (Unit {0}) × R → (R → Option (Result (Unit {0}) × R)) → Option (Result (Unit {0}) × R)
  after (err e, s) more = some (err e, s)
  after (ok _, s) more = more s

  unfoldable pub delete_path_keys : ℕ → ℕ → R → Option (Result (Unit {0}) × R)
  delete_path_keys zero cursor s = none
  delete_path_keys (suc fuel) cursor s = elim (ops.scan cursor (path_key c "*") 100 s) [
    | err e ↦ some (err e, s)
    | ok (keys, next) ↦ after (delete_found keys s) (λ s'.
        let rest = delete_path_keys fuel next s' in if next == 0 then some (ok tt, s') else rest)
  ]

  unfoldable pub upsert_secrets : List SecretCacheRecord → Action R (Unit {0})
  unfolding upsert_secret
  upsert_secrets [] = return tt
  upsert_secrets (r ∷ rs) = upsert_secret r >> upsert_secrets rs

  abbrev path_keys_gone :
      List SecretCacheRecord → Option (Result (Unit {0}) × R) → Option (Result (Unit {0}) × R)
  path_keys_gone records none = none
  path_keys_gone records (some out) = after out (λ s. some (upsert_secrets records s))

  unfoldable pub warm_secrets : ℕ → List SecretCacheRecord → R → Option (Result (Unit {0}) × R)
  unfolding delete_path_keys upsert_secrets
  warm_secrets fuel records s =
      after (ops.del (ids_key c ∷ []) s) (λ s'. path_keys_gone records (delete_path_keys fuel 0 s'))
