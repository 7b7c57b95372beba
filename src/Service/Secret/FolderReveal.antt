-- ===== src/Service/Secret/FolderReveal.antt =====
-- internal/service/secret_service.go: BatchRevealByPath and BatchRevealByCode, all the secrets of a
-- folder at once.
pub mod Audit
use env_vault.Base.{
  String, Bool, true, false, not, ◌||◌, Option, none, some, List, [], ◌∷◌, map, Result, ok, err,
  Failure, failure, permission_denied, require, Action, ◌>>=◌, ◌>>◌, if◌then◌else◌,
}
use env_vault.Text.{is_blank}
use env_vault.Auth.{UserInfo, member}
use env_vault.Service.Secret.{
  keys_payload, Ciphertext, Secret, RawCiphertext, no_bytes, undecodable, encoded, SecretService,
  World, decrypt,
}
use env_vault.Service.Secret.Paths.{FolderPath, parse_folder_path}
use env_vault.Service.Secret.Batch.{is_empty, collect}

abbrev pub decode : RawCiphertext → Result Ciphertext
decode (encoded c) = ok c
decode no_bytes = err (failure "decode secret ciphertext")
decode undecodable = err (failure "decode secret ciphertext")

-- the requested keys that none of the secrets has, in the order of the request
unfoldable pub keys_not_found : List String → List Secret → List String
keys_not_found [] hits = []
keys_not_found (k ∷ ks) hits =
    let rest = keys_not_found ks hits in if member k (map (λ x. x.key) hits) then rest else k ∷ rest

module _ {D C : Type 0} (s : SecretService D C) where
  unfoldable pub open_secret : Secret × RawCiphertext → Result Secret
  open_secret (secret, raw) = do
    ciphertext ← decode raw
    plaintext ← decrypt s ciphertext
    ok (record secret { value = plaintext })

  -- one audit record for all that is shown, and none where nothing is
  unfoldable pub audit_batch : String → List String → List Secret → Action (World D C) (Unit {0})
  audit_batch actor keys [] w = (ok tt, w)
  audit_batch actor keys (x ∷ xs) w =
      let audited = if is_empty keys then map (λ y. y.key) (x ∷ xs) else keys in
      let (r, d) =
        s.repo.record_audit actor "folder" x.folder_id "reveal_batch" (keys_payload audited) w.db in
      (r, record w { db = d })

  abbrev pub shown_after : {A : Type 0} → A → Result (Unit {0}) × World D C → Result A × World D C
  shown_after a (ok _, w) = (ok a, w)
  shown_after a (err e, w) = (err e, w)

  unfoldable pub folder_secrets_by_path : UserInfo → String → List String → D → Result (List Secret)
  unfolding open_secret
  folder_secrets_by_path user path keys d = do
    require (not (is_blank user.user_id)) permission_denied
    p ← parse_folder_path path
    rows ←
        s.repo.batch_reveal_secrets_by_path user.user_id "secret:reveal" p.org_code p.project_code
          p.env_code p.folder_code (some keys) d
    collect open_secret rows

  unfoldable pub batch_reveal_by_path :
      UserInfo → String → List String → String → Action (World D C) (List Secret × List String)
  unfolding keys_not_found
  batch_reveal_by_path user path keys actor w = elim (folder_secrets_by_path user path keys w.db) [
    | err e ↦ (err e, w)
    | ok secrets ↦
        shown_after (secrets, keys_not_found keys secrets) (audit_batch actor keys secrets w)
  ]

  -- the keys are a nil slice
  unfoldable pub folder_secrets_by_code : UserInfo → FolderPath → D → Result (List Secret)
  unfolding open_secret
  folder_secrets_by_code user p d = do
    require (not (is_blank user.user_id)) permission_denied
    require
        (not (
          is_blank p.org_code
          || is_blank p.project_code
          || is_blank p.env_code
          || is_blank p.folder_code))
        (failure "orgCode, projectCode, environmentCode, folderCode are all required")
    rows ←
        s.repo.batch_reveal_secrets_by_path user.user_id "secret:reveal" p.org_code p.project_code
          p.env_code p.folder_code none d
    collect open_secret rows

  unfoldable pub batch_reveal_by_code :
      UserInfo → FolderPath → String → Action (World D C) (List Secret)
  batch_reveal_by_code user p actor w = elim (folder_secrets_by_code user p w.db) [
    | err e ↦ (err e, w)
    | ok secrets ↦ shown_after secrets (audit_batch actor [] secrets w)
  ]
