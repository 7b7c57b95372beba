-- ===== src/Service/Secret/Single.antt =====
-- internal/service/secret_service.go: creating, updating, deleting, reading and revealing one
-- secret, by its id or by its path.
pub mod Laws
pub mod Writes
use env_vault.Base.{String, Bool, Option, none, some, Result, ok, err, Failure, Action, ◌>>=◌, ◌>>◌}
use env_vault.Auth.{UserInfo, Resource}
use env_vault.Service.Secret.{
  no_payload, Ciphertext, Secret, SecretService, World, folder_scope, secret_scope, encrypt,
  decrypt, cache_upsert, cache_delete,
}
use env_vault.Service.Secret.Paths.{SecretPath, parse_secret_path}

module _ {D C : Type 0} (s : SecretService D C) where
  -- permission and encryption, in front of a write
  unfoldable pub sealed : UserInfo → String → D → Resource → String → Result Ciphertext
  sealed user action d resource value = s.authorizer.allow user action resource d >> encrypt s value

  -- after the write: a secret that was written goes to the cache
  abbrev pub written : Ciphertext → Result Secret → World D C → Result Secret × World D C
  written ciphertext (err e) w = (err e, w)
  written ciphertext (ok secret) w =
      (ok secret, record w { cached = cache_upsert s secret ciphertext w.cached })

  unfoldable pub create :
      UserInfo → String → String → String → String → String → Action (World D C) Secret
  unfolding sealed
  create user folder_id key value comment actor w =
      elim (sealed user "secret:create" w.db (folder_scope folder_id) value) [
        | err e ↦ (err e, w)
        | ok ciphertext ↦
            (let (r, d) = s.repo.create_secret folder_id key comment actor ciphertext w.db in
              written ciphertext r (record w { db = d }))
      ]

  unfoldable pub update :
      UserInfo → String → String → String → String → String → Action (World D C) Secret
  unfolding sealed
  update user id key value comment actor w =
      elim (sealed user "secret:update" w.db (secret_scope id) value) [
        | err e ↦ (err e, w)
        | ok ciphertext ↦
            (let (r, d) = s.repo.update_secret id key comment actor ciphertext w.db in
              written ciphertext r (record w { db = d }))
      ]

  abbrev pub deleted : String → Result (Unit {0}) → World D C → Result (Unit {0}) × World D C
  deleted id (err e) w = (err e, w)
  deleted id (ok _) w = (ok tt, record w { cached = cache_delete s id w.cached })

  unfoldable pub delete : UserInfo → String → String → Action (World D C) (Unit {0})
  delete user id actor w = elim (s.authorizer.allow user "secret:delete" (secret_scope id) w.db) [
    | err e ↦ (err e, w)
    | ok _ ↦ (let (r, d) = s.repo.delete_secret id actor w.db in deleted id r (record w { db = d }))
  ]

  unfoldable pub get : UserInfo → String → D → Result Secret
  get user id d =
      s.authorizer.allow user "secret:read" (secret_scope id) d >> s.repo.get_secret id d

  -- the secret with its plaintext, before the audit record
  unfoldable pub opened : UserInfo → String → D → Result Secret
  unfolding decrypt
  opened user id d = do
    s.authorizer.allow user "secret:reveal" (secret_scope id) d
    (secret, ciphertext) ← s.repo.get_secret_ciphertext id d
    plaintext ← decrypt s ciphertext
    ok (record secret { value = plaintext })

  abbrev pub audited : Secret → Result (Unit {0}) → World D C → Result Secret × World D C
  audited secret (err e) w = (err e, w)
  audited secret (ok _) w = (ok secret, w)

  -- nothing is shown that was not recorded
  unfoldable pub reveal : UserInfo → String → String → Action (World D C) Secret
  reveal user id actor w = elim (opened user id w.db) [
    | err e ↦ (err e, w)
    | ok secret ↦
        (let (r, d) = s.repo.record_audit actor "secret" secret.id "reveal" no_payload w.db in
          audited secret r (record w { db = d }))
  ]

  -- the secret at a path, for a caller with a permission on it
  unfoldable pub at_path : String → UserInfo → String → D → Result Secret
  at_path action user path d = do
    p ← parse_secret_path path
    secret ← s.repo.get_secret_by_path p.org_code p.project_code p.env_code p.folder_code p.key d
    s.authorizer.allow user action (secret_scope secret.id) d
    ok secret

  unfoldable pub get_by_path : UserInfo → String → D → Result Secret
  unfolding at_path
  get_by_path = at_path "secret:read"

  unfoldable pub reveal_by_path : UserInfo → String → String → Action (World D C) Secret
  reveal_by_path user path actor w = elim (at_path "secret:reveal" user path w.db) [
    | err e ↦ (err e, w)
    | ok secret ↦ reveal user secret.id actor w
  ]
