-- ===== src/Service/Secret/FolderReveal/Audit.antt =====
-- internal/service/secret_service.go: the audit of what BatchRevealByPath shows, and what
-- BatchRevealByCode finds.
use env_vault.Base.{
  String, ◌≡◌, refl, false, not, all, filter, str_eq, ◌||◌, none, List, [], ◌∷◌, map, arith, inl,
  inr, ok, Result-cases, if◌then◌else◌,
}
use env_vault.Text.{is_blank}
use env_vault.Auth.{UserInfo, member}
use env_vault.Service.Secret.{keys_payload, Secret, SecretService, World}
use env_vault.Service.Secret.Paths.{FolderPath}
use env_vault.Service.Secret.Batch.{is_empty}
use env_vault.Service.Secret.FolderReveal.{
  keys_not_found, audit_batch, folder_secrets_by_path, batch_reveal_by_path, folder_secrets_by_code,
  batch_reveal_by_code,
}

-- The keys that an audit record names: those of the request, or those of the secrets.
abbrev pub audited_keys : List String → List Secret → List String
audited_keys keys secrets = if is_empty keys then map (λ y. y.key) secrets else keys

member-keys :
    (k : String) (secrets : List Secret)
    → member k (map (λ x. x.key) secrets) ≡ not (all (λ y. not (str_eq k y.key)) secrets)
member-keys k [] = refl
member-keys k (x ∷ xs) = ground (arith, member-keys k xs)

keys_not_found-filter :
    (keys : List String) (secrets : List Secret)
    → keys_not_found keys secrets ≡ filter (λ k. all (λ y. not (str_eq k y.key)) secrets) keys
unfolding keys_not_found
keys_not_found-filter [] secrets = refl
keys_not_found-filter (k ∷ ks) secrets =
    ground (arith, keys_not_found-filter ks secrets, member-keys k secrets)

-- When a reveal of a folder shows a secret, one audit record was written first, for the folder of the
-- first secret and with the keys of the request, or else of the secrets; it is all that the
-- call changes, and the keys that are reported missing are those of the request, in its order and
-- with its repetitions, that differ from the key of every shown secret.
pub batch_reveal_audited :
    {D C : Type 0} (s : SecretService D C) (user : UserInfo) (path actor : String)
    (keys missing : List String) (x : Secret) (xs : List Secret) (w : World D C)
    → (batch_reveal_by_path s user path keys actor w).0 ≡ ok (x ∷ xs, missing)
    → ((s.repo.record_audit actor "folder" x.folder_id "reveal_batch"
          (keys_payload (audited_keys keys (x ∷ xs)))
          w.db).0
        ≡ ok tt)
      × ((batch_reveal_by_path s user path keys actor w).1 ≡ record w {
        db =
            (s.repo.record_audit actor "folder" x.folder_id "reveal_batch"
              (keys_payload (audited_keys keys (x ∷ xs)))
              w.db).1;
      })
      × (missing ≡ filter (λ k. all (λ y. not (str_eq k y.key)) (x ∷ xs)) keys)
unfolding batch_reveal_by_path audit_batch
batch_reveal_audited s user path actor keys missing x xs w h =
    elim (Result-cases (folder_secrets_by_path s user path keys w.db)) [
      | inr (e, failed) ↦ absurd (ground arith)
      | inl ([], opened) ↦ absurd (ground arith)
      | inl (y ∷ ys, opened) ↦
          elim (Result-cases
            (s.repo.record_audit actor "folder" y.folder_id "reveal_batch"
              (keys_payload (audited_keys keys (y ∷ ys))) w.db).0) [
                | inr (e, failed) ↦ absurd (ground arith)
                | inl (_, recorded) ↦
                    let first : y ≡ x = ground arith in
                    let others : ys ≡ xs = ground arith in
                    let left : keys_not_found keys (y ∷ ys) ≡ missing = ground arith in
                    rw (← first, ← others, ← left)
                      (
                        recorded,
                        rw (batch_reveal_by_path, opened, audit_batch, recorded) refl,
                        keys_not_found-filter keys (y ∷ ys),
                      )
              ]
    ]

-- A reveal of a folder by its codes shows nothing and writes no audit record, whatever the folder
-- holds, when the query finds nothing for a NULL list of keys; for a caller with an id and four
-- codes that are not blank.
by_code_reveals_nothing :
    {D C : Type 0} (s : SecretService D C) (user : UserInfo) (p : FolderPath) (actor : String)
    (w : World D C)
    → ((o q e f : String) (d : D)
        → s.repo.batch_reveal_secrets_by_path user.user_id "secret:reveal" o q e f none d ≡ ok [])
    → is_blank user.user_id ≡ false
    → (is_blank p.org_code
        || is_blank p.project_code
        || is_blank p.env_code
        || is_blank p.folder_code)
      ≡ false
    → batch_reveal_by_code s user p actor w ≡ (ok [], w)
unfolding batch_reveal_by_code folder_secrets_by_code audit_batch
by_code_reveals_nothing s user p actor w null named given =
    ground (arith, null p.org_code p.project_code p.env_code p.folder_code w.db)
