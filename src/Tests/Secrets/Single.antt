-- ===== src/Tests/Secrets/Single.antt =====
-- internal/service/secret_service.go at concrete inputs: one secret.
use env_vault.Base.{String, ◌≡◌, ◌⊎◌, refl, arith, ok}
use env_vault.Service.Secret.{Ciphertext, Secret, encrypt, decrypt, folder_scope, secret_scope}
use env_vault.Service.Secret.Single.{sealed, create, update, delete, opened, reveal}
use env_vault.Service.Secret.Single.Laws.{Revealed, reveal_sound, reveal-create}
use env_vault.Service.Secret.Single.Writes.{
  IsKept, Sealed, with_copy, without_copy, single_writes_cases,
}
use env_vault.Tests.{alice, open_door}
use env_vault.Tests.Secrets.{a_secret, rows, service, vault}

revealed :
    (reveal (service open_door) alice "s1" "alice" vault).0
    ≡ ok (record a_secret { value = "hidden" })
unfolding reveal opened decrypt
revealed = refl

reveal_sound_example :
    Revealed
      (service open_door)
      alice
      "s1"
      "alice"
      vault
      (reveal (service open_door) alice "s1" "alice" vault).1
      (record a_secret { value = "hidden" })
reveal_sound_example =
    reveal_sound (service open_door) alice "s1" "alice" vault (record a_secret { value = "hidden" })
      revealed

single_writes_cases_example :
    let svc = service open_door in
    (IsKept svc alice vault (create svc alice "f1" "URL" "v" "" "alice" vault)
      ⊎ ((c : Ciphertext) × Sealed svc alice "secret:create" (folder_scope "f1") "v" vault.db c
          × ((create svc alice "f1" "URL" "v" "" "alice" vault).0
              ≡ (rows.create_secret "f1" "URL" "" "alice" c vault.db).0)
          × ((create svc alice "f1" "URL" "v" "" "alice" vault).1.db
              ≡ (rows.create_secret "f1" "URL" "" "alice" c vault.db).1)
          × ((create svc alice "f1" "URL" "v" "" "alice" vault).1.cached
              ≡ with_copy svc c
                  (rows.create_secret "f1" "URL" "" "alice" c vault.db).0
                  vault.cached)))
    × (IsKept svc alice vault (update svc alice "s1" "URL" "v" "" "alice" vault)
        ⊎ ((c : Ciphertext) × Sealed svc alice "secret:update" (secret_scope "s1") "v" vault.db c
            × ((update svc alice "s1" "URL" "v" "" "alice" vault).0
                ≡ (rows.update_secret "s1" "URL" "" "alice" c vault.db).0)
            × ((update svc alice "s1" "URL" "v" "" "alice" vault).1.db
                ≡ (rows.update_secret "s1" "URL" "" "alice" c vault.db).1)
            × ((update svc alice "s1" "URL" "v" "" "alice" vault).1.cached
                ≡ with_copy svc c
                    (rows.update_secret "s1" "URL" "" "alice" c vault.db).0
                    vault.cached)))
    × (IsKept svc alice vault (delete svc alice "s1" "alice" vault)
        ⊎ (open_door.allow alice "secret:delete" (secret_scope "s1") vault.db ≡ ok tt)
          × ((delete svc alice "s1" "alice" vault).0 ≡ (rows.delete_secret "s1" "alice" vault.db).0)
          × ((delete svc alice "s1" "alice" vault).1.db
              ≡ (rows.delete_secret "s1" "alice" vault.db).1)
          × ((delete svc alice "s1" "alice" vault).1.cached
              ≡ without_copy svc "s1" (rows.delete_secret "s1" "alice" vault.db).0 vault.cached))
single_writes_cases_example =
    single_writes_cases (service open_door) alice "f1" "s1" "URL" "v" "" "alice" vault

decrypts :
    (v : String) (c : Ciphertext)
    → encrypt (service open_door) v ≡ ok c
    → decrypt (service open_door) c ≡ ok v
unfolding encrypt decrypt
decrypts v c h = ground arith

stored :
    (f k m a : String) (c d : Ciphertext) (made : Secret)
    → (rows.create_secret f k m a c d).0 ≡ ok made
    → rows.get_secret_ciphertext made.id (rows.create_secret f k m a c d).1 ≡ ok (made, c)
stored f k m a c d made h = let same : a_secret ≡ made = ground arith in rw (← same) refl

created : (create (service open_door) alice "f1" "URL" "https://x" "" "alice" vault).0 ≡ ok a_secret
unfolding create sealed encrypt
created = refl

reveal-create_example :
    (reveal
      (service open_door)
      alice
      "s1"
      "alice"
      (create (service open_door) alice "f1" "URL" "https://x" "" "alice" vault).1).0
    ≡ ok (record a_secret { value = "https://x" })
reveal-create_example =
    reveal-create (service open_door) alice "f1" "URL" "https://x" "" "alice" vault a_secret
      decrypts stored created refl refl
