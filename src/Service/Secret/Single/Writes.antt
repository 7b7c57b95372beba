-- ===== src/Service/Secret/Single/Writes.antt =====
-- internal/service/secret_service.go, Create, Update and Delete: what a write of one secret rests on.
use env_vault.Base.{String, ◌≡◌, Result, refl, ◌⊎◌, inl, inr, arith, ok, err, Failure, Result-cases}
use env_vault.Auth.{UserInfo, Resource}
use env_vault.Service.Secret.{
  Ciphertext, Secret, SecretService, World, folder_scope, secret_scope, encrypt, cache_upsert,
  cache_delete,
}
use env_vault.Service.Secret.Single.{sealed, written, deleted, create, update, delete}

-- The writes to the cache change neither the result nor the database.
module _ {D C : Type 0} (s : SecretService D C) where
  -- The cache after a write of a secret: a secret that was written has its copy there.
  abbrev pub with_copy : Ciphertext → Result Secret → C → C
  with_copy c (ok secret) cached = cache_upsert s secret c cached
  with_copy c (err e) cached = cached

  abbrev pub without_copy : String → Result (Unit {0}) → C → C
  without_copy id (ok _) cached = cache_delete s id cached
  without_copy id (err e) cached = cached

  written-cached :
      (c : Ciphertext) (r : Result Secret) (w : World D C)
      → (written s c r w).1.cached ≡ with_copy c r w.cached
  written-cached c (ok secret) w = refl
  written-cached c (err e) w = refl

  deleted-cached :
      (id : String) (r : Result (Unit {0})) (w : World D C)
      → (deleted s id r w).1.cached ≡ without_copy id r w.cached
  deleted-cached id (ok _) w = refl
  deleted-cached id (err e) w = refl

  written-result : (c : Ciphertext) (r : Result Secret) (w : World D C) → (written s c r w).0 ≡ r
  written-result c (ok secret) w = refl
  written-result c (err e) w = refl

  written-db : (c : Ciphertext) (r : Result Secret) (w : World D C) → (written s c r w).1.db ≡ w.db
  written-db c (ok secret) w = refl
  written-db c (err e) w = refl

  deleted-result : (id : String) (r : Result (Unit {0})) (w : World D C) → (deleted s id r w).0 ≡ r
  deleted-result id (ok _) w = refl
  deleted-result id (err e) w = refl

  deleted-db :
      (id : String) (r : Result (Unit {0})) (w : World D C) → (deleted s id r w).1.db ≡ w.db
  deleted-db id (ok _) w = refl
  deleted-db id (err e) w = refl

module _ {D C : Type 0} (s : SecretService D C) (user : UserInfo) where
  -- The caller has the permission on the resource, and the value is encrypted.
  abbrev pub Sealed : String → Resource → String → D → Ciphertext → Type 0
  Sealed action resource value d c =
      (s.authorizer.allow user action resource d ≡ ok tt) × (encrypt s value ≡ ok c)

  -- An outcome is an error that leaves everything as it was.
  abbrev pub IsKept : {A : Type 0} → World D C → Result A × World D C → Type 0
  IsKept w out = (e : Failure) × (out ≡ (err e, w))

  sealed_cases :
      (action value : String) (resource : Resource) (d : D)
      → ((c : Ciphertext) × Sealed action resource value d c
          × (sealed s user action d resource value ≡ ok c))
        ⊎ ((e : Failure) × (sealed s user action d resource value ≡ err e))
  unfolding sealed
  sealed_cases action value resource d =
      elim (Result-cases (s.authorizer.allow user action resource d)) [
        | inr (e, refused) ↦ inr (e, ground arith)
        | inl (_, allowed) ↦ elim (Result-cases (encrypt s value)) [
          | inr (e, failed) ↦ inr (e, ground arith)
          | inl (c, encrypted) ↦ inl (c, (allowed, encrypted), ground arith)
        ]
      ]

  create_cases :
      (folder_id key value comment actor : String) (w : World D C)
      → IsKept w (create s user folder_id key value comment actor w)
        ⊎ ((c : Ciphertext) × Sealed "secret:create" (folder_scope folder_id) value w.db c
            × ((create s user folder_id key value comment actor w).0
                ≡ (s.repo.create_secret folder_id key comment actor c w.db).0)
            × ((create s user folder_id key value comment actor w).1.db
                ≡ (s.repo.create_secret folder_id key comment actor c w.db).1)
            × ((create s user folder_id key value comment actor w).1.cached
                ≡ with_copy s c
                    (s.repo.create_secret folder_id key comment actor c w.db).0
                    w.cached))
  unfolding create
  create_cases folder_id key value comment actor w =
      elim (sealed_cases "secret:create" value (folder_scope folder_id) w.db) [
        | inr (e, failed) ↦ inl (e, rw (create, failed) refl)
        | inl (c, may, passed) ↦
            let done = s.repo.create_secret folder_id key comment actor c w.db in
            let done' = record w { db = done.1 } in
            inr (
              c,
              may,
              rw (create, passed) (written-result s c done.0 done'),
              rw (create, passed) (written-db s c done.0 done'),
              rw (create, passed) (written-cached s c done.0 done'),
            )
      ]

  update_cases :
      (id key value comment actor : String) (w : World D C)
      → IsKept w (update s user id key value comment actor w)
        ⊎ ((c : Ciphertext) × Sealed "secret:update" (secret_scope id) value w.db c
            × ((update s user id key value comment actor w).0
                ≡ (s.repo.update_secret id key comment actor c w.db).0)
            × ((update s user id key value comment actor w).1.db
                ≡ (s.repo.update_secret id key comment actor c w.db).1)
            × ((update s user id key value comment actor w).1.cached
                ≡ with_copy s c (s.repo.update_secret id key comment actor c w.db).0 w.cached))
  unfolding update
  update_cases id key value comment actor w =
      elim (sealed_cases "secret:update" value (secret_scope id) w.db) [
        | inr (e, failed) ↦ inl (e, rw (update, failed) refl)
        | inl (c, may, passed) ↦
            let done = s.repo.update_secret id key comment actor c w.db in
            let done' = record w { db = done.1 } in
            inr (
              c,
              may,
              rw (update, passed) (written-result s c done.0 done'),
              rw (update, passed) (written-db s c done.0 done'),
              rw (update, passed) (written-cached s c done.0 done'),
            )
      ]

  delete_cases :
      (id actor : String) (w : World D C)
      → IsKept w (delete s user id actor w)
        ⊎ (s.authorizer.allow user "secret:delete" (secret_scope id) w.db ≡ ok tt)
          × ((delete s user id actor w).0 ≡ (s.repo.delete_secret id actor w.db).0)
          × ((delete s user id actor w).1.db ≡ (s.repo.delete_secret id actor w.db).1)
          × ((delete s user id actor w).1.cached
              ≡ without_copy s id (s.repo.delete_secret id actor w.db).0 w.cached)
  unfolding delete
  delete_cases id actor w =
      elim (Result-cases (s.authorizer.allow user "secret:delete" (secret_scope id) w.db)) [
        | inr (e, refused) ↦ inl (e, rw (delete, refused) refl)
        | inl (_, allowed) ↦
            let done = s.repo.delete_secret id actor w.db in
            let done' = record w { db = done.1 } in
            inr (
              allowed,
              rw (delete, allowed) (deleted-result s id done.0 done'),
              rw (delete, allowed) (deleted-db s id done.0 done'),
              rw (delete, allowed) (deleted-cached s id done.0 done'),
            )
      ]

-- Creating a secret in a folder, updating one and deleting one, whoever the caller is: each either is an
-- error that leaves the database and the cache as they were, or the authorizer has allowed that
-- operation on that folder or secret, the value is encrypted where there is one, and the result
-- and the database are exactly those of the repository's write with the ciphertext, and the cache is
-- changed only after a write that succeeded, by the copy of the written secret or its removal.
pub single_writes_cases :
    {D C : Type 0} (s : SecretService D C) (user : UserInfo)
    (folder_id id key value comment actor : String) (w : World D C)
    → (IsKept s user w (create s user folder_id key value comment actor w)
        ⊎ ((c : Ciphertext) × Sealed s user "secret:create" (folder_scope folder_id) value w.db c
            × ((create s user folder_id key value comment actor w).0
                ≡ (s.repo.create_secret folder_id key comment actor c w.db).0)
            × ((create s user folder_id key value comment actor w).1.db
                ≡ (s.repo.create_secret folder_id key comment actor c w.db).1)
            × ((create s user folder_id key value comment actor w).1.cached
                ≡ with_copy s c
                    (s.repo.create_secret folder_id key comment actor c w.db).0
                    w.cached)))
      × (IsKept s user w (update s user id key value comment actor w)
          ⊎ ((c : Ciphertext) × Sealed s user "secret:update" (secret_scope id) value w.db c
              × ((update s user id key value comment actor w).0
                  ≡ (s.repo.update_secret id key comment actor c w.db).0)
              × ((update s user id key value comment actor w).1.db
                  ≡ (s.repo.update_secret id key comment actor c w.db).1)
              × ((update s user id key value comment actor w).1.cached
                  ≡ with_copy s c (s.repo.update_secret id key comment actor c w.db).0 w.cached)))
      × (IsKept s user w (delete s user id actor w)
          ⊎ (s.authorizer.allow user "secret:delete" (secret_scope id) w.db ≡ ok tt)
            × ((delete s user id actor w).0 ≡ (s.repo.delete_secret id actor w.db).0)
            × ((delete s user id actor w).1.db ≡ (s.repo.delete_secret id actor w.db).1)
            × ((delete s user id actor w).1.cached
                ≡ without_copy s id (s.repo.delete_secret id actor w.db).0 w.cached))
single_writes_cases s user folder_id id key value comment actor w = (
  create_cases s user folder_id key value comment actor w,
  update_cases s user id key value comment actor w,
  delete_cases s user id actor w,
)
