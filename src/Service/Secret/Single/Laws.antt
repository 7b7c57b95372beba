-- ===== src/Service/Secret/Single/Laws.antt =====
-- internal/service/secret_service.go: what a plaintext that is shown rests on, and that a value that was written is the one that is revealed.
use env_vault.Base.{
  String, ◌≡◌, refl, sym, ap, ◌∙◌, ◌⊎◌, inl, inr, arith, ok, err, Failure, Result-cases,
}
use env_vault.Auth.{UserInfo}
use env_vault.Service.Secret.{
  no_payload, Ciphertext, Secret, SecretService, World, folder_scope, secret_scope, encrypt,
  decrypt,
}
use env_vault.Service.Secret.Paths.{SecretPath, parse_secret_path}
use env_vault.Service.Secret.Single.{sealed, create, opened, reveal, at_path, reveal_by_path}

module _ {D C : Type 0} (s : SecretService D C) where
  -- Everything that a revealed secret rests on.
  pub record Revealed (user : UserInfo) (id actor : String) (w w' : World D C) (secret : Secret)
      : Type 0 where
    pub allowed : s.authorizer.allow user "secret:reveal" (secret_scope id) w.db ≡ ok tt
    pub stored : Secret
    pub ciphertext : Ciphertext
    pub found : s.repo.get_secret_ciphertext id w.db ≡ ok (stored, ciphertext)
    pub decrypts : decrypt s ciphertext ≡ ok secret.value
    pub shown : secret ≡ record stored { value = secret.value }
    pub recorded : (s.repo.record_audit actor "secret" stored.id "reveal" no_payload w.db).0 ≡ ok tt
    pub left : w' ≡ record w {
      db = (s.repo.record_audit actor "secret" stored.id "reveal" no_payload w.db).1;
    }

  pub record Opened (user : UserInfo) (id : String) (d : D) (secret : Secret) : Type 0 where
    pub allowed : s.authorizer.allow user "secret:reveal" (secret_scope id) d ≡ ok tt
    pub stored : Secret
    pub ciphertext : Ciphertext
    pub found : s.repo.get_secret_ciphertext id d ≡ ok (stored, ciphertext)
    pub plaintext : String
    pub decrypts : decrypt s ciphertext ≡ ok plaintext
    pub shown : record stored { value = plaintext } ≡ secret

  opened-ok :
      (user : UserInfo) (id : String) (d : D) (secret : Secret)
      → opened s user id d ≡ ok secret
      → Opened user id d secret
  unfolding opened
  opened-ok user id d secret h = elim (Result-cases (s.repo.get_secret_ciphertext id d)) [
    | inr (e, failed) ↦ absurd (ground arith)
    | inl ((stored, ciphertext), found) ↦ elim (Result-cases (decrypt s ciphertext)) [
      | inr (e, failed) ↦ absurd (ground arith)
      | inl (plaintext, decrypts) ↦ record {
        allowed = ground arith;
        stored = stored;
        ciphertext = ciphertext;
        found = found;
        plaintext = plaintext;
        decrypts = decrypts;
        shown = ground arith;
      }
    ]
  ]

  Revealed-of_Opened :
      (user : UserInfo) (id actor : String) (w : World D C) (secret : Secret)
      → Opened user id w.db secret
      → (s.repo.record_audit actor "secret" secret.id "reveal" no_payload w.db).0 ≡ ok tt
      → Revealed user id actor w
          (record w {
            db = (s.repo.record_audit actor "secret" secret.id "reveal" no_payload w.db).1;
          })
          secret
  Revealed-of_Opened user id actor w secret o recorded =
      let plain : o.plaintext ≡ secret.value = ap (λ x. x.value) o.shown in
      let named : o.stored.id ≡ secret.id = ap (λ x. x.id) o.shown in
      record {
        allowed = o.allowed;
        stored = o.stored;
        ciphertext = o.ciphertext;
        found = o.found;
        decrypts = o.decrypts ∙ ap ok plain;
        shown = sym o.shown ∙ ap (λ v. record o.stored { value = v }) plain;
        recorded = rw named recorded;
        left = rw named refl;
      }

-- A plaintext is shown only to a caller whom the authorizer allows `secret:reveal` on that secret;
-- it is what the stored ciphertext decrypts to, the audit record of the reveal was written first,
-- and that record is all that the call changes.
pub reveal_sound :
    {D C : Type 0} (s : SecretService D C) (user : UserInfo) (id actor : String) (w : World D C)
    (secret : Secret)
    → (reveal s user id actor w).0 ≡ ok secret
    → Revealed s user id actor w (reveal s user id actor w).1 secret
unfolding reveal
reveal_sound s user id actor w secret h = elim (Result-cases (opened s user id w.db)) [
  | inr (e, failed) ↦ absurd (ground arith)
  | inl (secret', shown) ↦
      elim (Result-cases
        (s.repo.record_audit actor "secret" secret'.id "reveal" no_payload w.db).0) [
          | inr (e, failed) ↦ absurd (ground arith)
          | inl (_, recorded) ↦
              let same : secret' ≡ secret = ground arith in
              rw (reveal, shown, recorded)
                (rw (← same) (
                  Revealed-of_Opened s user id actor w secret'
                    (opened-ok s user id w.db secret' shown) recorded))
        ]
]

-- By its path, a secret's plaintext is what a reveal by its id shows, to a caller whom the
-- authorizer allows `secret:reveal` on it; a path that does not parse, has no secret or is refused
-- is an error that writes no audit record.
reveal_by_path_cases :
    {D C : Type 0} (s : SecretService D C) (user : UserInfo) (path actor : String) (w : World D C)
    → ((p : SecretPath) × ((secret : Secret) × (parse_secret_path path ≡ ok p)
          × (s.repo.get_secret_by_path p.org_code p.project_code p.env_code p.folder_code p.key w.db
              ≡ ok secret)
          × (s.authorizer.allow user "secret:reveal" (secret_scope secret.id) w.db ≡ ok tt)
          × (reveal_by_path s user path actor w ≡ reveal s user secret.id actor w)))
      ⊎ ((e : Failure) × (reveal_by_path s user path actor w ≡ (err e, w)))
unfolding reveal_by_path at_path
reveal_by_path_cases s user path actor w = elim (Result-cases (parse_secret_path path)) [
  | inr (e, failed) ↦ inr (e, ground arith)
  | inl (p, parsed) ↦
      elim (Result-cases
        (s.repo.get_secret_by_path p.org_code p.project_code p.env_code p.folder_code p.key w.db)) [
          | inr (e, failed) ↦ inr (e, ground arith)
          | inl (secret, found) ↦
              elim (Result-cases
                (s.authorizer.allow user "secret:reveal" (secret_scope secret.id) w.db)) [
                  | inr (e, failed) ↦ inr (e, ground arith)
                  | inl (_, allowed) ↦ inl (
                    p,
                    (
                      secret,
                      parsed,
                      found,
                      allowed,
                      rw (reveal_by_path, at_path, parsed, found, allowed) refl,
                    ),
                  )
                ]
        ]
]

created-ok :
    {D C : Type 0} (s : SecretService D C) (user : UserInfo)
    (folder_id key value comment actor : String) (w : World D C) (secret : Secret)
    → (create s user folder_id key value comment actor w).0 ≡ ok secret
    → (c : Ciphertext) × (encrypt s value ≡ ok c)
      × ((s.repo.create_secret folder_id key comment actor c w.db).0 ≡ ok secret)
      × ((create s user folder_id key value comment actor w).1.db
          ≡ (s.repo.create_secret folder_id key comment actor c w.db).1)
unfolding create sealed
created-ok s user folder_id key value comment actor w secret h =
    elim (Result-cases (s.authorizer.allow user "secret:create" (folder_scope folder_id) w.db)) [
      | inr (e, failed) ↦ absurd (ground arith)
      | inl (_, allowed) ↦ elim (Result-cases (encrypt s value)) [
        | inr (e, failed) ↦ absurd (ground arith)
        | inl (c, encrypted) ↦
            elim (Result-cases (s.repo.create_secret folder_id key comment actor c w.db).0) [
              | inr (e, failed) ↦ absurd (ground arith)
              | inl (made, wrote) ↦ (c, encrypted, ground arith, ground arith)
            ]
      ]
    ]

-- A value that was created is the one that is revealed: when the encryptor decrypts what it
-- encrypts, the repository gives the ciphertext of the secret that it created, and the caller may
-- reveal it and the audit record is written.
pub reveal-create :
    {D C : Type 0} (s : SecretService D C) (user : UserInfo)
    (folder_id key value comment actor : String) (w : World D C) (secret : Secret)
    → ((v : String) (c : Ciphertext) → encrypt s v ≡ ok c → decrypt s c ≡ ok v)
    → ((f k m a : String) (c : Ciphertext) (d : D) (made : Secret)
        → (s.repo.create_secret f k m a c d).0 ≡ ok made
        → s.repo.get_secret_ciphertext made.id (s.repo.create_secret f k m a c d).1 ≡ ok (made, c))
    → (create s user folder_id key value comment actor w).0 ≡ ok secret
    → s.authorizer.allow user "secret:reveal"
        (secret_scope secret.id)
        (create s user folder_id key value comment actor w).1.db
      ≡ ok tt
    → (s.repo.record_audit actor "secret" secret.id "reveal" no_payload
        (create s user folder_id key value comment actor w).1.db).0
      ≡ ok tt
    → (reveal s user secret.id actor (create s user folder_id key value comment actor w).1).0
      ≡ ok (record secret { value = value })
unfolding reveal opened
reveal-create s user folder_id key value comment actor w secret decrypts stored created allowed
      recorded =
    let (c, encrypted, made, left) =
      created-ok s user folder_id key value comment actor w secret created in
    let d = (create s user folder_id key value comment actor w).1.db in
    let found : s.repo.get_secret_ciphertext secret.id d ≡ ok (secret, c) =
      rw left (stored _ _ _ _ c w.db secret made) in
    ground (arith, found, allowed, recorded, decrypts value c encrypted)
