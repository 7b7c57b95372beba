-- ===== src/Service/Secret/Search/Values.antt =====
-- internal/service/secret_service.go, fillValuesPerSecret and revealIfPermitted: whose values a
-- search shows.
use env_vault.Base.{
  String, ◌≡◌, refl, ◌⊎◌, inl, inr, not, ◌||◌, List, [], ◌∷◌, All, Result, ok, err,
  permission_denied, Result-cases, Bool-cases, arith, str_eq,
}
use env_vault.Domain.Pagination.{PaginatedResult}
use env_vault.Auth.{UserInfo}
use env_vault.Service.Secret.{
  Secret, RawCiphertext, no_bytes, undecodable, encoded, SecretCacheRecord, SecretService,
  secret_scope,
}
use env_vault.Service.Secret.Batch.{collect}
use env_vault.Service.Secret.Search.{
  permitted, reveal_if_permitted, fill_value, fill_values_per_secret,
}

module _ {D C : Type 0} (s : SecretService D C) (user : UserInfo) (d : D) where
  -- A value of a secret is shown: it is empty, or the caller may reveal the secret.
  abbrev pub MayShow : String → String → Type 0
  MayShow id value =
      (value ≡ "") ⊎ (s.authorizer.allow user "secret:reveal" (secret_scope id) d ≡ ok tt)

  abbrev pub ShowsPermitted : Secret → Type 0
  ShowsPermitted x = All (λ v. MayShow x.id v.1) x.values

  permitted-MayShow :
      (answer : Result (Unit {0})) (raw : RawCiphertext) (value : String)
      → permitted s answer raw ≡ ok value
      → (value ≡ "") ⊎ (answer ≡ ok tt)
  permitted-MayShow (ok _) raw value h = inr refl
  permitted-MayShow (err permission_denied) raw value h = inl (ground arith)
  permitted-MayShow (err e) raw value h = absurd (ground arith)

  revealed-MayShow :
      (id : String) (raw : RawCiphertext) (value : String)
      → reveal_if_permitted s user id raw d ≡ ok value
      → MayShow id value
  unfolding reveal_if_permitted
  revealed-MayShow id no_bytes value h = inl (ground arith)
  revealed-MayShow id undecodable value h = permitted-MayShow _ undecodable value h
  revealed-MayShow id (encoded c) value h = permitted-MayShow _ (encoded c) value h

  filled-ShowsPermitted :
      (r : SecretCacheRecord) (x : Secret)
      → r.secret.values ≡ []
      → fill_value s user d r ≡ ok x
      → ShowsPermitted x
  unfolding fill_value
  filled-ShowsPermitted r x bare h =
      elim (Result-cases (reveal_if_permitted s user r.secret.id r.value_ciphertext d)) [
        | inr (e, failed) ↦ absurd (ground arith)
        | inl (value, shown) ↦
            elim (Bool-cases (not (str_eq value "") || not (str_eq r.secret.environment_code ""))) [
              | inl filled ↦
                  let same : record r.secret { values = (r.secret.environment_code, value) ∷ [] }
                      ≡ x =
                    ground arith in
                  rw (← same) (revealed-MayShow r.secret.id r.value_ciphertext value shown, tt)
              | inr left ↦ let same : r.secret ≡ x = ground arith in rw (← same, bare) tt
            ]
      ]

  collected-ShowsPermitted :
      (rs : List SecretCacheRecord) (xs : List Secret)
      → All (λ r. r.secret.values ≡ []) rs
      → collect (fill_value s user d) rs ≡ ok xs
      → All ShowsPermitted xs
  collected-ShowsPermitted [] xs bare h = let same : [] ≡ xs = ground arith in rw (← same) tt
  collected-ShowsPermitted (r ∷ rs) xs (bare, more) h =
      elim (Result-cases (fill_value s user d r)) [
        | inr (e, failed) ↦ absurd (ground arith)
        | inl (x, filled) ↦ elim (Result-cases (collect (fill_value s user d) rs)) [
          | inr (e, failed) ↦ absurd (ground arith)
          | inl (xs', rest) ↦
              let same : x ∷ xs' ≡ xs = ground arith in
              rw (← same)
                (filled-ShowsPermitted r x bare filled, collected-ShowsPermitted rs xs' more rest)
        ]
      ]

-- Every value that a search of an environment or a folder shows is empty or belongs to a secret
-- that the caller may reveal, as long as the repository's records come without values.
pub shown_values_permitted :
    {D C : Type 0} (s : SecretService D C) (user : UserInfo) (d : D)
    (records : PaginatedResult SecretCacheRecord) (shown : PaginatedResult Secret)
    → All (λ r. r.secret.values ≡ []) records.items
    → fill_values_per_secret s user records d ≡ ok shown
    → All (ShowsPermitted s user d) shown.items
unfolding fill_values_per_secret
shown_values_permitted s user d records shown bare h =
    elim (Result-cases (collect (fill_value s user d) records.items)) [
      | inr (e, failed) ↦ absurd (ground arith)
      | inl (xs, filled) ↦
          let same : xs ≡ shown.items = ground arith in
          rw (← same) (collected-ShowsPermitted s user d records.items xs bare filled)
    ]
