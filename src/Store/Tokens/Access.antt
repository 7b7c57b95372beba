-- ===== src/Store/Tokens/Access.antt =====
-- internal/service/pat_service.go, internal/store/postgres/pat.go and internal/auth/pat.go together:
-- from the creation of an access token to the requests that carry it.
use Prim.Native.String
use text.Mathlib.TextLemmas.{append_assoc}
use env_vault.Base.{
  ℕ, zero, suc, String, ◌≡◌, ◌≢◌, refl, sym, ap, ◌∙◌, inl, inr, true, Option, none, some, ◌||◌,
  arith, eq_iff, Result, ok, err, not_found, invalid_pat, Result-cases, Bool-cases, str_eq,
  if◌then◌else◌,
}
use env_vault.Domain.{Time}
use env_vault.Text.{trim_space}
use env_vault.Text.Affix.{strip_prefix-append, trim_prefix-append}
use env_vault.Auth.Bearer.{bearer, pat_prefix, is_pat, extract_pat}
use env_vault.Auth.TokensCache.{TokensCache}
use env_vault.Auth.Middleware.{
  abort, accept, JwtConfig, PatConfig, pat_claims, pat_outcome, pat_middleware, combined_auth,
}
use env_vault.Service.AccessTokens.{
  AccessToken, token_of, create_pat, create_checks, with_plain, delete_pat, display_prefix,
}
use env_vault.Store.Tokens.{
  TokenRow, TokenSql, TokenTable, inserted_token, affected, create_token, soft_delete_token,
  validate_pat, is_expired, pat_store,
}

-- The header of a request that carries a token.
abbrev pub header_of : String → String
header_of plain = String.◌++◌ bearer plain

header_of-token :
    (random : String) → header_of (token_of random) ≡ String.◌++◌ "Bearer envvault-" random
header_of-token random = sym (append_assoc bearer pat_prefix random)

header_of-is_pat : (random : String) → is_pat (header_of (token_of random)) ≡ true
unfolding is_pat
header_of-is_pat random =
    rw (header_of-token random) (rw (strip_prefix-append "Bearer envvault-" random) refl)

extract_pat-header_of : (plain : String) → extract_pat (header_of plain) ≡ plain
unfolding extract_pat
extract_pat-header_of plain = trim_prefix-append bearer plain

-- What the middleware makes of a request with a token: the answer of the lookup of its hash.
carried_token :
    (cfg : PatConfig) (validate : String → Result String) (jwt_cfg : JwtConfig)
    (answer : Result Time) (cache : Option TokensCache) (plain random : String)
    → plain ≡ token_of random
    → cfg.validate_pat ≡ some validate
    → (combined_auth cfg jwt_cfg answer (header_of plain) cache).0
      ≡ pat_outcome cfg (validate (cfg.hash_pat plain))
unfolding combined_auth pat_middleware
carried_token cfg validate jwt_cfg answer cache plain random made set =
    rw (made, header_of-is_pat random, extract_pat-header_of (token_of random), set) refl

-- The middleware over this store, as internal/app wires it.
abbrev pub pat_config_at :
    {S : Type 0} → TokenSql S → Time → (String → String) → (String → String) → S → PatConfig
pat_config_at sql now hash user_name s = record {
  validate_pat = some (λ h. (validate_pat sql now h s).0);
  hash_pat = hash;
  user_name = user_name;
}

module _ {S : Type 0} (sql : TokenSql S) (table : TokenTable sql) where
  validate_pat-row :
      (now : Time) (id : String) (r : TokenRow) (s : S) (a : Option (String × Option Time))
      → table.row id s ≡ some r
      → sql.select_by_hash r.token_hash s ≡ ok a
      → (validate_pat sql now r.token_hash s).0
        ≡ (if is_expired now r.expires_at then err not_found else ok r.user_id)
  unfolding validate_pat
  validate_pat-row now id r s a live read =
      rw (read, table.selected id r s a live read)
        (elim (Bool-cases (is_expired now r.expires_at)) [
          | inl expired ↦ rw expired refl
          | inr current ↦ rw current refl
        ])

affected-ok :
    {S : Type 0} (r : Result ℕ × S) {s' : S}
    → affected r ≡ (ok tt, s')
    → (n : ℕ) × (n ≢ 0) × (r.0 ≡ ok n) × (r.1 ≡ s')
affected-ok (ok (suc n), s) h = (suc n, omega arith, refl, ap (λ p. p.1) h)
affected-ok (ok zero, s) h = absurd (ground (arith, ap (λ p. p.0) h))
affected-ok (err e, s) h = absurd (ground (arith, ap (λ p. p.0) h))

delete_pat-ok :
    {S : Type 0} (sql : TokenSql S) (new_uuid : Result String) (now : Time) (user id : String)
    (s s' : S)
    → delete_pat (pat_store sql new_uuid now) user id s ≡ (ok tt, s')
    → (n : ℕ) × (n ≢ 0)
      × ((sql.mark_deleted id user s).0 ≡ ok n)
      × ((sql.mark_deleted id user s).1 ≡ s')
unfolding delete_pat soft_delete_token
delete_pat-ok sql new_uuid now user id s s' h = elim (Bool-cases (str_eq user "" || str_eq id "")) [
  | inl blank ↦ let e = rw blank at h in absurd (ground (arith, ap (λ p. p.0) e))
  | inr named ↦ affected-ok (sql.mark_deleted id user s) (rw named at h)
]

-- What the middleware makes of a hash that is not found.
unknown_hash :
    {S : Type 0} (sql : TokenSql S) (now : Time) (cfg : PatConfig) (hash : String) (s : S)
    → ((a : Option (String × Option Time)) → sql.select_by_hash hash s ≡ ok a → a ≡ none)
    → pat_outcome cfg (validate_pat sql now hash s).0 ≡ abort 401 invalid_pat
unfolding validate_pat
unknown_hash sql now cfg hash s unknown = elim (Result-cases (sql.select_by_hash hash s)) [
  | inl (a, read) ↦ rw (read, unknown a read) refl
  | inr (e, failed) ↦ rw failed refl
]

-- A token that the checks let through is made of the random text.
create_checks-token :
    (user name : String) (random : Result String) {plain : String}
    → create_checks user name random ≡ ok plain
    → (x : String) × (plain ≡ token_of x)
create_checks-token user name random h = elim (Bool-cases (str_eq (trim_space name) "")) [
  | inl blank ↦ absurd (ground arith)
  | inr named ↦ elim (Bool-cases (str_eq user "")) [
    | inl blank ↦ absurd (ground arith)
    | inr known ↦ elim (Result-cases random) [
      | inl (x, drawn) ↦ (x, sym (ground arith))
      | inr (e, failed) ↦ absurd (ground arith)
    ]
  ]
]

inserted_token-ok :
    {S : Type 0} (token : AccessToken) (r : Result (Unit {0}) × S) {t : AccessToken}
    → (inserted_token token r).0 ≡ ok t
    → (r.0 ≡ ok tt) × (t ≡ token) × ((inserted_token token r).1 ≡ r.1)
inserted_token-ok token (ok _, s) h = (refl, ground arith, refl)
inserted_token-ok token (err e, s) h = absurd (ground arith)

with_plain-ok :
    {S : Type 0} (plain : String) (r : Result AccessToken × S) {t : AccessToken} {p : String}
    → (with_plain plain r).0 ≡ ok (t, p)
    → (r.0 ≡ ok t) × (p ≡ plain) × ((with_plain plain r).1 ≡ r.1)
with_plain-ok plain (ok token, s) h = (ground arith, ground arith, refl)
with_plain-ok plain (err e, s) h = absurd (ground arith)

module _ {S : Type 0} (sql : TokenSql S) (table : TokenTable sql) where
  -- An insertion that succeeds leaves the row of the token that is returned.
  create_token-row :
      (new_uuid : Result String) (now : Time) (user name hash prefix : String)
      (expires : Option Time) (s : S) (token : AccessToken)
      → (create_token sql new_uuid now user name hash prefix expires s).0 ≡ ok token
      → table.row token.id (create_token sql new_uuid now user name hash prefix expires s).1
        ≡ some (record { user_id = user; token_hash = hash; expires_at = expires })
  unfolding create_token
  create_token-row (err e) now user name hash prefix expires s token h = absurd (ground arith)
  create_token-row (ok id) now user name hash prefix expires s token h =
      let (done, same, left) =
        inserted_token-ok _ (sql.insert id user name hash prefix expires now s) h in
      rw (same, left) (table.inserted id user name hash prefix expires now s done)

  -- A creation that succeeds: the token is made of the random text, and its row is stored.
  create_pat-row :
      (hash : String → String) (new_uuid random : Result String) (now : Time) (user name : String)
      (expires : Option Time) (s : S) (token : AccessToken) (plain : String)
      → (create_pat (pat_store sql new_uuid now) hash user name expires random s).0
        ≡ ok (token, plain)
      → (x : String) × (plain ≡ token_of x)
        × (table.row token.id
              (create_pat (pat_store sql new_uuid now) hash user name expires random s).1
            ≡ some (record { user_id = user; token_hash = hash plain; expires_at = expires }))
  unfolding create_pat
  create_pat-row hash new_uuid random now user name expires s token plain h =
      elim (Result-cases (create_checks user name random)) [
        | inr (e, refused) ↦ absurd (ground arith)
        | inl (p, checked) ↦
            let (x, made) = create_checks-token user name random checked in
            let (stored, same, left) =
              with_plain-ok p
                (create_token sql new_uuid now user (trim_space name) (hash p) (display_prefix p)
                  expires s)
                (rw checked at h) in
            (
              x,
              same ∙ made,
              rw (same, checked, left)
                  (create_token-row new_uuid now user _ (hash p) _ expires s token stored),
            )
      ]

  -- A token that `create_pat` returned is accepted by the middleware over the state that it left, as
  -- its creator's, until its expiry is past, and refused with status 401 afterwards, as long as the
  -- lookup of its hash is answered. For a table in which rows are found by their hash.
  pub created_token_logs_in :
      (hash user_name : String → String) (new_uuid random : Result String) (now later : Time)
      (user name : String) (expires : Option Time) (s s' : S) (token : AccessToken) (plain : String)
      (a : Option (String × Option Time)) (jwt_cfg : JwtConfig) (answer : Result Time)
      (cache : Option TokensCache)
      → create_pat (pat_store sql new_uuid now) hash user name expires random s
        ≡ (ok (token, plain), s')
      → sql.select_by_hash (hash plain) s' ≡ ok a
      → (combined_auth
          (pat_config_at sql later hash user_name s')
          jwt_cfg
          answer
          (header_of plain)
          cache).0
        ≡ (if is_expired later expires
            then abort 401 invalid_pat
            else accept (pat_claims (pat_config_at sql later hash user_name s') user))
  created_token_logs_in hash user_name new_uuid random now later user name expires s s' token plain
        a jwt_cfg answer cache h read =
      let (x, made, live) =
        create_pat-row hash new_uuid random now user name expires s token plain (ap (λ r. r.0) h) in
      let row : (table.row token.id s'
          ≡ some (record { user_id = user; token_hash = hash plain; expires_at = expires })) =
        rw (ap (λ r. r.1) h) at live in
      let checked = validate_pat-row sql table later token.id _ s' a row read in
      carried_token (pat_config_at sql later hash user_name s') _ jwt_cfg answer cache plain x made
        refl
      ∙ rw checked (elim (Bool-cases (is_expired later expires)) [
        | inl expired ↦ rw expired refl
        | inr current ↦ rw current refl
      ])

  -- A deletion that succeeds was asked for by the owner of the token, and from the state that it leaves
  -- on the middleware refuses every request with that token with status 401. For a table in which a
  -- deletion hides the row of its owner's token, and affects no row of another's.
  pub deleted_token_refused :
      (hash user_name : String → String) (new_uuid : Result String) (now later : Time)
      (user id random : String) (row : TokenRow) (s s' : S) (jwt_cfg : JwtConfig)
      (answer : Result Time) (cache : Option TokensCache)
      → table.row id s ≡ some row
      → row.token_hash ≡ hash (token_of random)
      → delete_pat (pat_store sql new_uuid now) user id s ≡ (ok tt, s')
      → (row.user_id ≡ user)
        × ((combined_auth
              (pat_config_at sql later hash user_name s')
              jwt_cfg
              answer
              (header_of (token_of random))
              cache).0
            ≡ abort 401 invalid_pat)
  deleted_token_refused hash user_name new_uuid now later user id random row s s' jwt_cfg answer
        cache live hashed h =
      let (n, some_row, marked, left) = delete_pat-ok sql new_uuid now user id s s' h in
      elim (Bool-cases (str_eq row.user_id user)) [
        | inr other ↦ absurd (
            some_row (
              table.foreign id user row s n live
                (λ e. absurd (ground (◌||◌, arith, eq_iff row.user_id user))) marked))
        | inl same ↦
            let own = (eq_iff row.user_id user).0 same in
            let cfg = pat_config_at sql later hash user_name s' in
            (
              own,
              carried_token cfg _ jwt_cfg answer cache (token_of random) random refl refl
                  ∙ unknown_hash sql later cfg (hash (token_of random)) s' (λ a read.
                    table.deleted id row s n a live (rw own marked) (rw (hashed, own, left) read)),
            )
      ]
