-- ===== src/Auth/Middleware/Revocation.antt =====
-- internal/auth/jwt.go: what an accepted request has shown, and what a logout does to the tokens issued before it.
use env_vault.Base.{
  ◌<◌, String, ◌≡◌, ◌≢◌, refl, ◌⊎◌, inl, inr, true, false, Option, none, some, arith, eq_iff,
  eq_refl, Result, ok, token_revoked, Result-cases, Option-cases, Bool-cases,
}
use env_vault.Domain.{Time}
use env_vault.Auth.TokensCache
use env_vault.Auth.TokensCache.{TokensCache, lookup-insert}
use env_vault.Auth.Bearer.{bearer_token, is_pat, extract_pat, is_uuid}
use env_vault.Auth.Middleware.{
  Claims, is_revoked_by, abort, accept, Resolver, JwtConfig, identify, check_revoked,
  jwt_middleware, PatConfig, pat_middleware, combined_auth,
}

-- What the cache answers for a user, as a time: zero where it has none.
abbrev pub cached_time : Option TokensCache → String → Result Time → Time
cached_time none user_id answer = 0
cached_time (some cache) user_id answer = elim (TokensCache.get user_id answer cache).0 [
  | none ↦ 0
  | some t ↦ t
]

identify-is_uuid :
    (resolver : Option Resolver) (c c' : Claims)
    → identify resolver c ≡ ok c'
    → is_uuid c'.user_id ≡ true
unfolding identify
identify-is_uuid none c c' h = ground arith
identify-is_uuid (some resolve) c c' h = elim (Result-cases (resolve c.staff_user_id c)) [
  | inr (e, failed) ↦ ground arith
  | inl ((id, name), found) ↦ ground arith
]

check_revoked-accept :
    (answer : Result Time) (c c' : Claims) (cache : Option TokensCache)
    → (check_revoked answer c cache).0 ≡ accept c'
    → (c ≡ c') × (is_revoked_by c (cached_time cache c.user_id answer) ≡ false)
unfolding check_revoked is_revoked_by
check_revoked-accept answer c c' none h = (ground arith, refl)
check_revoked-accept answer c c' (some cache) h =
    elim (Option-cases (TokensCache.get c.user_id answer cache).0) [
      | inl missing ↦ (ground arith, ground arith)
      | inr (t, found) ↦ (ground arith, ground arith)
    ]

-- A token that was verified, of an identified user, and not revoked.
pub record IsVerified (cfg : JwtConfig) (answer : Result Time) (header : String)
    (cache : Option TokensCache) (c : Claims) : Type 0 where
  pub keyed : cfg.key_error ≡ none
  pub token : String
  pub carried : bearer_token header ≡ ok token
  pub claimed : Claims
  pub parsed : cfg.parse token ≡ ok claimed
  pub identified : identify cfg.user_resolver claimed ≡ ok c
  pub uuid : is_uuid c.user_id ≡ true
  pub current : is_revoked_by c (cached_time cache c.user_id answer) ≡ false

jwt_accepts-IsVerified :
    (cfg : JwtConfig) (answer : Result Time) (header : String) (cache : Option TokensCache)
    (c : Claims)
    → (jwt_middleware cfg answer header cache).0 ≡ accept c
    → IsVerified cfg answer header cache c
unfolding jwt_middleware
jwt_accepts-IsVerified cfg answer header cache c h = elim (Option-cases cfg.key_error) [
  | inr (e, broken) ↦ absurd (ground arith)
  | inl keyed ↦ elim (Result-cases (bearer_token header)) [
    | inr (e, failed) ↦ absurd (ground arith)
    | inl (token, carried) ↦ elim (Result-cases (cfg.parse token)) [
      | inr (e, failed) ↦ absurd (ground arith)
      | inl (claimed, parsed) ↦ elim (Result-cases (identify cfg.user_resolver claimed)) [
        | inr (e, failed) ↦ absurd (ground arith)
        | inl (c', identified) ↦
            let checked : (check_revoked answer c' cache).0 ≡ accept c = ground arith in
            let (same, current) = check_revoked-accept answer c' c cache checked in
            record {
              keyed = keyed;
              token = token;
              carried = carried;
              claimed = claimed;
              parsed = parsed;
              identified = rw (← same) identified;
              uuid = rw (← same) (identify-is_uuid cfg.user_resolver claimed c' identified);
              current = rw (← same) current;
            }
      ]
    ]
  ]
]

-- An access token whose hash the validator knows, and the claims that stand for its user.
pub record IsKnownPat (cfg : PatConfig) (plain : String) (c : Claims) : Type 0 where
  pub validate : String → Result String
  pub configured : cfg.validate_pat ≡ some validate
  pub user_id : String
  pub known : validate (cfg.hash_pat plain) ≡ ok user_id
  pub claimed : c ≡ record {
    user_id = user_id;
    name = cfg.user_name user_id;
    staff_user_id = "";
    staff_email = "";
    jwt = "";
    cookie = "";
    issued_at = none;
  }

pat_accepts-IsKnownPat :
    (cfg : PatConfig) (plain : String) (c : Claims)
    → pat_middleware cfg plain ≡ accept c
    → IsKnownPat cfg plain c
unfolding pat_middleware
pat_accepts-IsKnownPat cfg plain c h = elim (Option-cases cfg.validate_pat) [
  | inl missing ↦ absurd (ground arith)
  | inr (validate, configured) ↦ elim (Result-cases (validate (cfg.hash_pat plain))) [
    | inr (e, failed) ↦ absurd (ground arith)
    | inl (user_id, known) ↦ record {
      validate = validate;
      configured = configured;
      user_id = user_id;
      known = known;
      claimed = ground arith;
    }
  ]
]

-- What an accepted request has shown. With an access token in the header: the validator knows the
-- hash of what follows "Bearer ", and the claims are the id and the name of the user that it
-- answers, with no time of issue and all else empty. Otherwise: the key
-- is configured, the header carries a token that the key verifies, its user was identified and has
-- a user id of the right form, and the token is not revoked by the time that the cache answers.
pub combined_accepts :
    (pat_cfg : PatConfig) (cfg : JwtConfig) (answer : Result Time) (header : String)
    (cache : Option TokensCache) (c : Claims)
    → (combined_auth pat_cfg cfg answer header cache).0 ≡ accept c
    → ((is_pat header ≡ true) × IsKnownPat pat_cfg (extract_pat header) c)
      ⊎ ((is_pat header ≡ false) × IsVerified cfg answer header cache c)
unfolding combined_auth
combined_accepts pat_cfg cfg answer header cache c h = elim (Bool-cases (is_pat header)) [
  | inl pat ↦ inl (pat, pat_accepts-IsKnownPat pat_cfg (extract_pat header) c (ground arith))
  | inr jwt ↦ inr (jwt, jwt_accepts-IsVerified cfg answer header cache c (ground arith))
]

revoked_of_issued_before :
    (c : Claims) (iat tva : Time) → c.issued_at ≡ some iat → iat < tva → is_revoked_by c tva ≡ true
unfolding is_revoked_by
revoked_of_issued_before c iat tva issued before = ground arith

-- Once a logout has stored its time in the cache, every token of that user that was issued before
-- that time is stopped with 401, whatever the loader would answer: a request whose header is no
-- access token, and whose token is verified and identified as that user.
pub logged_out_token_refused :
    (pat_cfg : PatConfig) (cfg : JwtConfig) (answer : Result Time) (header token : String)
    (cache : TokensCache) (claimed c : Claims) (iat tva : Time)
    → is_pat header ≡ false
    → cfg.key_error ≡ none
    → bearer_token header ≡ ok token
    → cfg.parse token ≡ ok claimed
    → identify cfg.user_resolver claimed ≡ ok c
    → c.user_id ≢ ""
    → c.issued_at ≡ some iat
    → iat < tva
    → (combined_auth pat_cfg cfg answer header (some (TokensCache.set c.user_id tva cache))).0
      ≡ abort 401 token_revoked
unfolding combined_auth jwt_middleware check_revoked TokensCache.get TokensCache.set
logged_out_token_refused pat_cfg cfg answer header token cache claimed c iat tva no_pat keyed
      carried verified identified named issued before =
    ground (
      arith,
      eq_iff c.user_id "",
      eq_refl c.user_id,
      lookup-insert c.user_id c.user_id tva cache.values,
      revoked_of_issued_before c iat tva issued before,
    )
