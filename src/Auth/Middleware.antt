-- ===== src/Auth/Middleware.antt =====
-- internal/auth/jwt.go and internal/auth/pat.go: what the middleware makes of a request's
-- Authorization header. Parsing and verifying a token (golang-jwt), the resolver of company users,
-- the lookup of an access token by its hash and the hash itself are arguments.
pub mod Revocation
use env_vault.Base.{
  ℕ, String, Bool, true, false, not, Option, none, some, ltb, ◌==◌, str_eq, Result, ok, err,
  Failure, failure, invalid_user_id, token_revoked, token_invalid_claims, invalid_pat,
  missing_public_key, if◌then◌else◌,
}
use env_vault.Domain.{Time}
use env_vault.Auth.TokensCache
use env_vault.Auth.TokensCache.{TokensCache}
use env_vault.Auth.Bearer.{bearer_token, is_pat, extract_pat, is_uuid}

pub record Claims : Type 0 where
  pub user_id : String
  pub name : String
  pub staff_user_id : String
  pub staff_email : String
  pub jwt : String
  pub cookie : String
  pub issued_at : Option Time

abbrev issued_before : Option Time → Time → Bool
issued_before none tva = false
issued_before (some iat) tva = ltb iat tva

-- IsRevokedBy; the zero time is 0
unfoldable pub is_revoked_by : Claims → Time → Bool
is_revoked_by c tva = if tva == 0 then false else issued_before c.issued_at tva

-- The request is stopped with a status, or goes on with the claims.
pub data Outcome : Type 0 where
  abort : ℕ → Failure → Outcome
  accept : Claims → Outcome

abbrev pub Resolver : Type 0
Resolver = String → Claims → Result (String × String)

pub record JwtConfig : Type 0 where
  -- the error of `parsePublicKey`, if there is one
  pub key_error : Option Failure
  -- jwt.ParseWithClaims with the key: the claims of a token that is valid
  pub parse : String → Result Claims
  pub user_resolver : Option Resolver

abbrev resolved : Claims → Result (String × String) → Result Claims
resolved c (err e) = err (failure "user resolution failed")
resolved c (ok (id, name)) =
    if is_uuid id
    then ok (record c { user_id = id; name = if str_eq name "" then c.name else name })
    else err invalid_user_id

abbrev own_user : Claims → Result Claims
own_user c = if is_uuid c.user_id then ok c else err invalid_user_id

-- The user that the claims stand for.
unfoldable pub identify : Option Resolver → Claims → Result Claims
identify none c = own_user c
identify (some resolve) c =
    if str_eq c.staff_user_id "" then own_user c else resolved c (resolve c.staff_user_id c)

abbrev revoked_at : Claims → Option Time → Bool
revoked_at c none = is_revoked_by c 0
revoked_at c (some tva) = is_revoked_by c tva

-- The check against the cache, which a nil cache skips; `answer` is what its loader would answer.
unfoldable pub check_revoked :
    Result Time → Claims → Option TokensCache → Outcome × Option TokensCache
check_revoked answer c none = (accept c, none)
check_revoked answer c (some cache) =
    let (tva, cache') = TokensCache.get c.user_id answer cache in
    (if revoked_at c tva then abort 401 token_revoked else accept c, some cache')

abbrev with_claims : Result Time → Result Claims → Option TokensCache → Outcome × Option TokensCache
with_claims answer (err e) cache = (abort 401 e, cache)
with_claims answer (ok c) cache = check_revoked answer c cache

abbrev parsed :
    JwtConfig → Result Time → Result Claims → Option TokensCache → Outcome × Option TokensCache
parsed cfg answer (err e) cache = (abort 401 token_invalid_claims, cache)
parsed cfg answer (ok c) cache = with_claims answer (identify cfg.user_resolver c) cache

abbrev with_token :
    JwtConfig → Result Time → Result String → Option TokensCache → Outcome × Option TokensCache
with_token cfg answer (err e) cache = (abort 401 e, cache)
with_token cfg answer (ok token) cache = parsed cfg answer (cfg.parse token) cache

abbrev with_key :
    Option Failure
    → JwtConfig
    → Result Time
    → String
    → Option TokensCache
    → Outcome × Option TokensCache
with_key (some e) cfg answer header cache = (abort 503 e, cache)
with_key none cfg answer header cache = with_token cfg answer (bearer_token header) cache

unfoldable pub jwt_middleware :
    JwtConfig → Result Time → String → Option TokensCache → Outcome × Option TokensCache
jwt_middleware cfg answer header cache = with_key cfg.key_error cfg answer header cache

pub record PatConfig : Type 0 where
  -- the user of a token's hash, and the hash
  pub validate_pat : Option (String → Result String)
  pub hash_pat : String → String
  pub user_name : String → String

abbrev pub pat_claims : PatConfig → String → Claims
pat_claims cfg id = record {
  user_id = id;
  name = cfg.user_name id;
  staff_user_id = "";
  staff_email = "";
  jwt = "";
  cookie = "";
  issued_at = none;
}

abbrev pub pat_outcome : PatConfig → Result String → Outcome
pat_outcome cfg (err e) = abort 401 invalid_pat
pat_outcome cfg (ok id) = accept (pat_claims cfg id)

unfoldable pub pat_middleware : PatConfig → String → Outcome
pat_middleware cfg plain = elim cfg.validate_pat [
  | none ↦ abort 503 missing_public_key
  | some validate ↦ pat_outcome cfg (validate (cfg.hash_pat plain))
]

unfoldable pub combined_auth :
    PatConfig → JwtConfig → Result Time → String → Option TokensCache → Outcome × Option TokensCache
combined_auth pat_cfg jwt_cfg answer header cache =
    if is_pat header
    then (pat_middleware pat_cfg (extract_pat header), cache)
    else jwt_middleware jwt_cfg answer header cache
