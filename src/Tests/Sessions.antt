-- ===== src/Tests/Sessions.antt =====
-- Logins, logouts and the middleware, on a database that only answers.
use env_vault.Base.{
  ◌^◌, String, ◌≡◌, ◌≢◌, ◌↔◌, ◌⊎◌, refl, inl, true, false, none, some, [], ◌∷◌, arith, str_eq, ok,
  err, token_revoked, bad_credentials, not_found, if◌then◌else◌,
}
use env_vault.Text.{trim_space, to_lower, strip_prefix}
use env_vault.Auth.RateLimit.{redis_limiter}
use env_vault.Auth.TokensCache
use env_vault.Auth.TokensCache.{TokensCache, lookup, peek}
use env_vault.Auth.TokensCache.Refresh
use env_vault.Auth.TokensCache.Refresh.{
  log_out, load_row, store_row, valid_after, read_forgets_logout, load_snapshot, store_snapshot,
  logout_forgotten,
}
use env_vault.Auth.Bearer.{bearer_token, is_pat, extract_pat, is_uuid}
use env_vault.Auth.Middleware.{
  Claims, abort, accept, JwtConfig, PatConfig, identify, jwt_middleware, combined_auth,
  check_revoked,
}
use env_vault.Auth.Middleware.Revocation.{IsKnownPat, IsVerified, combined_accepts}
use env_vault.Service.Login.{
  AuthToken, AuthRepository, PasswordHasher, AuthServiceOptions, World, Moment, normalized,
  check_limit, record_limit, record_login, login,
}
use env_vault.Service.Login.Account.{logout, change_checks, change_password}
use env_vault.Service.Login.Credentials.{MayLogIn, login_iff}
use env_vault.Service.Login.BruteForce.{IsRefused, refused_alike}
use env_vault.Service.Login.Sessions.{Carries, logout_ends_sessions}
use env_vault.Tests.{differ}
use env_vault.Tests.Rbac.{bob}
use env_vault.Tests.RateLimit.{Redis, redis_ops, strict, one_failure}

-- Of one user, bob, whose password is "correct horse", in a database that does not change.
abbrev accounts : AuthRepository (Unit {0})
accounts = record {
  create_password_user = λ e n h a d. (ok bob, d);
  get_user_by_email = λ e d. if str_eq e bob.email then ok bob else err not_found;
  get_user_by_id = λ id d. ok bob;
  record_login_attempt = λ e ip b id d. (ok tt, d);
  touch_last_seen = λ id d. (ok tt, d);
  bump_tokens_valid_after = λ id d. (ok 50, d);
  update_password_hash = λ id h a d. (ok bob, d);
}

abbrev hasher : PasswordHasher
hasher = record {
  hash = λ p. ok "hash";
  verify = λ h p. ok (str_eq p "correct horse");
  algo = "argon2id";
}

abbrev options : AuthServiceOptions (Unit {0}) Redis
options = record {
  auth_repo = accounts;
  password_hasher = hasher;
  limiter = some (redis_limiter redis_ops strict);
  sign_token = λ id name issued expires. ok "token";
  lower = λ c. c;
  token_ttl = 100;
  password_min_len = 4;
}

abbrev cache : TokensCache
cache = record { values = ("bob", 7) ∷ []; has_loader = true }

abbrev world : World (Unit {0}) Redis
world = record { db = tt; limits = one_failure; cache = some cache }

abbrev moment : Moment
moment = record { unix_nano = 10 ^ 18; random = "r"; now = 40 }

abbrev bobs_token : AuthToken
bobs_token = record {
  user_id = "bob";
  email = "bob@example.com";
  name = "Bob";
  token = "token";
  issued_at = 40;
  expires_at = 140;
}

login_iff_example :
    ((login options moment "bob@example.com" "correct horse" "" world).0 ≡ ok bobs_token)
    ↔ MayLogIn options moment "bob@example.com" "correct horse" "" world bobs_token
login_iff_example = login_iff options moment "bob@example.com" "correct horse" "" world bobs_token

nobody : normalized options "eve@example.com" ≡ "eve@example.com"
unfolding normalized trim_space to_lower
nobody = refl

nobody_given : normalized options "eve@example.com" ≢ ""
unfolding normalized trim_space to_lower
nobody_given = differ "eve@example.com" "" refl

not_limited : (check_limit options "" one_failure).0 ≡ ok tt
unfolding check_limit env_vault.Auth.RateLimit.check
not_limited = refl

unknown :
    IsRefused options "guess"
      (accounts.get_user_by_email (normalized options "eve@example.com") tt)
      ""
unfolding normalized trim_space to_lower
unknown = inl (refl, refl)

refused_alike_example : login options moment "eve@example.com" "guess" "" world ≡ (
  err bad_credentials,
  record world {
    db = record_login options (normalized options "eve@example.com") "" false "" tt;
    limits = record_limit options moment "" false (check_limit options "" one_failure).1;
  },
)
refused_alike_example =
    refused_alike options moment "eve@example.com" "guess" "" world "" nobody_given
      (differ "guess" "" refl) not_limited unknown

abbrev some_id : String
some_id = "0123abcd-0000-4000-8000-000000000000"

abbrev claims : Claims
claims = record {
  user_id = some_id;
  name = "Bob";
  staff_user_id = "";
  staff_email = "";
  jwt = "";
  cookie = "";
  issued_at = some 40;
}

abbrev jwt_config : JwtConfig
jwt_config = record { key_error = none; parse = λ t. ok claims; user_resolver = none }

abbrev pat_config : PatConfig
pat_config = record { validate_pat = none; hash_pat = λ t. t; user_name = λ id. "" }

abbrev header : String
header = "Bearer xyz"

no_pat : is_pat header ≡ false
unfolding is_pat
no_pat = refl

carried : bearer_token header ≡ ok "xyz"
unfolding bearer_token trim_space strip_prefix
carried = refl

identified : identify none claims ≡ ok claims
unfolding identify is_uuid trim_space
identified = refl

accepted : (combined_auth pat_config jwt_config (ok 0) header none).0 ≡ accept claims
unfolding combined_auth jwt_middleware bearer_token is_pat identify is_uuid trim_space check_revoked
accepted = refl

combined_accepts_example :
    ((is_pat header ≡ true) × IsKnownPat pat_config (extract_pat header) claims)
    ⊎ ((is_pat header ≡ false) × IsVerified jwt_config (ok 0) header none claims)
combined_accepts_example = combined_accepts pat_config jwt_config (ok 0) header none claims accepted

logged_out : (logout options some_id world).0 ≡ ok tt
unfolding logout
logged_out = refl

abbrev request : Carries pat_config jwt_config header claims 40
request = record {
  no_pat = no_pat;
  keyed = refl;
  token = "xyz";
  carried = carried;
  claimed = claims;
  parsed = refl;
  identified = identified;
  issued = refl;
}

logout_ends_sessions_example :
    (combined_auth pat_config jwt_config (ok 0) header (logout options some_id world).1.cache).0
    ≡ abort 401 token_revoked
logout_ends_sessions_example =
    logout_ends_sessions options world cache pat_config jwt_config (ok 0) header claims 40 50 refl
      logged_out refl (omega arith) request

changed : (change_password options "bob" "correct horse" "battery staple" world).0 ≡ ok tt
unfolding change_password change_checks
changed = refl

-- The cache of a process that has just started.
abbrev fresh : Refresh.World
fresh = record {
  db = ("bob", 7) ∷ [];
  cache = record { values = []; has_loader = true };
  snapshot = none;
  loads = [];
  logouts = [];
}

-- A request reads bob's row and stores it, and then bob logs out.
abbrev read_by_bob : Refresh.World
read_by_bob = store_row "bob" 7 [] (load_row "bob" fresh)

missed : peek "bob" fresh.cache ≡ none
unfolding lookup
missed = refl

had : lookup "bob" fresh.db ≡ some 7
unfolding lookup
had = refl

logout_forgotten_example :
    ((TokensCache.get "bob"
        (ok 9)
        (store_snapshot fresh.db (log_out "bob" 9 (load_snapshot fresh))).cache).0
      ≡ some 7)
    × (lookup "bob" (store_snapshot fresh.db (log_out "bob" 9 (load_snapshot fresh))).db ≡ some 9)
logout_forgotten_example = logout_forgotten fresh "bob" 7 9 (ok 9) (differ "bob" "" refl) had

read_forgets_logout_example :
    let w' =
      store_row "bob" (valid_after "bob" fresh.db) [] (log_out "bob" 9 (load_row "bob" fresh)) in
    Refresh.QuietStep fresh (load_row "bob" fresh)
    × ((TokensCache.get "bob" (ok 9) w'.cache).0 ≡ some 7)
    × (lookup "bob" w'.db ≡ some 9)
read_forgets_logout_example =
    read_forgets_logout fresh "bob" 7 9 (ok 9) (differ "bob" "" refl) had missed
