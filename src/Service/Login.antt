-- ===== src/Service/Login.antt =====
-- internal/service/auth_service.go: registration, login, logout and the change of a password. The
-- repository, the password hasher, the limiter and the signing of tokens are given; so are the
-- clock's values and the random part of a limiter's record.
pub mod Credentials
pub mod Account
pub mod BruteForce
pub mod Sessions
use Prim.Native.Char.{Char}
use env_vault.Base.{
  ℕ, zero, suc, ◌+◌, ◌*◌, ◌^◌, String, Bool, true, false, not, ◌&&◌, ◌||◌, Option, none, some, ltb,
  str_eq, Result, ok, err, Failure, not_found, conflict, invalid_argument, email_already_exists,
  bad_credentials, Action, require, ◌>>=◌, ◌>>◌, if◌then◌else◌,
}
use env_vault.Base.Int.{ℤ, pos_part}
use env_vault.Text.{trim_space, to_lower, is_email, byte_len}
use env_vault.Domain.{Time, User}
use env_vault.Auth.TokensCache
use env_vault.Auth.TokensCache.{TokensCache}
use env_vault.Auth.RateLimit.{Limiter, positive_or}

pub record AuthToken : Type 0 where
  pub user_id : String
  pub email : String
  pub name : String
  pub token : String
  pub issued_at : Time
  pub expires_at : Time

-- AuthRepository of internal/store/store.go
pub record AuthRepository (D : Type 0) : Type 0 where
  pub create_password_user : String → String → String → String → Action D User
  pub get_user_by_email : String → D → Result User
  pub get_user_by_id : String → D → Result User
  pub record_login_attempt : String → String → Bool → String → Action D (Unit {0})
  pub touch_last_seen : String → Action D (Unit {0})
  pub bump_tokens_valid_after : String → Action D Time
  pub update_password_hash : String → String → String → Action D User

-- PasswordHasher; the salt of a hash is among what `hash` is given
pub record PasswordHasher : Type 0 where
  pub hash : String → Result String
  pub verify : String → String → Result Bool
  pub algo : String

-- AuthServiceOptions after `withDefaults`, with what it calls outside the repository.
pub record AuthServiceOptions (D L : Type 0) : Type 0 where
  pub auth_repo : AuthRepository D
  pub password_hasher : PasswordHasher
  pub limiter : Option (Limiter L)
  -- auth.SignToken with the private key, for a user id, a name, and the times of issue and expiry
  pub sign_token : String → String → Time → Time → Result String
  pub lower : Char → Char
  pub token_ttl : ℕ
  pub password_min_len : ℕ

-- The database, the limiter's store, and the cache, which may be nil.
pub record World (D L : Type 0) : Type 0 where
  pub db : D
  pub limits : L
  pub cache : Option TokensCache

-- What a call takes from outside: the limiter's clock and random text, and the time of issue.
pub record Moment : Type 0 where
  pub unix_nano : ℕ
  pub random : String
  pub now : Time

-- withDefaults: 24 hours, in nanoseconds, and 12 bytes, where the option is not positive.
unfoldable pub with_defaults :
    {D L : Type 0} → ℤ → ℤ → AuthServiceOptions D L → AuthServiceOptions D L
with_defaults token_ttl password_min_len o = record o {
  token_ttl = pos_part (positive_or token_ttl (24 * 3600 * 10 ^ 9));
  password_min_len = pos_part (positive_or password_min_len 12);
}

unfoldable pub validate_email : String → Result (Unit {0})
unfolding is_email
validate_email email = require (is_email email) invalid_argument

unfoldable pub validate_password : String → ℕ → Result (Unit {0})
unfolding byte_len
validate_password password min_len =
    require (not (ltb (byte_len password) min_len)) invalid_argument

module _ {D L : Type 0} (o : AuthServiceOptions D L) where
  unfoldable pub normalized : String → String
  normalized email = to_lower o.lower (trim_space email)

  unfoldable pub issue_token : User → Time → Result AuthToken
  issue_token user now = do
    token ← o.sign_token user.id user.name now (now + o.token_ttl)
    ok (record {
      user_id = user.id;
      email = user.email;
      name = user.name;
      token = token;
      issued_at = now;
      expires_at = now + o.token_ttl;
    })

  -- the limiter is asked only if there is one
  unfoldable pub check_limit : String → Action L (Unit {0})
  check_limit ip l = elim o.limiter [ none ↦ (ok tt, l) | some limiter ↦ limiter.check ip l ]

  unfoldable pub record_limit : Moment → String → Bool → L → L
  record_limit m ip success l = elim o.limiter [
    | none ↦ l
    | some limiter ↦ (limiter.record_attempt m.unix_nano m.random ip success l).1
  ]

  unfoldable pub record_login : String → String → Bool → String → D → D
  record_login email ip success user_id d =
      (o.auth_repo.record_login_attempt email ip success user_id d).1

  -- a failed attempt, written to the database and to the limiter
  unfoldable pub failed_login :
      Moment → String → String → String → World D L → Result AuthToken × World D L
  unfolding record_limit record_login
  failed_login m email ip user_id w = (
    err bad_credentials,
    record w {
      db = record_login email ip false user_id w.db;
      limits = record_limit m ip false w.limits;
    },
  )

  unfoldable pub succeeded_login :
      Moment → String → String → User → World D L → Result AuthToken × World D L
  unfolding record_limit record_login issue_token
  succeeded_login m email ip user w = (
    issue_token user m.now,
    record w {
      db = (o.auth_repo.touch_last_seen user.id (record_login email ip true user.id w.db)).1;
      limits = record_limit m ip true w.limits;
    },
  )

  -- `err != nil || !ok` is a failure
  abbrev pub verified : Result Bool → Bool
  verified (ok matched) = matched
  verified (err e) = false

  unfoldable pub with_user :
      Moment → String → String → String → User → World D L → Result AuthToken × World D L
  with_user m email password ip user w =
      if not (str_eq user.source "password") || str_eq user.password_hash ""
      then failed_login m email ip user.id w
      else if not (verified (o.password_hasher.verify user.password_hash password))
      then failed_login m email ip user.id w
      else if user.is_disabled
      then (err bad_credentials, record w { db = record_login email ip false user.id w.db })
      else succeeded_login m email ip user w

  abbrev pub with_lookup :
      Moment → String → String → String → Result User → World D L → Result AuthToken × World D L
  with_lookup m email password ip (ok user) w = with_user m email password ip user w
  with_lookup m email password ip (err not_found) w = failed_login m email ip "" w
  with_lookup m email password ip (err e) w = (err e, w)

  abbrev pub after_check :
      Moment
      → String
      → String
      → String
      → Result (Unit {0})
      → World D L
      → Result AuthToken × World D L
  after_check m email password ip (err e) w = (err e, w)
  after_check m email password ip (ok _) w =
      with_lookup m email password ip (o.auth_repo.get_user_by_email email w.db) w

  unfoldable pub login :
      Moment → String → String → String → World D L → Result AuthToken × World D L
  login m email password ip w =
      let email' = normalized email in
      if str_eq email' "" || str_eq password ""
      then (err bad_credentials, w)
      else (let (r, l) = check_limit ip w.limits in
          after_check m email' password ip r (record w { limits = l }))
