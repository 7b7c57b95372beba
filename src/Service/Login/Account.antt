-- ===== src/Service/Login/Account.antt =====
-- internal/service/auth_service.go: registration, logout and the change of a password.
use env_vault.Base.{
  String, true, not, ◌||◌, Option, none, some, str_eq, Result, ok, err, Failure, not_found,
  conflict, invalid_argument, email_already_exists, bad_credentials, require, ◌>>=◌, ◌>>◌,
  if◌then◌else◌,
}
use env_vault.Text.{trim_space}
use env_vault.Domain.{Time, User}
use env_vault.Auth.TokensCache
use env_vault.Auth.TokensCache.{TokensCache}
use env_vault.Service.Login.{
  AuthToken, AuthServiceOptions, World, Moment, validate_email, validate_password, normalized,
  issue_token, record_login,
}

module _ {D L : Type 0} (o : AuthServiceOptions D L) where
  unfoldable pub create_error : Failure → Failure
  create_error conflict = email_already_exists
  create_error e = e

  -- the first success is recorded without an address, and without the limiter
  unfoldable pub registered :
      Moment → String → Result User → World D L → Result AuthToken × World D L
  unfolding create_error record_login issue_token
  registered m email (err e) w = (err (create_error e), w)
  registered m email (ok user) w =
      (issue_token o user m.now, record w { db = record_login o email "" true user.id w.db })

  unfoldable pub register :
      Moment → String → String → String → World D L → Result AuthToken × World D L
  unfolding validate_password normalized
  register m email name password w =
      let email' = normalized o email in
      let name' = trim_space name in
      let checks = (do
        validate_email email'
        require (not (str_eq name' "")) invalid_argument
        validate_password password o.password_min_len
        o.password_hasher.hash password) in
      elim checks [
        | err e ↦ (err e, w)
        | ok hash ↦
            (let (r, d) =
                o.auth_repo.create_password_user email' name' hash o.password_hasher.algo w.db in
              registered m email' r (record w { db = d }))
      ]

  -- TokensCache.Set where there is a cache
  abbrev pub cache_set : String → Time → Option TokensCache → Option TokensCache
  cache_set user_id t none = none
  cache_set user_id t (some c) = some (TokensCache.set user_id t c)

  abbrev pub logged_out : String → Result Time → World D L → Result (Unit {0}) × World D L
  logged_out user_id (err e) w = (err e, w)
  logged_out user_id (ok valid_after) w =
      (ok tt, record w { cache = cache_set user_id valid_after w.cache })

  unfoldable pub logout : String → World D L → Result (Unit {0}) × World D L
  logout user_id w =
      if str_eq user_id ""
      then (err invalid_argument, w)
      else (let (r, d) = o.auth_repo.bump_tokens_valid_after user_id w.db in
          logged_out user_id r (record w { db = d }))

  unfoldable pub user_error : Result User → Result User
  user_error (err not_found) = err invalid_argument
  user_error r = r

  -- everything that ChangePassword checks, and the new hash
  unfoldable pub change_checks : String → String → String → D → Result String
  unfolding validate_password user_error
  change_checks user_id old_password new_password d = do
    require (not (str_eq user_id "")) invalid_argument
    require (not (str_eq old_password "" || str_eq new_password "")) invalid_argument
    validate_password new_password o.password_min_len
    user ← user_error (o.auth_repo.get_user_by_id user_id d)
    matched ← o.password_hasher.verify user.password_hash old_password
    require matched bad_credentials
    o.password_hasher.hash new_password

  -- `updated.TokensValidAfter != nil`
  abbrev pub cache_updated : String → Option Time → Option TokensCache → Option TokensCache
  cache_updated user_id none c = c
  cache_updated user_id (some t) c = cache_set user_id t c

  abbrev pub password_updated : String → Result User → World D L → Result (Unit {0}) × World D L
  password_updated user_id (err e) w = (err e, w)
  password_updated user_id (ok user) w =
      (ok tt, record w { cache = cache_updated user_id user.tokens_valid_after w.cache })

  unfoldable pub change_password :
      String → String → String → World D L → Result (Unit {0}) × World D L
  change_password user_id old_password new_password w =
      elim (change_checks user_id old_password new_password w.db) [
        | err e ↦ (err e, w)
        | ok hash ↦
            (let (r, d) =
                o.auth_repo.update_password_hash user_id hash o.password_hasher.algo w.db in
              password_updated user_id r (record w { db = d }))
      ]
