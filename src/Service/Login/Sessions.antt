-- ===== src/Service/Login/Sessions.antt =====
-- internal/service/auth_service.go, Logout and ChangePassword, against the middleware of
-- internal/auth/jwt.go: what they do to the tokens that were issued before.
use env_vault.Base.{
  ◌<◌, ◌≤◌, String, ◌≡◌, ◌≢◌, inl, inr, refl, true, false, none, some, arith, str_eq, eq_iff,
  Result, ok, err, not_found, token_revoked, Result-cases, Bool-cases,
}
use env_vault.Text.{byte_len}
use env_vault.Domain.{Time, User}
use env_vault.Auth.TokensCache.{TokensCache}
use env_vault.Auth.Bearer.{bearer_token, is_pat}
use env_vault.Auth.Middleware.{Claims, JwtConfig, PatConfig, identify, combined_auth, abort}
use env_vault.Auth.Middleware.Revocation.{logged_out_token_refused}
use env_vault.Service.Login.{AuthServiceOptions, World, validate_password}
use env_vault.Service.Login.Account.{
  cache_set, logout, user_error, change_checks, change_password, cache_updated,
}

-- A request whose token the middleware verifies as one of the user's, issued at `iat`.
pub record Carries (pat_cfg : PatConfig) (cfg : JwtConfig) (header : String) (c : Claims)
    (iat : Time) : Type 0 where
  pub no_pat : is_pat header ≡ false
  pub keyed : cfg.key_error ≡ none
  pub token : String
  pub carried : bearer_token header ≡ ok token
  pub claimed : Claims
  pub parsed : cfg.parse token ≡ ok claimed
  pub identified : identify cfg.user_resolver claimed ≡ ok c
  pub issued : c.issued_at ≡ some iat

module _ {D L : Type 0} (o : AuthServiceOptions D L) where
  logout-cache :
      (user_id : String) (w : World D L) (t : Time)
      → (logout o user_id w).0 ≡ ok tt
      → (o.auth_repo.bump_tokens_valid_after user_id w.db).0 ≡ ok t
      → (user_id ≢ "") × ((logout o user_id w).1.cache ≡ cache_set o user_id t w.cache)
  unfolding logout
  logout-cache user_id w t done bumped = elim (Bool-cases (str_eq user_id "")) [
    | inl empty ↦ absurd (ground arith)
    | inr named ↦ (ground (arith, eq_iff user_id ""), rw (named, bumped) refl)
  ]

-- A logout that succeeds in a process with a cache ends the user's sessions there at once: a
-- request with a token of the user that was issued before the time that the database wrote is
-- stopped with 401, whatever the loader would answer.
pub logout_ends_sessions :
    {D L : Type 0} (o : AuthServiceOptions D L) (w : World D L) (cache : TokensCache)
    (pat_cfg : PatConfig) (cfg : JwtConfig) (answer : Result Time) (header : String) (c : Claims)
    (iat t : Time)
    → w.cache ≡ some cache
    → (logout o c.user_id w).0 ≡ ok tt
    → (o.auth_repo.bump_tokens_valid_after c.user_id w.db).0 ≡ ok t
    → iat < t
    → Carries pat_cfg cfg header c iat
    → (combined_auth pat_cfg cfg answer header (logout o c.user_id w).1.cache).0
      ≡ abort 401 token_revoked
logout_ends_sessions o w cache pat_cfg cfg answer header c iat t cached done bumped before carries =
    let (named, stored) = logout-cache o c.user_id w t done bumped in
    rw (stored, cached)
      (logged_out_token_refused pat_cfg cfg answer header carries.token cache carries.claimed c iat
        t carries.no_pat carries.keyed carries.carried carries.parsed carries.identified named
        carries.issued before)

user_error-ok :
    {D L : Type 0} (o : AuthServiceOptions D L) (r : Result User) (user : User)
    → user_error o r ≡ ok user
    → r ≡ ok user
unfolding user_error
user_error-ok o (ok u) user h = h
user_error-ok o (err not_found) user h = cc
user_error-ok o (err e) user h = ground arith

-- What the checks of a change show when they pass.
pub record MayChange {D L : Type 0} (o : AuthServiceOptions D L) (user_id old new hash : String)
    (d : D) : Type 0 where
  pub user : User
  pub found : o.auth_repo.get_user_by_id user_id d ≡ ok user
  pub old_matches : o.password_hasher.verify user.password_hash old ≡ ok true
  pub long_enough : o.password_min_len ≤ byte_len new
  pub hashed : o.password_hasher.hash new ≡ ok hash

change_checks-ok :
    {D L : Type 0} (o : AuthServiceOptions D L) (user_id old new hash : String) (d : D)
    → change_checks o user_id old new d ≡ ok hash
    → MayChange o user_id old new hash d
unfolding change_checks validate_password
change_checks-ok o user_id old new hash d h =
    elim (Result-cases (user_error o (o.auth_repo.get_user_by_id user_id d))) [
      | inr (e, failed) ↦ absurd (ground arith)
      | inl (user, found) ↦ record {
        user = user;
        found = user_error-ok o (o.auth_repo.get_user_by_id user_id d) user found;
        old_matches = ground arith;
        long_enough = ground arith;
        hashed = ground arith;
      }
    ]

-- What a change of password that succeeded has shown, and what it wrote.
pub record Changed {D L : Type 0} (o : AuthServiceOptions D L) (user_id old new : String)
    (w w' : World D L) : Type 0 where
  pub hash : String
  pub may : MayChange o user_id old new hash w.db
  pub updated : User
  pub written :
      (o.auth_repo.update_password_hash user_id hash o.password_hasher.algo w.db).0 ≡ ok updated
  pub left : w' ≡ record w {
    db = (o.auth_repo.update_password_hash user_id hash o.password_hasher.algo w.db).1;
    cache = cache_updated o user_id updated.tokens_valid_after w.cache;
  }

-- A password changes only for a user who is found by the id, with the old password, and into a
-- new one of the least number of bytes or more: what the repository then stores is the hash of the new
-- one, and the cache takes the time from which tokens are valid that the repository returns.
change_password_changes :
    {D L : Type 0} (o : AuthServiceOptions D L) (user_id old new : String) (w : World D L)
    → (change_password o user_id old new w).0 ≡ ok tt
    → Changed o user_id old new w (change_password o user_id old new w).1
unfolding change_password
change_password_changes o user_id old new w h =
    elim (Result-cases (change_checks o user_id old new w.db)) [
      | inr (e, failed) ↦ absurd (ground arith)
      | inl (hash, checked) ↦
          let may = change_checks-ok o user_id old new hash w.db checked in
          elim (Result-cases
            (o.auth_repo.update_password_hash user_id hash o.password_hasher.algo w.db).0) [
              | inr (e, failed) ↦ absurd (ground arith)
              | inl (updated, written) ↦ record {
                hash = hash;
                may = may;
                updated = updated;
                written = written;
                left = rw (change_password, checked, written) refl;
              }
            ]
    ]
