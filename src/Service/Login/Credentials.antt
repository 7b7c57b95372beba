-- ===== src/Service/Login/Credentials.antt =====
-- internal/service/auth_service.go, Login: who gets a token, and what a failed attempt shows and
-- leaves behind.
use env_vault.Base.{
  String, ◌≡◌, ◌≢◌, ◌↔◌, inl, inr, true, false, arith, eq_iff, ok, err, Failure, not_found,
  Result-cases,
}
use env_vault.Domain.{User}
use env_vault.Service.Login.{
  AuthToken, AuthServiceOptions, World, Moment, normalized, issue_token, check_limit, failed_login,
  succeeded_login, with_user, with_lookup, login,
}

module _ {D L : Type 0} (o : AuthServiceOptions D L) where
  -- A user who logs in by a password, with the one that was given, and is not disabled.
  pub record HasCredentials (password : String) (user : User) : Type 0 where
    pub by_password : user.source ≡ "password"
    pub hashed : user.password_hash ≢ ""
    pub matches : o.password_hasher.verify user.password_hash password ≡ ok true
    pub enabled : user.is_disabled ≡ false

  pub record MayLogIn (m : Moment) (email password ip : String) (w : World D L) (token : AuthToken)
      : Type 0 where
    pub email_given : normalized o email ≢ ""
    pub password_given : password ≢ ""
    pub not_limited : (check_limit o ip w.limits).0 ≡ ok tt
    pub user : User
    pub found : o.auth_repo.get_user_by_email (normalized o email) w.db ≡ ok user
    pub credentials : HasCredentials password user
    pub issued : issue_token o user m.now ≡ ok token

  with_user-ok :
      (m : Moment) (email password ip : String) (user : User) (w : World D L) (token : AuthToken)
      → ((with_user o m email password ip user w).0 ≡ ok token)
        ↔ (HasCredentials password user × (issue_token o user m.now ≡ ok token))
  unfolding with_user failed_login succeeded_login
  with_user-ok m email password ip user w token = (
    λ h. elim (Result-cases (o.password_hasher.verify user.password_hash password)) [
      | inr (e, failed) ↦ absurd (ground arith)
      | inl (matched, checked) ↦ (
        record {
          by_password = ground (arith, eq_iff user.source "password");
          hashed = ground (arith, eq_iff user.password_hash "");
          matches = ground arith;
          enabled = ground arith;
        },
        ground arith,
      )
    ],
    λ (c, issued).
        ground (
          arith,
          eq_iff user.source "password",
          eq_iff user.password_hash "",
          c.matches,
          c.enabled,
        ),
  )

  -- what a lookup that failed returns is no token
  with_lookup-err :
      (m : Moment) (email password ip : String) (e : Failure) (w : World D L) (token : AuthToken)
      → (with_lookup o m email password ip (err e) w).0 ≢ ok token
  unfolding failed_login
  with_lookup-err m email password ip not_found w token h = ground arith
  with_lookup-err m email password ip e w token h = ground arith

  login_sound :
      (m : Moment) (email password ip : String) (w : World D L) (token : AuthToken)
      → (login o m email password ip w).0 ≡ ok token
      → MayLogIn m email password ip w token
  unfolding login
  login_sound m email password ip w token h =
      let l = (check_limit o ip w.limits).1 in
      elim (Result-cases (check_limit o ip w.limits).0) [
        | inr (e, refused) ↦ absurd (ground arith)
        | inl (_, passed) ↦
            elim (Result-cases (o.auth_repo.get_user_by_email (normalized o email) w.db)) [
              | inr (e, missing) ↦ absurd (
                  with_lookup-err m (normalized o email) password ip e (record w { limits = l })
                    token (ground arith))
              | inl (user, found) ↦
                  let (credentials, issued) =
                    (with_user-ok m (normalized o email) password ip user (record w { limits = l })
                        token).0
                      (ground arith) in
                  record {
                    email_given = ground (arith, eq_iff (normalized o email) "");
                    password_given = ground (arith, eq_iff password "");
                    not_limited = passed;
                    user = user;
                    found = found;
                    credentials = credentials;
                    issued = issued;
                  }
            ]
      ]

  login_complete :
      (m : Moment) (email password ip : String) (w : World D L) (token : AuthToken)
      → MayLogIn m email password ip w token
      → (login o m email password ip w).0 ≡ ok token
  unfolding login
  login_complete m email password ip w token may =
      let l = (check_limit o ip w.limits).1 in
      let logged_in =
        (with_user-ok m (normalized o email) password ip may.user (record w { limits = l }) token).1
          (may.credentials, may.issued) in
      ground (
        arith,
        eq_iff (normalized o email) "",
        eq_iff password "",
        may.email_given,
        may.password_given,
        may.not_limited,
        may.found,
        logged_in,
      )

-- A login returns a token exactly when an email address and a password are given, the limiter (if
-- there is one) passes, the address has a user who logs in by a password, with a stored hash that
-- the password matches, and who is not disabled, and the token is the one issued to that user.
pub login_iff :
    {D L : Type 0} (o : AuthServiceOptions D L) (m : Moment) (email password ip : String)
    (w : World D L) (token : AuthToken)
    → ((login o m email password ip w).0 ≡ ok token) ↔ MayLogIn o m email password ip w token
login_iff o m email password ip w token =
    (login_sound o m email password ip w token, login_complete o m email password ip w token)
