-- ===== src/Service/Login/BruteForce.antt =====
-- internal/service/auth_service.go, Login, with the limiter of internal/auth/ratelimit: what stops
-- a search for a password, and what a failed attempt tells.
use env_vault.Base.{
  String, ◌≡◌, ◌≢◌, ◌⊎◌, inl, inr, refl, Bool, true, false, not, ◌||◌, some, arith, str_eq, eq_iff,
  Result, ok, err, not_found, bad_credentials, Result-cases, Bool-cases,
}
use env_vault.Domain.{User}
use env_vault.Auth.RateLimit.{RedisOps, Options, redis_limiter}
use env_vault.Auth.RateLimit.Redis.{RedisModel}
use env_vault.Auth.RateLimit.Lockout.{IsOverLimit, check_of_IsOverLimit}
use env_vault.Service.Login.{
  AuthToken, AuthServiceOptions, World, Moment, normalized, check_limit, record_login, record_limit,
  failed_login, succeeded_login, verified, with_user, login,
}
use env_vault.Service.Login.Credentials.{HasCredentials}

-- With the Redis limiter, an address that is not empty and has as many recorded failures as are
-- allowed gets no token, with the right password as little as with a wrong one, and what it tries
-- leaves the database and the cache as they were.
locked_out_login :
    {D L : Type 0} {ops : RedisOps L} (redis : RedisModel ops) (limits : Options)
    (o : AuthServiceOptions D L) (m : Moment) (email password ip : String) (w : World D L)
    → o.limiter ≡ some (redis_limiter ops limits)
    → ip ≢ ""
    → IsOverLimit redis limits ip w.limits
    → ((token : AuthToken) → (login o m email password ip w).0 ≢ ok token)
      × ((login o m email password ip w).1.db ≡ w.db)
      × ((login o m email password ip w).1.cache ≡ w.cache)
unfolding login check_limit
locked_out_login {ops = ops} redis limits o m email password ip w limited named over =
    let stopped = check_of_IsOverLimit redis limits ip w.limits named over in
    elim (Result-cases (check_limit o ip w.limits).0) [
      | inl (_, passed) ↦ absurd (stopped (ground arith))
      | inr (e, refused) ↦ (λ token. ground arith, ground arith, ground arith)
    ]

verified-true :
    {D L : Type 0} (o : AuthServiceOptions D L) (r : Result Bool)
    → verified o r ≡ true
    → r ≡ ok true
verified-true o (ok b) h = rw h refl
verified-true o (err e) h = cc

-- No user has the address, and the attempt is nobody's; or the one that has it, to whom the attempt
-- belongs, is not disabled and does not log in by this password. An error of the hasher counts as a
-- password that does not match.
abbrev pub IsRefused :
    {D L : Type 0} → AuthServiceOptions D L → String → Result User → String → Type 0
IsRefused o password found user_id =
    (found ≡ err not_found) × (user_id ≡ "")
    ⊎ ((user : User) × (found ≡ ok user)
        × (user.id ≡ user_id)
        × (user.is_disabled ≡ false)
        × (¬ HasCredentials o password user))

-- Of an address that nobody has, of a user who cannot log in by a password and of a wrong
-- password, a login tells the same: once email and password are given and the limiter passes, the
-- same error, a failure in the limiter's record, and a failed attempt in the database, under the
-- empty id where nobody has the address and under the user's own id otherwise. The user is one that
-- is not disabled; another error of the repository than "not found" is not covered.
pub refused_alike :
    {D L : Type 0} (o : AuthServiceOptions D L) (m : Moment) (email password ip : String)
    (w : World D L) (user_id : String)
    → normalized o email ≢ ""
    → password ≢ ""
    → (check_limit o ip w.limits).0 ≡ ok tt
    → IsRefused o password (o.auth_repo.get_user_by_email (normalized o email) w.db) user_id
    → login o m email password ip w ≡ (
      err bad_credentials,
      record w {
        db = record_login o (normalized o email) ip false user_id w.db;
        limits = record_limit o m ip false (check_limit o ip w.limits).1;
      },
    )
unfolding login with_user failed_login succeeded_login
refused_alike o m email password ip w user_id named given passed (inl (missing, nobody)) =
    rw nobody (ground (arith, eq_iff (normalized o email) "", eq_iff password ""))
refused_alike o m email password ip w user_id named given passed
      (inr (user, found, own, enabled, wrong)) =
    rw (← own)
      (elim (Bool-cases (not (str_eq user.source "password") || str_eq user.password_hash "")) [
        | inl other ↦ ground (arith, eq_iff (normalized o email) "", eq_iff password "")
        | inr by_password ↦
            elim (Bool-cases (verified o (o.password_hasher.verify user.password_hash password))) [
              | inr refused ↦ ground (arith, eq_iff (normalized o email) "", eq_iff password "")
              | inl matched ↦ absurd (
                  wrong (record {
                    by_password = ground (arith, eq_iff user.source "password");
                    hashed = ground (arith, eq_iff user.password_hash "");
                    matches =
                        verified-true o (o.password_hasher.verify user.password_hash password)
                          matched;
                    enabled = enabled;
                  }))
            ]
      ])
