-- ===== src/Auth/RateLimit/Lockout.antt =====
-- internal/auth/ratelimit/ratelimit.go: a lockout does not end by waiting: the failures that caused it are counted again.
use env_vault.Base.{
  ℕ, ◌⊎◌, ◌↔◌, Bool-cases, String, ◌≡◌, ◌≢◌, true, false, arith, length, ok, str_eq, eq_iff, inl,
  inr, [], ◌∷◌, Result-cases,
}
use env_vault.Base.Int.{pos, ltb_ℤ}
use env_vault.Auth.RateLimit.{RedisOps, Options, failures_key, lockout_key, count_failures, check}
use env_vault.Auth.RateLimit.Redis.{RedisModel}

module _ {S : Type 0} {ops : RedisOps S} (redis : RedisModel ops) (o : Options) where
  -- `Check` writes no sorted set, whatever Redis returns.
  members-check :
      (ip : String) (s : S) (j : String) → redis.members (check ops o ip s).1 j ≡ redis.members s j
  unfolding check count_failures
  members-check ip s j =
      let locked = ops.exists (lockout_key o ip ∷ []) s in
      let s' = locked.1 in
      let s'' = (ops.zcard (failures_key o ip) s').1 in
      ground (
        arith,
        redis.exists_keeps (lockout_key o ip ∷ []) s j,
        redis.zcard_keeps (failures_key o ip) s' j,
        redis.set_nx_keeps (lockout_key o ip) "1" o.lockout_period s'' j,
      )

  -- There are as many failures of the address as are allowed, or more.
  abbrev pub IsOverLimit : String → S → Type 0
  IsOverLimit ip s =
      ltb_ℤ (pos (length (redis.members s (failures_key o ip)))) o.max_attempts ≡ false

  pub check_of_IsOverLimit :
      (ip : String) (s : S) → ip ≢ "" → IsOverLimit ip s → (check ops o ip s).0 ≢ ok tt
  unfolding check count_failures
  check_of_IsOverLimit ip s named over refused =
      let s' = (ops.exists (lockout_key o ip ∷ []) s).1 in
      let k = failures_key o ip in
      elim (Result-cases (ops.zcard k s').0) [
        | inr (e, failed) ↦ ground (arith, eq_iff ip "")
        | inl (n, counted) ↦ ground (
          arith,
          eq_iff ip "",
          redis.zcard_ok k s' n,
          redis.exists_keeps (lockout_key o ip ∷ []) s k,
        )
      ]

-- What can happen to Redis while an address only waits and tries: its checks, and what `Elsewhere`
-- relates (time passes, keys expire, other addresses are served).
pub data Waits {S : Type 0} (ops : RedisOps S) (o : Options) (Elsewhere : S → S → Type 0)
    (ip : String) (s : S) : S → Type 0 where
  start : Waits ops o Elsewhere ip s s
  try : {t : S} → Waits ops o Elsewhere ip s t → Waits ops o Elsewhere ip s (check ops o ip t).1
  wait : {t u : S} → Waits ops o Elsewhere ip s t → Elsewhere t u → Waits ops o Elsewhere ip s u

module _ {S : Type 0} {ops : RedisOps S} (redis : RedisModel ops) (o : Options)
    {Elsewhere : S → S → Type 0} (ip : String) (s : S)
    (keeps : (t u : S)
      → Elsewhere t u
      → redis.members u (failures_key o ip) ≡ redis.members t (failures_key o ip)) where
  Waits-IsOverLimit :
      {t : S} → IsOverLimit redis o ip s → Waits ops o Elsewhere ip s t → IsOverLimit redis o ip t
  Waits-IsOverLimit over start = over
  Waits-IsOverLimit over (try {t} w) =
      rw (members-check redis o ip t (failures_key o ip)) (Waits-IsOverLimit over w)
  Waits-IsOverLimit over (wait {t} {u} w e) = rw (keeps t u e) (Waits-IsOverLimit over w)

-- Once an address that is not empty has as many recorded failures as are allowed, none of its
-- checks passes any more, however long it waits and however often it is checked, as long as
-- nothing that happens meanwhile changes its recorded failures.
pub lockout_never_ends :
    {S : Type 0} {ops : RedisOps S} (redis : RedisModel ops) (o : Options)
    {Elsewhere : S → S → Type 0} (ip : String) (s t : S)
    → ((t u : S)
        → Elsewhere t u
        → redis.members u (failures_key o ip) ≡ redis.members t (failures_key o ip))
    → ip ≢ ""
    → IsOverLimit redis o ip s
    → Waits ops o Elsewhere ip s t
    → (check ops o ip t).0 ≢ ok tt
lockout_never_ends redis o ip s t keeps named over w =
    check_of_IsOverLimit redis o ip t named (Waits-IsOverLimit redis o ip s keeps over w)

-- Whatever Redis returns, a check passes exactly when the address is empty, or the lockout key was
-- found absent and the failures were counted below the limit.
check_iff :
    {S : Type 0} (ops : RedisOps S) (o : Options) (ip : String) (s : S)
    → ((check ops o ip s).0 ≡ ok tt) ↔ (
        (ip ≡ "")
        ⊎ ((ops.exists (lockout_key o ip ∷ []) s).0 ≡ ok 0)
          × ((n : ℕ) × ((ops.zcard (failures_key o ip) (ops.exists (lockout_key o ip ∷ []) s).1).0
                ≡ ok n)
              × (ltb_ℤ (pos n) o.max_attempts ≡ true)))
unfolding check count_failures
check_iff ops o ip s = (
  λ passed. elim (Bool-cases (str_eq ip "")) [
    | inl empty ↦ inl ((eq_iff _ _).0 empty)
    | inr named ↦
        let s' = (ops.exists (lockout_key o ip ∷ []) s).1 in
        elim (Result-cases (ops.zcard (failures_key o ip) s').0) [
          | inr (e, failed) ↦ absurd (ground arith)
          | inl (n, counted) ↦ inr (ground arith, (n, counted, ground arith))
        ]
  ],
  elim [
    | inl empty ↦ ground (arith, eq_iff ip "")
    | inr (free, (n, counted, below)) ↦ ground arith
  ],
)
