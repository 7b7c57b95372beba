-- ===== src/Auth/RateLimit.antt =====
-- internal/auth/ratelimit/ratelimit.go: the limiter of failed logins. Redis is given as the
-- operations of the interface `redisOps`; what the program relies on of it is in RateLimit/Redis.
-- The clock and the random part of a member are arguments.
pub mod Redis
pub mod Window
pub mod Lockout
use Prim.Native.String
use env_vault.Base.{
  ℕ, zero, suc, ◌+◌, ◌*◌, ◌/◌, ◌%◌, ◌^◌, String, Bool, true, false, not, List, [], ◌∷◌, ltb, ◌==◌,
  Result, ok, err, failure, rate_limited, Action, str_eq, if◌then◌else◌,
}
use env_vault.Text.Decimal.{itoa}
use env_vault.Base.Int.{ℤ, pos, negsuc, pos_part, sub_ℕ, ltb_ℤ}

-- Nanoseconds; a `time.Duration` is signed.
pub record Options : Type 0 where
  pub window : ℤ
  pub max_attempts : ℤ
  pub lockout_period : ℤ
  pub key_prefix : String

abbrev pub positive_or : ℤ → ℕ → ℤ
positive_or (pos zero) d = pos d
positive_or (pos (suc n)) d = pos (suc n)
positive_or (negsuc n) d = pos d

abbrev pub minute : ℕ
minute = 60 * 10 ^ 9

unfoldable pub with_defaults : Options → Options
with_defaults o = record {
  window = positive_or o.window minute;
  max_attempts = positive_or o.max_attempts 5;
  lockout_period = positive_or o.lockout_period (15 * minute);
  key_prefix = if str_eq o.key_prefix "" then "ratelimit:login" else o.key_prefix;
}

pub record RedisOps (S : Type 0) : Type 0 where
  pub zadd : String → ℕ → String → Action S (Unit {0})
  pub zrem_range_by_score : String → ℤ → ℤ → Action S (Unit {0})
  pub zcard : String → Action S ℕ
  pub del : List String → Action S (Unit {0})
  pub set_nx : String → String → ℤ → Action S Bool
  pub exists : List String → Action S ℕ

-- `Limiter`: what the login asks.
pub record Limiter (S : Type 0) : Type 0 where
  pub check : String → Action S (Unit {0})
  pub record_attempt : ℕ → String → String → Bool → Action S (Unit {0})

abbrev pub ip_key : Options → String → String → String
ip_key o ip kind = String.◌++◌ o.key_prefix (String.◌++◌ ":ip:" (String.◌++◌ ip kind))

unfoldable pub failures_key : Options → String → String
failures_key o ip = ip_key o ip ":failures"

unfoldable pub lockout_key : Options → String → String
lockout_key o ip = ip_key o ip ":lockout"

-- time.Time.UnixMilli of a time in nanoseconds since the epoch: rounded down.
unfoldable pub unix_milli : ℤ → ℤ
unix_milli (pos n) = pos (n / 10 ^ 6)
unix_milli (negsuc n) = negsuc (n / 10 ^ 6)

-- now.Add(-window).UnixMilli()
unfoldable pub cutoff : Options → ℕ → ℤ
unfolding unix_milli
cutoff o now = unix_milli (sub_ℕ now (pos_part o.window))

unfoldable pub member_of : ℕ → String → String
unfolding itoa
member_of now random = String.◌++◌ (itoa now) (String.◌++◌ "-" random)

module _ {S : Type 0} (ops : RedisOps S) (o : Options) where
  -- after the lockout key was asked for
  abbrev locked_out : Result ℕ → (S → Result (Unit {0}) × S) → S → Result (Unit {0}) × S
  locked_out (err e) next s = (err e, s)
  locked_out (ok zero) next s = next s
  locked_out (ok (suc n)) next s = (err rate_limited, s)

  -- after the failures were counted: at the limit the lockout key is set, whatever that returns
  abbrev over_limit : String → Result ℕ → S → Result (Unit {0}) × S
  over_limit ip (err e) s = (err e, s)
  over_limit ip (ok count) s =
      if ltb_ℤ (pos count) o.max_attempts
      then (ok tt, s)
      else (err rate_limited, (ops.set_nx (lockout_key o ip) "1" o.lockout_period s).1)

  unfoldable pub count_failures : String → Action S (Unit {0})
  count_failures ip s = let (r, s') = ops.zcard (failures_key o ip) s in over_limit ip r s'

  unfoldable pub check : String → Action S (Unit {0})
  check ip s =
      if str_eq ip ""
      then (ok tt, s)
      else (let (r, s') = ops.exists (lockout_key o ip ∷ []) s in
          locked_out r (count_failures ip) s')

  -- after the failure was added, those that left the window are removed
  abbrev trim_window : ℕ → String → Result (Unit {0}) → S → Result (Unit {0}) × S
  trim_window now ip (err e) s = (err e, s)
  trim_window now ip (ok _) s = ops.zrem_range_by_score (failures_key o ip) (pos 0) (cutoff o now) s

  unfoldable pub record_failure : ℕ → String → String → Action S (Unit {0})
  record_failure now random ip s =
      let (r, s') =
        ops.zadd (failures_key o ip) (pos_part (unix_milli (pos now))) (member_of now random) s in
      trim_window now ip r s'

  unfoldable pub record_attempt : ℕ → String → String → Bool → Action S (Unit {0})
  record_attempt now random ip success s =
      if str_eq ip ""
      then (ok tt, s)
      else if success
      then ops.del (failures_key o ip ∷ lockout_key o ip ∷ []) s
      else record_failure now random ip s

  abbrev pub redis_limiter : Limiter S
  redis_limiter = record { check = check; record_attempt = record_attempt }
