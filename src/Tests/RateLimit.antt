-- ===== src/Tests/RateLimit.antt =====
-- The limiter on a Redis that keeps its sorted sets and its lockout keys.
use env_vault.Base.{
  ℕ, ◌*◌, ◌^◌, String, ◌≡◌, ◌≢◌, refl, Bool, true, false, [], ◌∷◌, length, any, arith, str_eq, ok,
  if◌then◌else◌,
}
use env_vault.Base.Int.{pos}
use env_vault.Auth.RateLimit.{RedisOps, Options, check, record_failure, record_attempt}
use env_vault.Auth.RateLimit.Redis.{RedisModel, Members, add_member, outside}
use env_vault.Auth.RateLimit.Lockout.{Waits, lockout_never_ends}
use env_vault.Tests.{differ}

pub record Redis : Type 0 where
  pub sets : String → Members
  pub locks : String → Bool

abbrev add_set : String → Members → Redis → Redis
add_set k ms s = record s { sets = λ j. if str_eq k j then ms else s.sets j }

abbrev pub redis_ops : RedisOps Redis
redis_ops = record {
  zadd = λ k score m s. (ok tt, add_set k (add_member score m (s.sets k)) s);
  zrem_range_by_score = λ k lo hi s. (ok tt, add_set k (outside lo hi (s.sets k)) s);
  zcard = λ k s. (ok (length (s.sets k)), s);
  del = λ ks s. (
    ok tt,
    record {
      sets = λ j. if any (str_eq j) ks then [] else s.sets j;
      locks = λ j. if any (str_eq j) ks then false else s.locks j;
    },
  );
  set_nx = λ k v ttl s. (ok true, record s { locks = λ j. if str_eq k j then true else s.locks j });
  exists = λ ks s. (ok (if any s.locks ks then 1 else 0), s);
}

pub zcard_counts :
    (k : String) (s : Redis) (n : ℕ) → ok (length (s.sets k)) ≡ ok n → n ≡ length (s.sets k)
zcard_counts k s n h = ground arith

abbrev pub redis : RedisModel redis_ops
redis = record {
  members = λ s k. s.sets k;
  zadd_ok = λ k score m s j done. refl;
  zrem_ok = λ k lo hi s j done. refl;
  del_ok = λ ks s j done. refl;
  zcard_ok = λ k s n done. zcard_counts k s n done;
  zcard_keeps = λ k s j. refl;
  exists_keeps = λ ks s j. refl;
  set_nx_keeps = λ k v ttl s j. refl;
}

abbrev pub strict : Options
strict = record {
  window = pos (60 * 10 ^ 9);
  max_attempts = pos 1;
  lockout_period = pos (900 * 10 ^ 9);
  key_prefix = "login";
}

-- One old failure of every address.
abbrev pub one_failure : Redis
one_failure = record { sets = λ k. (5, "old") ∷ []; locks = λ k. false }

abbrev pub client : String
client = "1.2.3.4"

recorded : (record_attempt redis_ops strict (10 ^ 18) "r" client false one_failure).0 ≡ ok tt
unfolding record_attempt record_failure
recorded = refl

-- Nothing happens elsewhere.
abbrev Nothing : Redis → Redis → Type 0
Nothing s t = ⊥

lockout_never_ends_example :
    (check redis_ops strict client (check redis_ops strict client one_failure).1).0 ≢ ok tt
lockout_never_ends_example =
    lockout_never_ends redis strict {Elsewhere = Nothing} client one_failure
      (check redis_ops strict client one_failure).1 (λ t u never. absurd never)
      (differ client "" refl) refl (Waits.try Waits.start)
