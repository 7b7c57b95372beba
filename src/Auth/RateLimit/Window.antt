-- ===== src/Auth/RateLimit/Window.antt =====
-- internal/auth/ratelimit/ratelimit.go, RecordFailure: the set of failures of an address holds what
-- the sliding window holds.
use Prim.Native.String.{[], ◌∷◌}
use mathlib.Core.List.{[], ◌∷◌}
use text.Mathlib.TextLemmas.{append_cancel_left, append_cancel_right}
use env_vault.Base.{
  ℕ, ◌^◌, ◌≤◌, String, ◌≡◌, ◌≢◌, refl, ◌∙◌, true, false, arith, All, ok, str_eq, eq_iff, eq_refl,
  inl, inr, Bool-cases, if◌then◌else◌,
}
use env_vault.Base.Int.{pos, pos_part, ltb_ℤ}
use env_vault.Auth.RateLimit.{
  RedisOps, Options, failures_key, cutoff, unix_milli, member_of, record_failure, record_attempt,
}
use env_vault.Auth.RateLimit.Redis.{RedisModel, Members, outside, without, add_member}

pub failures_key-injective :
    (o : Options) (ip ip' : String) → failures_key o ip ≡ failures_key o ip' → ip ≡ ip'
unfolding failures_key
failures_key-injective o ip ip' e =
    append_cancel_right ip ip' ":failures"
      (append_cancel_left ":ip:" _ _ (append_cancel_left o.key_prefix _ _ e))

-- A failure inside the window that ends at `now`.
abbrev pub IsRecent : Options → ℕ → ℕ × String → Type 0
IsRecent o now (score, m) = ltb_ℤ (cutoff o now) (pos score) ≡ true

outside-IsRecent :
    (o : Options) (now : ℕ) (ms : Members)
    → All (IsRecent o now) (outside (pos 0) (cutoff o now) ms)
outside-IsRecent o now [] = tt
outside-IsRecent o now ((score, m) ∷ ms) = ground (arith, outside-IsRecent o now ms)

module _ {S : Type 0} {ops : RedisOps S} (redis : RedisModel ops) (o : Options) where
  -- the whole effect of a failure that was recorded
  members-record_failure :
      (now : ℕ) (random ip : String) (s : S) (j : String)
      → (record_failure ops o now random ip s).0 ≡ ok tt
      → redis.members (record_failure ops o now random ip s).1 j ≡ (
          if str_eq (failures_key o ip) j
          then outside (pos 0) (cutoff o now) (
              add_member
                (pos_part (unix_milli (pos now)))
                (member_of now random)
                (redis.members s (failures_key o ip)))
          else redis.members s j)
  unfolding record_failure
  members-record_failure now random ip s j h =
      let k = failures_key o ip in
      let score = pos_part (unix_milli (pos now)) in
      let m = member_of now random in
      let s' = (ops.zadd k score m s).1 in
      ground (
        arith,
        redis.zadd_ok k score m s j,
        redis.zadd_ok k score m s k,
        redis.zrem_ok k (pos 0) (cutoff o now) s' j,
        eq_iff k j,
        eq_refl k,
      )

-- the new failure lies in the window, if that is at least a millisecond long
failure-IsRecent :
    (o : Options) (now w : ℕ) (m : String)
    → o.window ≡ pos w
    → 10 ^ 6 ≤ w
    → IsRecent o now (pos_part (unix_milli (pos now)), m)
unfolding cutoff unix_milli
failure-IsRecent o now w m e h = rw e (ground arith)

outside-cons_of_IsRecent :
    (o : Options) (now score : ℕ) (m : String) (ms : Members)
    → IsRecent o now (score, m)
    → outside (pos 0) (cutoff o now) ((score, m) ∷ ms)
      ≡ (score, m) ∷ outside (pos 0) (cutoff o now) ms
outside-cons_of_IsRecent o now score m ms h = ground arith

module _ {S : Type 0} {ops : RedisOps S} (redis : RedisModel ops) (o : Options) where
  window_of_failure :
      (now w : ℕ) (random ip : String) (s : S)
      → o.window ≡ pos w
      → 10 ^ 6 ≤ w
      → (record_failure ops o now random ip s).0 ≡ ok tt
      → redis.members (record_failure ops o now random ip s).1 (failures_key o ip)
        ≡ (pos_part (unix_milli (pos now)), member_of now random)
          ∷ outside
              (pos 0)
              (cutoff o now)
              (without (member_of now random) (redis.members s (failures_key o ip)))
  window_of_failure now w random ip s e long done =
      let k = failures_key o ip in
      let score = pos_part (unix_milli (pos now)) in
      let m = member_of now random in
      members-record_failure redis o now random ip s k done
      ∙ rw eq_refl (
          outside-cons_of_IsRecent o now score m (without m (redis.members s k))
            (failure-IsRecent o now w m e long))

  failure_elsewhere :
      (now : ℕ) (random ip ip' : String) (s : S)
      → ip ≢ ip'
      → (record_failure ops o now random ip s).0 ≡ ok tt
      → redis.members (record_failure ops o now random ip s).1 (failures_key o ip')
        ≡ redis.members s (failures_key o ip')
  failure_elsewhere now random ip ip' s other done =
      let k = failures_key o ip in
      let k' = failures_key o ip' in
      let apart : str_eq k k' ≡ false = elim (Bool-cases (str_eq k k')) [
        | inl same ↦ absurd (other (failures_key-injective o ip ip' ((eq_iff k k').0 same)))
        | inr differ ↦ differ
      ] in
      members-record_failure redis o now random ip s k' done ∙ rw apart refl

-- Recording a failure that Redis takes leaves, for an address that is not empty and a window of a
-- millisecond or more, exactly the new failure and those older ones that the window still holds;
-- and the failures of any other address as they were.
record_failure_window :
    {S : Type 0} {ops : RedisOps S} (redis : RedisModel ops) (o : Options) (now w : ℕ)
    (random ip ip' : String) (s : S)
    → o.window ≡ pos w
    → 10 ^ 6 ≤ w
    → ip ≢ ""
    → ip ≢ ip'
    → (record_attempt ops o now random ip false s).0 ≡ ok tt
    → (redis.members (record_attempt ops o now random ip false s).1 (failures_key o ip)
        ≡ (pos_part (unix_milli (pos now)), member_of now random)
          ∷ outside
              (pos 0)
              (cutoff o now)
              (without (member_of now random) (redis.members s (failures_key o ip))))
      × All
          (IsRecent o now)
          (redis.members (record_attempt ops o now random ip false s).1 (failures_key o ip))
      × (redis.members (record_attempt ops o now random ip false s).1 (failures_key o ip')
          ≡ redis.members s (failures_key o ip'))
unfolding record_attempt
record_failure_window {ops = ops} redis o now w random ip ip' s e long named other done =
    let here : str_eq ip "" ≡ false = ground (arith, eq_iff ip "") in
    let written : (record_failure ops o now random ip s).0 ≡ ok tt = ground arith in
    let exact = window_of_failure redis o now w random ip s e long written in
    rw here (
      exact,
      rw exact (
        failure-IsRecent o now w (member_of now random) e long,
        outside-IsRecent o now
            (without (member_of now random) (redis.members s (failures_key o ip))),
      ),
      failure_elsewhere redis o now random ip ip' s other written,
    )
