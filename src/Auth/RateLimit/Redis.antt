-- ===== src/Auth/RateLimit/Redis.antt =====
-- What the limiter relies on of Redis: the documented effect of the commands that it sends, on the
-- members of the sorted sets. Nothing is said of the effect of a command that fails, but for the
-- commands that write no sorted set.
use env_vault.Base.{
  ℕ, String, ◌≡◌, Bool, ◌&&◌, not, List, [], ◌∷◌, length, any, ok, str_eq, if◌then◌else◌,
}
use env_vault.Base.Int.{ℤ, pos, ltb_ℤ}
use env_vault.Auth.RateLimit.{RedisOps}

abbrev pub Members : Type 0
Members = List (ℕ × String)

-- ZADD: a member that is there gets the new score.
abbrev pub without : String → Members → Members
without m [] = []
without m ((score, n) ∷ ms) =
    let rest = without m ms in if str_eq n m then rest else (score, n) ∷ rest

abbrev pub add_member : ℕ → String → Members → Members
add_member score m ms = (score, m) ∷ without m ms

-- ZREMRANGEBYSCORE: the members with a score in the range go.
abbrev pub in_range : ℤ → ℤ → ℕ → Bool
in_range lo hi score = not (ltb_ℤ (pos score) lo) && not (ltb_ℤ hi (pos score))

abbrev pub outside : ℤ → ℤ → Members → Members
outside lo hi [] = []
outside lo hi ((score, n) ∷ ms) =
    let rest = outside lo hi ms in if in_range lo hi score then rest else (score, n) ∷ rest

pub record RedisModel {S : Type 0} (ops : RedisOps S) : Type 0 where
  -- the members of the sorted set at a key: none where the key is absent or holds a text
  pub members : S → String → Members
  pub zadd_ok :
      (k : String) (score : ℕ) (m : String) (s : S) (j : String)
      → (ops.zadd k score m s).0 ≡ ok tt
      → members (ops.zadd k score m s).1 j
        ≡ (if str_eq k j then add_member score m (members s k) else members s j)
  pub zrem_ok :
      (k : String) (lo hi : ℤ) (s : S) (j : String)
      → (ops.zrem_range_by_score k lo hi s).0 ≡ ok tt
      → members (ops.zrem_range_by_score k lo hi s).1 j
        ≡ (if str_eq k j then outside lo hi (members s k) else members s j)
  pub del_ok :
      (ks : List String) (s : S) (j : String)
      → (ops.del ks s).0 ≡ ok tt
      → members (ops.del ks s).1 j ≡ (if any (str_eq j) ks then [] else members s j)
  pub zcard_ok : (k : String) (s : S) (n : ℕ) → (ops.zcard k s).0 ≡ ok n → n ≡ length (members s k)
  pub zcard_keeps : (k : String) (s : S) (j : String) → members (ops.zcard k s).1 j ≡ members s j
  pub exists_keeps :
      (ks : List String) (s : S) (j : String) → members (ops.exists ks s).1 j ≡ members s j
  pub set_nx_keeps :
      (k v : String) (ttl : ℤ) (s : S) (j : String)
      → members (ops.set_nx k v ttl s).1 j ≡ members s j
