-- ===== src/Store/Cache/Redis.antt =====
-- What the cache relies on of Redis: the documented effect of the commands that it sends, on the
-- hashes and the sets. Nothing is said of the effect of a command that fails.
use env_vault.Base.{String, ◌≡◌, Bool, ◌||◌, ◌&&◌, not, List, [], ok, str_eq, if◌then◌else◌}
use env_vault.Auth.{member}
use env_vault.Store.Cache.{Fields, put_fields, CacheOps}

pub record CacheModel {R : Type 0} (ops : CacheOps R) : Type 0 where
  -- the hash at a key: no fields where the key is absent or holds something else
  pub hash : R → String → Fields
  -- whether the set at a key has a member
  pub has : R → String → String → Bool
  pub hset_ok :
      (k : String) (fs : Fields) (s : R) (j : String)
      → (ops.hset k fs s).0 ≡ ok tt
      → hash (ops.hset k fs s).1 j ≡ (if str_eq k j then put_fields fs (hash s k) else hash s j)
  pub hset_keeps :
      (k : String) (fs : Fields) (s : R) (j m : String)
      → (ops.hset k fs s).0 ≡ ok tt
      → has (ops.hset k fs s).1 j m ≡ has s j m
  pub sadd_ok :
      (k m : String) (s : R) (j n : String)
      → (ops.sadd k m s).0 ≡ ok tt
      → has (ops.sadd k m s).1 j n ≡ (str_eq k j && str_eq m n || has s j n)
  pub sadd_keeps :
      (k m : String) (s : R) (j : String)
      → (ops.sadd k m s).0 ≡ ok tt
      → hash (ops.sadd k m s).1 j ≡ hash s j
  pub srem_ok :
      (k m : String) (s : R) (j n : String)
      → (ops.srem k m s).0 ≡ ok tt
      → has (ops.srem k m s).1 j n ≡ (not (str_eq k j && str_eq m n) && has s j n)
  pub srem_keeps :
      (k m : String) (s : R) (j : String)
      → (ops.srem k m s).0 ≡ ok tt
      → hash (ops.srem k m s).1 j ≡ hash s j
  pub del_ok :
      (ks : List String) (s : R) (j : String)
      → (ops.del ks s).0 ≡ ok tt
      → hash (ops.del ks s).1 j ≡ (if member j ks then [] else hash s j)
  pub del_sets :
      (ks : List String) (s : R) (j m : String)
      → (ops.del ks s).0 ≡ ok tt
      → has (ops.del ks s).1 j m ≡ (not (member j ks) && has s j m)
  pub set_keeps :
      (k v : String) (s : R) (j : String)
      → (ops.set k v s).0 ≡ ok tt
      → hash (ops.set k v s).1 j ≡ (if str_eq k j then [] else hash s j)
  pub set_sets :
      (k v : String) (s : R) (j m : String)
      → (ops.set k v s).0 ≡ ok tt
      → has (ops.set k v s).1 j m ≡ (not (str_eq k j) && has s j m)
  pub hget_all_ok : (k : String) (s : R) (fs : Fields) → ops.hget_all k s ≡ ok fs → fs ≡ hash s k
  pub smembers_ok :
      (k : String) (s : R) (ms : List String) (m : String)
      → ops.smembers k s ≡ ok ms
      → member m ms ≡ has s k m
