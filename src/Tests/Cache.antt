-- ===== src/Tests/Cache.antt =====
-- The cache on a Redis that keeps hashes and sets, and whose commands all succeed.
mod Writes
mod Searches
use Prim.Native.Char.{Char}
use env_vault.Base.{
  ℕ, String, ◌≡◌, refl, Bool, true, false, ◌&&◌, ◌||◌, not, Option, none, some, List, [], ◌∷◌, any,
  ok, arith, str_eq, eq_iff, if◌then◌else◌,
}
use env_vault.Auth.{member}
use env_vault.Store.Cache.{Fields, field, put_fields, CacheOps, Codec, Cache}
use env_vault.Store.Cache.Redis.{CacheModel}
use env_vault.Service.Secret.{Ciphertext, RawCiphertext, no_bytes, undecodable, encoded}

pub record Redis : Type 0 where
  pub hashes : String → Fields
  pub sets : String → List String

abbrev with_set : String → List String → Redis → Redis
with_set k ms s = record s { sets = λ j. if str_eq k j then ms else s.sets j }

abbrev pub without : String → List String → List String
without m [] = []
without m (n ∷ ns) = let rest = without m ns in if str_eq n m then rest else n ∷ rest

abbrev pub redis_ops : CacheOps Redis
redis_ops = record {
  del = λ ks s. (
    ok tt,
    record {
      hashes = λ j. if member j ks then [] else s.hashes j;
      sets = λ j. if member j ks then [] else s.sets j;
    },
  );
  hget = λ k f s. ok (some (field f (s.hashes k)));
  hset = λ k fs s. (
    ok tt,
    record s { hashes = λ j. if str_eq k j then put_fields fs (s.hashes k) else s.hashes j },
  );
  hget_all = λ k s. ok (s.hashes k);
  set = λ k v s. (
    ok tt,
    record {
      hashes = λ j. if str_eq k j then [] else s.hashes j;
      sets = λ j. if str_eq k j then [] else s.sets j;
    },
  );
  sadd = λ k m s. (ok tt, with_set k (m ∷ s.sets k) s);
  srem = λ k m s. (ok tt, with_set k (without m (s.sets k)) s);
  smembers = λ k s. ok (s.sets k);
  scan = λ cursor pattern count s. ok ([], 0);
}

pub added :
    (k m j n : String) (s : Redis)
    → member n (if str_eq k j then m ∷ s.sets k else s.sets j)
      ≡ (str_eq k j && str_eq m n || member n (s.sets j))
added k m j n s = ground (arith, eq_iff k j, eq_iff m n, eq_iff n m)

member-without :
    (m n : String) (ns : List String) → member n (without m ns) ≡ (not (str_eq m n) && member n ns)
member-without m n [] = ground arith
member-without m n (x ∷ xs) =
    ground (arith, eq_iff x m, eq_iff m n, eq_iff n x, member-without m n xs)

pub removed :
    (k m j n : String) (s : Redis)
    → member n (if str_eq k j then without m (s.sets k) else s.sets j)
      ≡ (not (str_eq k j && str_eq m n) && member n (s.sets j))
removed k m j n s = ground (arith, eq_iff k j, member-without m n (s.sets k))

pub deleted :
    (ks : List String) (s : Redis) (j m : String)
    → member m (if member j ks then [] else s.sets j) ≡ (not (member j ks) && member m (s.sets j))
deleted ks s j m = ground arith

pub replaced :
    (k : String) (s : Redis) (j m : String)
    → member m (if str_eq k j then [] else s.sets j) ≡ (not (str_eq k j) && member m (s.sets j))
replaced k s j m = ground arith

pub fields_read : (s : Redis) (k : String) (fs : Fields) → ok (s.hashes k) ≡ ok fs → fs ≡ s.hashes k
fields_read s k fs h = ground arith

pub members_read :
    (s : Redis) (k m : String) (ms : List String)
    → ok (s.sets k) ≡ ok ms
    → member m ms ≡ member m (s.sets k)
members_read s k m ms h = let same : s.sets k ≡ ms = ground arith in rw same refl

abbrev pub redis : CacheModel redis_ops
redis = record {
  hash = λ s k. s.hashes k;
  has = λ s k m. member m (s.sets k);
  hset_ok = λ k fs s j done. refl;
  hset_keeps = λ k fs s j m done. refl;
  sadd_ok = λ k m s j n done. added k m j n s;
  sadd_keeps = λ k m s j done. refl;
  srem_ok = λ k m s j n done. removed k m j n s;
  srem_keeps = λ k m s j done. refl;
  del_ok = λ ks s j done. refl;
  del_sets = λ ks s j m done. deleted ks s j m;
  set_keeps = λ k v s j done. refl;
  set_sets = λ k v s j m done. replaced k s j m;
  hget_all_ok = λ k s fs h. fields_read s k fs h;
  smembers_ok = λ k s ms m h. members_read s k m ms h;
}

-- A ciphertext is its algorithm; letters stay as they are.
abbrev text_of : RawCiphertext → String
text_of no_bytes = ""
text_of undecodable = "?"
text_of (encoded c) = c.algorithm

abbrev pub codec : Codec
codec = record {
  lower = λ c. c;
  format = λ t. "then";
  parse = λ s. none;
  base64 = text_of;
  read_base64_json = λ s. some (record { algorithm = s; nonce = []; bytes = [] });
}

abbrev pub cache : Cache
cache = record { prefix = "vault" }

abbrev pub empty_redis : Redis
empty_redis = record { hashes = λ k. []; sets = λ k. [] }
