-- ===== src/Store/Cache/Refines.antt =====
-- internal/store/redis/cache.go: the writers of the cache implement a map from a type and an id to what
-- is kept of the resource.
use env_vault.Base.{
  String, ◌≡◌, ◌≢◌, refl, ◌∙◌, true, false, ◌&&◌, List, [], ◌∷◌, ok, Action, All, arith, str_eq,
  if◌then◌else◌,
}
use env_vault.Base.Actions.{◌>>◌, return, then-leaves}
use env_vault.Text.Cut.{Lacks}
use env_vault.Service.Secret.{SecretCacheRecord}
use env_vault.Store.Cache.{ResourceType, secret, Fields, put_fields, CacheOps, Codec, Cache}
use env_vault.Store.Cache.Redis.{CacheModel}
use env_vault.Store.Cache.Keys.{same_type}
use env_vault.Store.Cache.Meta.{upsert_resource, delete_resource}
use env_vault.Store.Cache.Meta.View.{Kept, kept, kept-upsert, kept-delete}
use env_vault.Store.Cache.Secrets.{secret_fields, upsert_secret, delete_secret}
use env_vault.Store.Cache.Secrets.Kept.{kept-upsert_secret, kept-delete_secret}

-- What a handler asks the cache to write.
pub data Command : Type 0 where
  write : ResourceType → String → Fields → Command
  remove : ResourceType → String → Command
  write_secret : SecretCacheRecord → Command
  remove_secret : String → Command

-- The abstract map, and its two operations.
abbrev pub KeptMap : Type 0
KeptMap = ResourceType → String → Kept

abbrev pub put : ResourceType → String → Fields → KeptMap → KeptMap
put t id fs m u j =
    if same_type t u && str_eq id j
    then (record { listed = true; fields = put_fields fs (m t id).fields })
    else m u j

abbrev pub drop_key : ResourceType → String → KeptMap → KeptMap
drop_key t id m u j =
    if same_type t u && str_eq id j then (record { listed = false; fields = [] }) else m u j

abbrev pub id_of : Command → String
id_of (write t id fs) = id
id_of (remove t id) = id
id_of (write_secret r) = r.secret.id
id_of (remove_secret id) = id

-- An id without a colon that is not `ids`, as a UUID is.
abbrev pub IsPlain : String → Type 0
IsPlain id = (id ≢ "ids") × Lacks b':' id

module _ (codec : Codec) where
  abbrev pub meaning : Command → KeptMap → KeptMap
  meaning (write t id fs) = put t id fs
  meaning (remove t id) = drop_key t id
  meaning (write_secret r) = put secret r.secret.id (secret_fields codec r)
  meaning (remove_secret id) = drop_key secret id

  abbrev pub meanings : List Command → KeptMap → KeptMap
  meanings [] m = m
  meanings (command ∷ commands) m = meanings commands (meaning command m)

  -- Maps that agree on the plain ids still do after a command for a plain id.
  abbrev Agree : KeptMap → KeptMap → Type 0
  Agree m n = (u : ResourceType) (j : String) → Lacks b':' j → m u j ≡ n u j

  meaning-Agree :
      (command : Command) (m n : KeptMap)
      → IsPlain (id_of command)
      → Agree m n
      → Agree (meaning command m) (meaning command n)
  meaning-Agree (write t id fs) m n plain h u j pj = ground (arith, h u j pj, h t id plain.1)
  meaning-Agree (remove t id) m n plain h u j pj = ground (arith, h u j pj)
  meaning-Agree (write_secret r) m n plain h u j pj =
      ground (arith, h u j pj, h secret r.secret.id plain.1)
  meaning-Agree (remove_secret id) m n plain h u j pj = ground (arith, h u j pj)

  meanings-Agree :
      (commands : List Command) (m n : KeptMap)
      → All (λ command. IsPlain (id_of command)) commands
      → Agree m n
      → Agree (meanings commands m) (meanings commands n)
  meanings-Agree [] m n plain h = h
  meanings-Agree (command ∷ commands) m n plain h =
      meanings-Agree commands (meaning command m) (meaning command n) plain.1
        (meaning-Agree command m n plain.0 h)

module _ {R : Type 0} (ops : CacheOps R) (codec : Codec) (c : Cache) where
  abbrev pub perform : Command → Action R (Unit {0})
  perform (write t id fs) = upsert_resource ops c t id fs
  perform (remove t id) = delete_resource ops c t id
  perform (write_secret r) = upsert_secret ops codec c r
  perform (remove_secret id) = delete_secret ops codec c id

  -- One write after the other, until the first that fails.
  unfoldable pub performs : List Command → Action R (Unit {0})
  performs [] = return tt
  performs (command ∷ commands) = perform command >> performs commands

perform-meaning :
    {R : Type 0} {ops : CacheOps R} (redis : CacheModel ops) (codec : Codec) (c : Cache)
    (command : Command) (s : R)
    → IsPlain (id_of command)
    → (perform ops codec c command s).0 ≡ ok tt
    → Agree codec
        (kept redis c (perform ops codec c command s).1)
        (meaning codec command (kept redis c s))
perform-meaning redis codec c (write t id fs) s plain h u j pj = kept-upsert redis c t u id j fs s h
perform-meaning redis codec c (remove t id) s plain h u j pj =
    kept-delete redis c t u id j s plain.0 h
perform-meaning redis codec c (write_secret r) s plain h u j pj =
    kept-upsert_secret redis codec c r u j s plain.1 pj h
perform-meaning redis codec c (remove_secret id) s plain h u j pj =
    kept-delete_secret redis codec c id u j s plain.0 pj h

-- The cache on Redis implements a map: after any sequence of writes and removals of resources and secrets
-- that succeeds, for ids without a colon that are not `ids`, what Redis keeps of each resource is
-- what the same operations make of a map from types and ids, starting from what Redis kept.
pub performs_refines :
    {R : Type 0} {ops : CacheOps R} (redis : CacheModel ops) (codec : Codec) (c : Cache)
    (commands : List Command) (s : R) (u : ResourceType) (j : String)
    → All (λ command. IsPlain (id_of command)) commands
    → (performs ops codec c commands s).0 ≡ ok tt
    → Lacks b':' j
    → kept redis c (performs ops codec c commands s).1 u j
      ≡ meanings codec commands (kept redis c s) u j
unfolding performs
performs_refines redis codec c [] s u j plain h pj = refl
performs_refines {ops} redis codec c (command ∷ commands) s u j plain h pj =
    let (done, rest, left) =
      then-leaves (perform ops codec c command) (performs ops codec c commands) s h in
    rw left (
      performs_refines redis codec c commands (perform ops codec c command s).1 u j plain.1 rest pj
      ∙ meanings-Agree codec commands (kept redis c (perform ops codec c command s).1)
          (meaning codec command (kept redis c s)) plain.1
          (perform-meaning redis codec c command s plain.0 done) u j pj)
