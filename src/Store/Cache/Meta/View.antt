-- ===== src/Store/Cache/Meta/View.antt =====
-- internal/store/redis/cache.go, upsertResource and deleteResource: the cache is a map from a type and
-- an id to what is kept of the resource.
use env_vault.Base.{
  String, ◌≡◌, ◌≢◌, Bool, true, false, ◌&&◌, [], ◌∷◌, ok, Action, arith, str_eq, eq_iff, inl, inr,
  Result-cases, if◌then◌else◌,
}
use env_vault.Store.Cache.{
  ResourceType, Fields, put_fields, CacheOps, Cache, type_key, type_ids_key,
}
use env_vault.Store.Cache.Redis.{CacheModel}
use env_vault.Store.Cache.Keys.{same_type, type_key_eq, type_ids_key_eq, type_key-ne-ids}
use env_vault.Store.Cache.Meta.{pipelined, upsert_resource, delete_resource}

-- What is kept of a resource: whether it is listed, and its fields.
pub record Kept : Type 0 where
  pub listed : Bool
  pub fields : Fields

pub pipelined-ok :
    {R : Type 0} (first second : Action R (Unit {0})) (s : R)
    → (pipelined first second s).0 ≡ ok tt
    → ((first s).0 ≡ ok tt) × ((second (first s).1).0 ≡ ok tt)
pipelined-ok first second s h = elim (Result-cases (first s).0) [
  | inl (_, done) ↦ (done, ground arith)
  | inr (e, failed) ↦ absurd (ground arith)
]

module _ {R : Type 0} {ops : CacheOps R} (redis : CacheModel ops) (c : Cache) where
  abbrev pub kept : R → ResourceType → String → Kept
  kept s t id = record {
    listed = redis.has s (type_ids_key c t) id;
    fields = redis.hash s (type_key c t id);
  }

  -- Writing a resource whose write succeeds lists it and sets its fields, and changes what is kept of
  -- no other.
  pub kept-upsert :
      (t u : ResourceType) (id j : String) (fs : Fields) (s : R)
      → (upsert_resource ops c t id fs s).0 ≡ ok tt
      → kept (upsert_resource ops c t id fs s).1 u j ≡ (
          if same_type t u && str_eq id j
          then (record { listed = true; fields = put_fields fs (kept s t id).fields })
          else kept s u j)
  unfolding upsert_resource
  kept-upsert t u id j fs s h =
      let (set_fields, listed) =
        pipelined-ok (ops.hset (type_key c t id) fs) (ops.sadd (type_ids_key c t) id) s h in
      let s' = (ops.hset (type_key c t id) fs s).1 in
      ground (
        arith,
        redis.hset_ok (type_key c t id) fs s (type_key c u j) set_fields,
        redis.hset_keeps (type_key c t id) fs s (type_ids_key c u) j set_fields,
        redis.sadd_ok (type_ids_key c t) id s' (type_ids_key c u) j listed,
        redis.sadd_keeps (type_ids_key c t) id s' (type_key c u j) listed,
        type_key_eq c t u id j,
        type_ids_key_eq c t u,
      )

  pub kept-delete :
      (t u : ResourceType) (id j : String) (s : R)
      → id ≢ "ids"
      → (delete_resource ops c t id s).0 ≡ ok tt
      → kept (delete_resource ops c t id s).1 u j ≡ (
          if same_type t u && str_eq id j
          then (record { listed = false; fields = [] })
          else kept s u j)
  unfolding delete_resource
  kept-delete t u id j s named h =
      let (gone, unlisted) =
        pipelined-ok (ops.del (type_key c t id ∷ [])) (ops.srem (type_ids_key c t) id) s h in
      let s' = (ops.del (type_key c t id ∷ []) s).1 in
      ground (
        arith,
        redis.del_ok (type_key c t id ∷ []) s (type_key c u j) gone,
        redis.del_sets (type_key c t id ∷ []) s (type_ids_key c u) j gone,
        redis.srem_ok (type_ids_key c t) id s' (type_ids_key c u) j unlisted,
        redis.srem_keeps (type_ids_key c t) id s' (type_key c u j) unlisted,
        eq_iff (type_key c u j) (type_key c t id),
        eq_iff (type_key c t id) (type_key c u j),
        eq_iff (type_ids_key c u) (type_key c t id),
        eq_iff (type_key c t id) (type_ids_key c u),
        type_key_eq c t u id j,
        type_key-ne-ids c t u id named,
        type_ids_key_eq c t u,
      )
