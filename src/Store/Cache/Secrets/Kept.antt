-- ===== src/Store/Cache/Secrets/Kept.antt =====
-- internal/store/redis/cache.go, UpsertSecret and DeleteSecret: what is kept of a secret.
use env_vault.Base.{
  String, ◌≡◌, ◌≢◌, refl, ◌∙◌, true, false, ◌&&◌, ◌||◌, Option, [], ◌∷◌, ok, Action, arith, str_eq,
  eq_iff, inl, inr, Bool-cases, if◌then◌else◌,
}
use env_vault.Base.Actions.{◌>>◌, read, bind-leaves, then-leaves}
use env_vault.Text.Cut.{Lacks}
use env_vault.Service.Secret.{SecretCacheRecord}
use env_vault.Store.Cache.{
  ResourceType, secret, put_fields, CacheOps, Codec, Cache, type_key, type_ids_key, ids_key,
  secret_key, path_key,
}
use env_vault.Store.Cache.Redis.{CacheModel}
use env_vault.Store.Cache.Keys.{
  same_type, type_key_eq, type_ids_key_eq, type_key-ne-ids, ids_key_lem, secret_key_lem,
  path_key-ne-type_key, path_key-ne-ids, type_key-ne-path_key, ids-ne-path_key, str_eq-sym_false,
}
use env_vault.Store.Cache.Meta.View.{kept}
use env_vault.Store.Cache.Secrets.{
  secret_fields, text_or_empty, forget_path, keep_path, keys_of, upsert_secret, delete_secret,
}

module _ {R : Type 0} {ops : CacheOps R} (redis : CacheModel ops) (codec : Codec) (c : Cache) where
  -- A path key is no resource of any type.
  kept-forget_path :
      (old new : String) (s : R) (u : ResourceType) (j : String)
      → Lacks b':' j
      → (forget_path ops codec c old new s).0 ≡ ok tt
      → kept redis c (forget_path ops codec c old new s).1 u j ≡ kept redis c s u j
  kept-forget_path old new s u j plain h = elim (Bool-cases (str_eq old "" || str_eq old new)) [
    | inl stays ↦ rw stays refl
    | inr goes ↦
        let gone : (ops.del (path_key c old ∷ []) s).0 ≡ ok tt = rw goes at h in
        rw goes (
          ground (
            arith,
            redis.del_ok (path_key c old ∷ []) s (type_key c u j) gone,
            redis.del_sets (path_key c old ∷ []) s (type_ids_key c u) j gone,
            type_key-ne-path_key c old u j plain,
            ids-ne-path_key c old u,
          ))
  ]

  kept-keep_path :
      (path id : String) (s : R) (u : ResourceType) (j : String)
      → Lacks b':' j
      → (keep_path ops codec c path id s).0 ≡ ok tt
      → kept redis c (keep_path ops codec c path id s).1 u j ≡ kept redis c s u j
  kept-keep_path path id s u j plain h = elim (Bool-cases (str_eq path "")) [
    | inl empty ↦ rw empty refl
    | inr full ↦
        let done : (ops.set (path_key c path) id s).0 ≡ ok tt = rw full at h in
        rw full (
          ground (
            arith,
            redis.set_keeps (path_key c path) id s (type_key c u j) done,
            redis.set_sets (path_key c path) id s (type_ids_key c u) j done,
            path_key-ne-type_key c path u j plain,
            path_key-ne-ids c path u,
          ))
  ]

  -- Writing a secret whose write succeeds lists it and sets its fields, and changes what is kept of no
  -- other resource; the paths stand apart.
  pub kept-upsert_secret :
      (r : SecretCacheRecord) (u : ResourceType) (j : String) (s : R)
      → Lacks b':' r.secret.id
      → Lacks b':' j
      → (upsert_secret ops codec c r s).0 ≡ ok tt
      → kept redis c (upsert_secret ops codec c r s).1 u j ≡ (
          if same_type secret u && str_eq r.secret.id j
          then (record {
            listed = true;
            fields = put_fields (secret_fields codec r) (kept redis c s secret r.secret.id).fields;
          })
          else kept redis c s u j)
  unfolding upsert_secret
  kept-upsert_secret r u j s named plain h =
      let key = secret_key c r.secret.id in
      let add : Action R (Unit {0}) = ops.sadd (ids_key c) r.secret.id in
      let keep : Action R (Unit {0}) = keep_path ops codec c r.secret.path r.secret.id in
      let put : Action R (Unit {0}) = ops.hset key (secret_fields codec r) in
      let (old, _, h1, e1) = bind-leaves (read (ops.hget key "path")) _ s h in
      let forget : Action R (Unit {0}) =
        forget_path ops codec c (text_or_empty old) r.secret.path in
      let (forgot, h2, e2) = then-leaves forget (put >> (keep >> add)) s h1 in
      let (put_ok, h3, e3) = then-leaves put (keep >> add) (forget s).1 h2 in
      let (keep_ok, added, e4) = then-leaves keep add (put (forget s).1).1 h3 in
      let kept_path = (keep (put (forget s).1).1).1 in
      let final : (upsert_secret ops codec c r s).1 ≡ (add kept_path).1 = e1 ∙ e2 ∙ e3 ∙ e4 in
      rw final (
        ground (
          arith,
          redis.sadd_ok (ids_key c) r.secret.id kept_path (type_ids_key c u) j added,
          redis.sadd_keeps (ids_key c) r.secret.id kept_path (type_key c u j) added,
          kept-keep_path r.secret.path r.secret.id (put (forget s).1).1 u j plain keep_ok,
          redis.hset_ok key (secret_fields codec r) (forget s).1 (type_key c u j) put_ok,
          redis.hset_keeps key (secret_fields codec r) (forget s).1 (type_ids_key c u) j put_ok,
          kept-forget_path (text_or_empty old) r.secret.path s u j plain forgot,
          kept-forget_path (text_or_empty old) r.secret.path s secret r.secret.id named forgot,
          secret_key_lem c r.secret.id,
          ids_key_lem c,
          type_key_eq c secret u r.secret.id j,
          type_ids_key_eq c secret u,
        ))

  kept-del :
      (id j : String) (path : Option String) (u : ResourceType) (s : R)
      → Lacks b':' j
      → id ≢ "ids"
      → (ops.del (keys_of ops codec c id path) s).0 ≡ ok tt
      → kept redis c (ops.del (keys_of ops codec c id path) s).1 u j ≡ (record {
        listed = (kept redis c s u j).listed;
        fields = if same_type secret u && str_eq id j then [] else (kept redis c s u j).fields;
      })
  kept-del id j path u s plain other h = ground (
    arith,
    redis.del_ok (keys_of ops codec c id path) s (type_key c u j) h,
    redis.del_sets (keys_of ops codec c id path) s (type_ids_key c u) j h,
    secret_key_lem c id,
    type_key_eq c secret u id j,
    eq_iff (type_key c u j) (type_key c secret id),
    eq_iff (type_key c secret id) (type_key c u j),
    str_eq-sym_false (type_key c secret id) (type_ids_key c u)
        (type_key-ne-ids c secret u id other),
    type_key-ne-path_key c (text_or_empty path) u j plain,
    ids-ne-path_key c (text_or_empty path) u,
  )

  pub kept-delete_secret :
      (id : String) (u : ResourceType) (j : String) (s : R)
      → id ≢ "ids"
      → Lacks b':' j
      → (delete_secret ops codec c id s).0 ≡ ok tt
      → kept redis c (delete_secret ops codec c id s).1 u j ≡ (
          if same_type secret u && str_eq id j
          then (record { listed = false; fields = [] })
          else kept redis c s u j)
  unfolding delete_secret
  kept-delete_secret id u j s other plain h =
      let remove : Action R (Unit {0}) = ops.srem (ids_key c) id in
      let (path, _, h1, e1) = bind-leaves (read (ops.hget (secret_key c id) "path")) _ s h in
      let del : Action R (Unit {0}) = ops.del (keys_of ops codec c id path) in
      let (deleted, removed, e2) = then-leaves del remove s h1 in
      let final : (delete_secret ops codec c id s).1 ≡ (remove (del s).1).1 = e1 ∙ e2 in
      rw final (
        ground (
          arith,
          kept-del id j path u s plain other deleted,
          redis.srem_ok (ids_key c) id (del s).1 (type_ids_key c u) j removed,
          redis.srem_keeps (ids_key c) id (del s).1 (type_key c u j) removed,
          ids_key_lem c,
          type_ids_key_eq c secret u,
        ))
