-- ===== src/Store/Cache/Search/Sound.antt =====
-- internal/store/redis/cache.go, searchType: every hit comes from a listed resource that has the keyword.
use env_vault.Base.{
  ℕ, ◌≤◌, String, ◌≡◌, sym, ◌∙◌, true, Option, some, List, [], ◌∷◌, length, ok, All, arith, bind-ok,
  inl, inr, refl, Option-cases, if◌then◌else◌,
}
use env_vault.Service.Secret.{Encryptor}
use env_vault.Service.Secret.Batch.{collect}
use env_vault.Store.Cache.Keys.{same_type}
use env_vault.Store.Cache.{
  ResourceType, org, project, env, folder, secret, field, Fields, CacheOps, Codec, Cache, type_key,
  type_ids_key,
}
use env_vault.Store.Cache.Redis.{CacheModel}
use env_vault.Store.Cache.Meta.View.{kept}
use env_vault.Store.Cache.Search.{
  GlobalSearchHit, build_hit, first_hits, hit_of, search_type, match_keyword_on_fields,
}
use env_vault.Store.Cache.Search.Hits.{
  Shows, length-first_hits, All-first_hits, All-collect, match-Shows,
}

-- What every hit shows of its hash.
build_hit-texts :
    (t : ResourceType) (h : Fields) (f : String)
    → ((build_hit t h f).id ≡ field "id" h)
      × ((build_hit t h f).code ≡ field "code" h)
      × ((build_hit t h f).name ≡ field "name" h)
      × ((build_hit t h f).comment ≡ field "comment" h)
      × ((build_hit t h f).key ≡ (if same_type t secret then field "key" h else ""))
unfolding build_hit
build_hit-texts org h f = (refl, refl, refl, refl, refl)
build_hit-texts project h f = (refl, refl, refl, refl, refl)
build_hit-texts env h f = (refl, refl, refl, refl, refl)
build_hit-texts folder h f = (refl, refl, refl, refl, refl)
build_hit-texts secret h f = (refl, refl, refl, refl, refl)

module _ {R : Type 0} {ops : CacheOps R} (redis : CacheModel ops) (codec : Codec) (c : Cache)
    (encryptor : Option Encryptor) (t : ResourceType) (keyword : String) (s : R) where
  -- The resource that a hit stands for: it is listed, the hit has the texts of its hash, and shows the
  -- keyword.
  pub record Found (x : GlobalSearchHit) : Type 0 where
    pub id : String
    pub listed : (kept redis c s t id).listed ≡ true
    pub own_id : x.id ≡ field "id" (kept redis c s t id).fields
    pub own_code : x.code ≡ field "code" (kept redis c s t id).fields
    pub own_name : x.name ≡ field "name" (kept redis c s t id).fields
    pub own_comment : x.comment ≡ field "comment" (kept redis c s t id).fields
    pub own_key :
        x.key ≡ (if same_type t secret then field "key" (kept redis c s t id).fields else "")
    pub shows : Shows codec encryptor t keyword (kept redis c s t id).fields x

  hit-Found :
      (id : String) (h : Fields) (x : GlobalSearchHit)
      → (kept redis c s t id).listed ≡ true
      → h ≡ (kept redis c s t id).fields
      → hit_of codec encryptor t keyword h ≡ some x
      → Found x
  hit-Found id [] x listed same hit = absurd (ground arith)
  hit-Found id (f ∷ fs) x listed same hit =
      elim (Option-cases (match_keyword_on_fields codec encryptor t keyword (f ∷ fs))) [
        | inl missed ↦ absurd (ground arith)
        | inr (field, matched) ↦
            let built : x ≡ build_hit t (f ∷ fs) field = ground arith in
            let texts = build_hit-texts t (f ∷ fs) field in
            record {
              id = id;
              listed = listed;
              own_id = rw (built, ← same) texts.0;
              own_code = rw (built, ← same) texts.1;
              own_name = rw (built, ← same) texts.2;
              own_comment = rw (built, ← same) texts.3;
              own_key = rw (built, ← same) texts.4;
              shows =
                  rw (← same)
                    (rw built (match-Shows codec encryptor t keyword field (f ∷ fs) matched));
            }
      ]

-- A search of one type with a limit of at least 1 that returns has at most `limit` hits, and each
-- stands for a resource that Redis lists under that type: the id, code, name and comment of the hit
-- are those of the resource's hash, and so is the key of a secret, which no other hit has; and
-- either the field that it names has the keyword, or the resource is a secret whose value, opened by the encryptor, has it.
pub search_type_sound :
    {R : Type 0} {ops : CacheOps R} (redis : CacheModel ops) (codec : Codec) (c : Cache)
    (encryptor : Option Encryptor) (t : ResourceType) (keyword : String) (limit : ℕ) (s : R)
    (hits : List GlobalSearchHit)
    → 1 ≤ limit
    → search_type ops codec c encryptor t keyword limit s ≡ ok hits
    → (length hits ≤ limit) × All (Found redis codec c encryptor t keyword s) hits
unfolding search_type
search_type_sound {ops} redis codec c encryptor t keyword limit s hits room h =
    let (ids, members, h1) = bind-ok (ops.smembers (type_ids_key c t) s) _ h in
    let (hashes, got, h2) = bind-ok (collect (λ id. ops.hget_all (type_key c t id) s) ids) _ h1 in
    let same : first_hits limit (hit_of codec encryptor t keyword) hashes ≡ hits = ground arith in
    rw (← same) (
      length-first_hits limit (hit_of codec encryptor t keyword) hashes room,
      All-first_hits _ (Found redis codec c encryptor t keyword s) limit
          (hit_of codec encryptor t keyword) hashes
          (λ hash x (id, there, read) hit.
            hit-Found redis codec c encryptor t keyword s id hash x
              (sym (redis.smembers_ok (type_ids_key c t) s ids id members) ∙ there)
              (redis.hget_all_ok (type_key c t id) s hash read) hit)
          (All-collect (λ id. ops.hget_all (type_key c t id) s) ids hashes got),
    )
