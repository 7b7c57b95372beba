-- ===== src/Tests/Cache/Searches.antt =====
-- internal/store/redis/cache.go at concrete inputs: a search.
use env_vault.Base.{◌≤◌, ◌≡◌, refl, none, List, [], ◌∷◌, All, length, ok, arith}
use env_vault.Text.{to_lower, contains}
use env_vault.Store.Cache.{org, Fields, field, put_fields, type_key, type_ids_key}
use env_vault.Store.Cache.Meta.{upsert_resource}
use env_vault.Store.Cache.Search.{
  GlobalSearchHit, search_type, build_hit, first_hits, match_keyword_on_fields, contains_fold,
}
use env_vault.Store.Cache.Search.Sound.{Found, search_type_sound}
use env_vault.Tests.Cache.{Redis, redis_ops, redis, codec, cache, empty_redis}

abbrev acme : Fields
acme = ("id", "o1") ∷ ("code", "acme") ∷ ("name", "Acme") ∷ []

abbrev stored : Redis
stored = (upsert_resource redis_ops cache org "o1" acme empty_redis).1

abbrev hits : List GlobalSearchHit
hits = build_hit org acme "code" ∷ []

found : search_type redis_ops codec cache none org "cm" 50 stored ≡ ok hits
unfolding search_type upsert_resource put_fields type_key type_ids_key first_hits
    match_keyword_on_fields contains_fold field to_lower contains build_hit
found = refl

search_type_sound_example :
    (length hits ≤ 50) × All (Found redis codec cache none org "cm" stored) hits
search_type_sound_example =
    search_type_sound redis codec cache none org "cm" 50 stored hits (omega arith) found
