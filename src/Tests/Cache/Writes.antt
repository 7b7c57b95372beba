-- ===== src/Tests/Cache/Writes.antt =====
-- internal/store/redis/cache.go at concrete inputs: writes, removals and warm-ups.
use env_vault.Base.{◌≡◌, inl, refl, List, [], ◌∷◌, ok, arith}
use env_vault.Text.Decimal.{itoa}
use env_vault.Service.Tree.{FolderTreeEntry, TreeMetaSnapshot}
use env_vault.Service.Secret.{SecretCacheRecord, encoded}
use env_vault.Store.Cache.{org, secret, field, put_fields, atoi, type_key, type_ids_key, secret_key}
use env_vault.Store.Cache.Meta.{
  upsert_resource, delete_resource, each_upsert, scan_type, warm_tree, list_all_meta,
  hash_to_folder_entry,
}
use env_vault.Store.Cache.Meta.View.{kept}
use env_vault.Store.Cache.Meta.Hashes.{as_cached}
use env_vault.Store.Cache.Meta.Listed.{Among, warm_tree_listed}
use env_vault.Store.Cache.Secrets.{upsert_secret}
use env_vault.Store.Cache.Refines.{
  Command, write, remove, write_secret, performs, meanings, performs_refines,
}
use env_vault.Tests.{differ}
use env_vault.Tests.Cache.{redis_ops, redis, codec, cache, empty_redis}
use env_vault.Tests.Secrets.{a_secret, sealed_text}

abbrev a_record : SecretCacheRecord
a_record = record { secret = a_secret; value_ciphertext = encoded (sealed_text "v") }

abbrev commands : List Command
commands = write org "o1" (("code", "acme") ∷ []) ∷ write_secret a_record ∷ remove org "o1" ∷ []

performed : (performs redis_ops codec cache commands empty_redis).0 ≡ ok tt
unfolding performs upsert_resource delete_resource upsert_secret field type_key secret_key
performed = refl

performs_refines_example :
    kept redis cache (performs redis_ops codec cache commands empty_redis).1 secret "s1"
    ≡ meanings codec commands (kept redis cache empty_redis) secret "s1"
performs_refines_example =
    performs_refines redis codec cache commands empty_redis secret "s1"
      (
        (differ "o1" "ids" refl, omega arith),
        ((differ "s1" "ids" refl, omega arith), ((differ "o1" "ids" refl, omega arith), tt)),
      )
      performed (omega arith)

abbrev svc : FolderTreeEntry
svc = record {
  id = "f1";
  code = "svc";
  name = "Service";
  comment = "";
  sort_order = 3;
  created_by_label = "Alice";
  updated_by_label = "Alice";
  created_at = 5;
  updated_at = 6;
  level = 1;
  environment_id = "e1";
  parent_id = "";
  project_id = "p1";
  created_by = "alice";
  updated_by = "alice";
}

abbrev snapshot : TreeMetaSnapshot
snapshot = record { orgs = []; projects = []; envs = []; folders = svc ∷ [] }

abbrev shown : TreeMetaSnapshot
shown = record snapshot { folders = as_cached svc ∷ [] }

warmed : (warm_tree redis_ops cache snapshot empty_redis).0 ≡ ok tt
unfolding warm_tree each_upsert upsert_resource
warmed = refl

listed : list_all_meta redis_ops cache (warm_tree redis_ops cache snapshot empty_redis).1 ≡ ok shown
unfolding warm_tree each_upsert upsert_resource list_all_meta scan_type hash_to_folder_entry
    put_fields type_key type_ids_key itoa atoi
listed = refl

warm_tree_listed_example : Among (as_cached svc) shown.folders
warm_tree_listed_example =
    warm_tree_listed redis cache empty_redis snapshot shown svc
      (record { level = inl refl; named = refl; in_env = refl; in_project = refl }) (inl (refl, tt))
      warmed listed
