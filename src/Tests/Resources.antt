-- ===== src/Tests/Resources.antt =====
-- Handlers of single resources, on a database that has and deletes everything.
use env_vault.Base.{ℕ, ◌+◌, String, ◌≡◌, refl, false, some, [], ◌∷◌, ok, err, not_found}
use env_vault.Service.Tree.{Entity}
use env_vault.Store.Cache.{folder}
use env_vault.Store.Cache.Meta.View.{kept}
use env_vault.Http.Folders.{World}
use env_vault.Http.Resources.{CascadeScope, IdOrCode, invalidate_cascade}
use env_vault.Http.Resources.Cascade.{IsAnswering, HasIds, kept-invalidate_cascade}
use env_vault.Http.Resources.Handlers.{ResourceRepository}
use env_vault.Tests.{differ}
use env_vault.Tests.Cache.{Redis, redis_ops, redis, cache, empty_redis}

abbrev entity : String → Entity
entity id = record {
  id = id;
  parent_id = "p0";
  code = "app";
  name = "App";
  comment = "";
  created_by = "alice";
  updated_by = "alice";
}

abbrev scope : CascadeScope
scope = record {
  organization_id = "";
  project_ids = "p1" ∷ [];
  environment_ids = "e1" ∷ [];
  folder_ids = "f1" ∷ "f2" ∷ [];
  secret_ids = "s1" ∷ [];
}

-- The state counts the writes.
abbrev repo : ResourceRepository ℕ
repo = record {
  create_organization = λ c n m a s. (ok (entity "o1"), s + 1);
  get_organization = λ id s. ok (entity id);
  get_organization_by_code = λ c s. ok (entity "o1");
  update_organization = λ id n m a s. (ok (entity id), s + 1);
  delete_organization = λ id a f s. (ok scope, s + 1);
  create_project = λ p c n m a es s. (ok (entity "p1"), s + 1);
  get_project = λ id s. ok (entity id);
  get_project_by_code = λ p c s. ok (entity "p1");
  update_project = λ id n m a s. (ok (entity id), s + 1);
  delete_project = λ id a s. (ok scope, s + 1);
  create_environment = λ p c n m a s. (ok (entity "e1"), s + 1);
  get_environment = λ id s. ok (entity id);
  get_environment_by_code = λ p c s. ok (entity "e1");
  update_environment = λ id n m a s. (ok (entity id), s + 1);
  delete_environment = λ id a s. (ok scope, s + 1);
  create_top_level_folders_in_envs = λ c n m a es s. (ok (entity "f1" ∷ []), s + 1);
  create_folders_across_envs = λ p c n m a es s. (ok (entity "f1" ∷ []), s + 1);
  get_folder = λ id s. ok (entity id);
  get_folder_by_code = λ p c s. ok (entity "f1");
  get_folder_context = λ id s. err not_found;
  update_folder = λ id n m a s. (ok (entity id), s + 1);
  delete_folder = λ id a s. (ok scope, s + 1);
}

answers : IsAnswering redis_ops
answers = (λ keys s. refl, λ k m s. refl)

ids : HasIds scope
ids = (
  differ "" "ids" refl,
  (differ "p1" "ids" refl, tt),
  (differ "e1" "ids" refl, tt),
  (differ "f1" "ids" refl, (differ "f2" "ids" refl, tt)),
)

kept-invalidate_cascade_example :
    kept redis cache (invalidate_cascade (some (redis_ops, cache)) scope empty_redis) folder "f2"
    ≡ (record { listed = false; fields = [] })
kept-invalidate_cascade_example =
    kept-invalidate_cascade redis cache scope empty_redis folder "f2" answers ids

abbrev by_code : IdOrCode
by_code = record { parent_id = "o1"; id = ""; code = "app" }

abbrev world : World ℕ Redis
world = record { db = 0; redis = empty_redis }
