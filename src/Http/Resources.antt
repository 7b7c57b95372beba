-- ===== src/Http/Resources.antt =====
-- internal/http/controller/resource_organization.go, resource_project.go, resource_environment.go and
-- resource_folder.go: to read, update and delete one resource by its id or its code, and to create
-- one; with the copies in the cache (internal/http/controller/controller.go).
pub mod Cascade
pub mod Allowed
pub mod Handlers
pub mod Unchecked
use Prim.Native.Char.{code}
use Prim.Native.String
use Prim.Native.String.{[], ◌∷◌}
use mathlib.Core.List.{[], ◌∷◌}
use env_vault.Base.{
  ℕ, String, Bool, true, false, ◌&&◌, ◌||◌, not, ◌==◌, leb, Option, none, some, List, ◌++◌, Result,
  ok, err, Action, str_eq, if◌then◌else◌,
}
use env_vault.Base.Int.{pos}
use env_vault.Auth.{UserInfo, Authorizer}
use env_vault.Service.Tree.{Entity}
use env_vault.Store.Cache.{CacheOps, Cache, ResourceType, org, project, env, folder}
use env_vault.Store.Cache.Meta.{delete_resource}
use env_vault.Http.{Reply, text, fail, write, allow_scope}
use env_vault.Http.Folders.{World}

-- CascadeScope of internal/domain/tree.go: what a deletion has deleted.
pub record CascadeScope : Type 0 where
  pub organization_id : String
  pub project_ids : List String
  pub environment_ids : List String
  pub folder_ids : List String
  pub secret_ids : List String

-- The cache, none when there is no Redis.
abbrev pub Copies : Type 0 → Type 0
Copies R = Option (CacheOps R × Cache)

-- `cacheUpsert` and `cacheDelete`: an error of the cache is only logged
unfoldable pub with_cache :
    {R : Type 0} → Copies R → (CacheOps R → Cache → Action R (Unit {0})) → R → R
with_cache none f r = r
with_cache (some (ops, c)) f r = (f ops c r).1

module _ {R : Type 0} (copies : Copies R) where
  unfoldable pub forget_ids : ResourceType → List String → R → R
  unfolding with_cache
  forget_ids t [] r = r
  forget_ids t (id ∷ ids) r =
      forget_ids t ids (with_cache copies (λ ops c. delete_resource ops c t id) r)

  unfoldable pub invalidate_cascade : CascadeScope → R → R
  unfolding forget_ids
  invalidate_cascade scope r =
      let orgs : List String =
        if str_eq scope.organization_id "" then [] else (scope.organization_id ∷ []) in
      forget_ids folder scope.folder_ids (
        forget_ids env scope.environment_ids
          (forget_ids project scope.project_ids (forget_ids org orgs r)))

abbrev is_code_char : ℕ → Bool
is_code_char c = leb b'0' c && leb c b'9' || leb b'a' c && leb c b'z'

-- the rest of a code; a dash is followed by a character, and does not follow one
unfoldable pub is_code_from : Bool → String → Bool
is_code_from start [] = not start
is_code_from start (c ∷ s) =
    let dash = code c == b'-' && not start in
    let rest = is_code_from dash s in (is_code_char (code c) || dash) && rest

-- codePattern: `^[a-z0-9]+(-[a-z0-9]+)*$`
unfoldable pub is_code : String → Bool
unfolding is_code_from
is_code s = is_code_from true s

pub record IdOrCode : Type 0 where
  pub parent_id : String
  pub id : String
  pub code : String

-- The calls of the repository for one type of resource, the names that stand for it, and what is
-- written to the cache after a write.
pub record Kind (S : Type 0) (R : Type 0) : Type 0 where
  pub name : String
  pub scope_type : String
  pub read : String
  pub update : String
  pub delete : String
  pub get : String → S → Result Entity
  pub get_by_code : String → String → S → Result Entity
  pub set : String → String → String → String → Action S Entity
  pub remove : String → String → Action S CascadeScope
  pub copy : Entity → S → R → R

-- `validateIdOrCode`
unfoldable pub names_one : IdOrCode → Bool
names_one req = not (str_eq req.id "" && str_eq req.code "")

abbrev id_of : Result Entity → Result String
id_of (err e) = err e
id_of (ok item) = ok item.id

-- `resolveIdOrCode` and the lookup by code
unfoldable pub resolve : {S R : Type 0} → Kind S R → IdOrCode → S → Result String
resolve kind req s =
    if str_eq req.id "" then id_of (kind.get_by_code req.parent_id req.code s) else ok req.id

abbrev pub Written : Type 0 → Type 0 → Type 0 → Type 0
Written S R A = List (Reply A) × World S R

module _ {S R : Type 0} (authorizer : Option (Authorizer S)) (user : UserInfo) where
  abbrev pub required : {A : Type 0} → Kind S R → Reply A
  required kind = fail 400 (pos 1002) (text (String.◌++◌ kind.name " id or code is required"))

  -- what runs when allowScope lets the caller through
  abbrev pub if_allowed :
      {A : Type 0} → Bool × List (Reply A) → World S R → Written S R A → Written S R A
  if_allowed (true, written) w (replies, w') = (written ++ replies, w')
  if_allowed (false, written) w rest = (written, w)

  abbrev pub updated : Kind S R → R → Result Entity × S → Written S R Entity
  updated kind r (err e, s) = (write (err e) ∷ [], record { db = s; redis = r })
  updated kind r (ok item, s) =
      (write (ok item) ∷ [], record { db = s; redis = kind.copy item s r })

  abbrev update_found : Kind S R → String → String → World S R → Result String → Written S R Entity
  update_found kind name comment w (err e) = (write (err e) ∷ [], w)
  update_found kind name comment w (ok id) =
      if_allowed (allow_scope authorizer user kind.update kind.scope_type id w.db) w
        (updated kind w.redis (kind.set id name comment user.user_id w.db))

  unfoldable pub update_resource :
      Kind S R → IdOrCode → String → String → World S R → Written S R Entity
  unfolding names_one resolve allow_scope write
  update_resource kind req name comment w =
      if names_one req
      then update_found kind name comment w (resolve kind req w.db)
      else (required kind ∷ [], w)

  abbrev pub deleted : Copies R → R → Result CascadeScope × S → Written S R (Unit {0})
  deleted copies r (err e, s) = (write (err e) ∷ [], record { db = s; redis = r })
  deleted copies r (ok scope, s) =
      (write (ok tt) ∷ [], record { db = s; redis = invalidate_cascade copies scope r })

  -- the permissions are asked for one after the other
  abbrev pub if_all_allowed :
      Kind S R → String → List String → World S R → Written S R (Unit {0}) → Written S R (Unit {0})
  if_all_allowed kind id [] w rest = rest
  if_all_allowed kind id (permission ∷ permissions) w rest =
      if_allowed (allow_scope authorizer user permission kind.scope_type id w.db) w
        (if_all_allowed kind id permissions w rest)

  abbrev delete_found :
      Copies R → Kind S R → List String → World S R → Result String → Written S R (Unit {0})
  delete_found copies kind also w (err e) = (write (err e) ∷ [], w)
  delete_found copies kind also w (ok id) =
      if_all_allowed kind id (kind.delete ∷ also) w
        (deleted copies w.redis (kind.remove id user.user_id w.db))

  -- `also` is what a forced deletion asks for beside
  unfoldable pub delete_one :
      Copies R → Kind S R → List String → IdOrCode → World S R → Written S R (Unit {0})
  unfolding names_one resolve allow_scope write invalidate_cascade
  delete_one copies kind also req w =
      if names_one req
      then delete_found copies kind also w (resolve kind req w.db)
      else (required kind ∷ [], w)
