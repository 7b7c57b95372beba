-- ===== src/Http/Resources/Cascade.antt =====
-- internal/http/controller/controller.go, cacheInvalidateCascade: what a deletion leaves in the cache.
use env_vault.Base.{
  String, ◌≡◌, ◌≢◌, ◌∙◌, refl, Bool, false, ◌&&◌, not, List, [], ◌∷◌, some, ok, arith, All, str_eq,
  eq_iff, if◌then◌else◌, inl, inr, Bool-cases,
}
use env_vault.Auth.{member}
use env_vault.Store.Cache.{
  CacheOps, Cache, ResourceType, org, project, env, folder, secret, type_key, type_ids_key,
}
use env_vault.Store.Cache.Redis.{CacheModel}
use env_vault.Store.Cache.Keys.{same_type}
use env_vault.Store.Cache.Meta.{delete_resource}
use env_vault.Store.Cache.Meta.View.{Kept, kept, kept-delete}
use env_vault.Http.Resources.{CascadeScope, with_cache, forget_ids, invalidate_cascade}

-- A Redis that carries out the removals that it is asked for.
abbrev pub IsAnswering : {R : Type 0} → CacheOps R → Type 0
IsAnswering {R} ops =
    ((keys : List String) (s : R) → (ops.del keys s).0 ≡ ok tt)
    × ((k m : String) (s : R) → (ops.srem k m s).0 ≡ ok tt)

abbrev gone : Kept
gone = record { listed = false; fields = [] }

abbrev pub IsId : String → Type 0
IsId id = id ≢ "ids"

module _ {R : Type 0} {ops : CacheOps R} (redis : CacheModel ops) (c : Cache)
    (answers : IsAnswering ops) where
  delete_resource-ok :
      (t : ResourceType) (id : String) (s : R) → (delete_resource ops c t id s).0 ≡ ok tt
  unfolding delete_resource
  delete_resource-ok t id s =
      rw
        (
          answers.0 (type_key c t id ∷ []) s,
          answers.1 (type_ids_key c t) id (ops.del (type_key c t id ∷ []) s).1,
        )
        refl

  -- Removing the copies of a list of ids of a type.
  kept-forget_ids :
      (t : ResourceType) (ids : List String) (s : R) (u : ResourceType) (j : String)
      → All IsId ids
      → kept redis c (forget_ids (some (ops, c)) t ids s) u j
        ≡ (if same_type t u && member j ids then gone else kept redis c s u j)
  unfolding forget_ids with_cache
  kept-forget_ids t [] s u j plain = ground arith
  kept-forget_ids t (id ∷ ids) s u j plain =
      let s' = (delete_resource ops c t id s).1 in
      kept-forget_ids t ids s' u j plain.1
      ∙ ground (
        arith,
        kept-delete redis c t u id j s plain.0 (delete_resource-ok t id s),
        eq_iff id j,
        eq_iff j id,
      )

-- What a deletion takes out of the cache: no secret.
abbrev pub is_dropped : CascadeScope → ResourceType → String → Bool
is_dropped scope org j = not (str_eq scope.organization_id "") && str_eq j scope.organization_id
is_dropped scope project j = member j scope.project_ids
is_dropped scope env j = member j scope.environment_ids
is_dropped scope folder j = member j scope.folder_ids
is_dropped scope secret j = false

-- The ids of a scope are not the word `ids`, which ends the key of a list.
abbrev pub HasIds : CascadeScope → Type 0
HasIds scope =
    IsId scope.organization_id
    × All IsId scope.project_ids
    × All IsId scope.environment_ids
    × All IsId scope.folder_ids

abbrev org_ids : CascadeScope → List String
org_ids scope = if str_eq scope.organization_id "" then [] else (scope.organization_id ∷ [])

org_ids-IsId : (scope : CascadeScope) → HasIds scope → All IsId (org_ids scope)
org_ids-IsId scope h = elim (Bool-cases (str_eq scope.organization_id "")) [
  | inl none_given ↦ rw none_given tt
  | inr given ↦ rw given (h.0, tt)
]

org_ids-member :
    (scope : CascadeScope) (j : String) → member j (org_ids scope) ≡ is_dropped scope org j
org_ids-member scope j = elim (Bool-cases (str_eq scope.organization_id "")) [
  | inl none_given ↦ rw none_given refl
  | inr given ↦ rw given (ground arith)
]

abbrev unless : Bool → Kept → Kept
unless b x = if b then gone else x

-- The four loops, one for a type, make one change of each entry.
four_steps :
    (scope : CascadeScope) (u : ResourceType) (j : String) (x a b d e : Kept)
    → a ≡ unless (same_type org u && member j (org_ids scope)) x
    → b ≡ unless (same_type project u && member j scope.project_ids) a
    → d ≡ unless (same_type env u && member j scope.environment_ids) b
    → e ≡ unless (same_type folder u && member j scope.folder_ids) d
    → e ≡ unless (is_dropped scope u j) x
four_steps scope org j x a b d e h1 h2 h3 h4 = h4 ∙ (h3 ∙ (h2 ∙ rw (org_ids-member scope j) at h1))
four_steps scope project j x a b d e h1 h2 h3 h4 = h4 ∙ (h3 ∙ rw h1 at h2)
four_steps scope env j x a b d e h1 h2 h3 h4 = ground (arith, h1, h2, h3, h4)
four_steps scope folder j x a b d e h1 h2 h3 h4 = ground (arith, h1, h2, h3, h4)
four_steps scope secret j x a b d e h1 h2 h3 h4 = ground (arith, h1, h2, h3, h4)

-- After a deletion, on a Redis that carries out the removals, the cache keeps no organization, project,
-- environment and folder of the scope that the repository has returned, and of all else, the
-- deleted secrets included, what it kept before.
pub kept-invalidate_cascade :
    {R : Type 0} {ops : CacheOps R} (redis : CacheModel ops) (c : Cache) (scope : CascadeScope)
    (s : R) (u : ResourceType) (j : String)
    → IsAnswering ops
    → HasIds scope
    → kept redis c (invalidate_cascade (some (ops, c)) scope s) u j ≡ (
        if is_dropped scope u j
        then (record { listed = false; fields = [] })
        else kept redis c s u j)
unfolding invalidate_cascade
kept-invalidate_cascade {ops} redis c scope s u j answers ids =
    let (org_id, projects, envs, folders) = ids in
    let copies = some (ops, c) in
    let s1 = forget_ids copies org (org_ids scope) s in
    let s2 = forget_ids copies project scope.project_ids s1 in
    let s3 = forget_ids copies env scope.environment_ids s2 in
    let k1 = kept-forget_ids redis c answers org (org_ids scope) s u j (org_ids-IsId scope ids) in
    let k2 = kept-forget_ids redis c answers project scope.project_ids s1 u j projects in
    let k3 = kept-forget_ids redis c answers env scope.environment_ids s2 u j envs in
    let k4 = kept-forget_ids redis c answers folder scope.folder_ids s3 u j folders in
    four_steps scope u j _ _ _ _ _ k1 k2 k3 k4
