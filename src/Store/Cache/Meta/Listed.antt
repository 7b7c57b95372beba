-- ===== src/Store/Cache/Meta/Listed.antt =====
-- internal/store/redis/cache.go, WarmTree and ListAllMeta: what is warmed is listed.
use env_vault.Base.{
  String, ◌≡◌, ◌≢◌, ◌⊎◌, refl, ap, sym, ◌∙◌, true, false, some, List, [], ◌∷◌, Result, ok, Action,
  All, Exists, arith, str_eq, eq_iff, eq_refl, inl, inr, Result-cases, Bool-cases, Option-cases,
  bind-ok,
}
use mathlib.Core.Path.{subst}
use env_vault.Base.Actions.{then-leaves}
use env_vault.Auth.{member}
use env_vault.Service.Tree.{FolderTreeEntry, TreeMetaSnapshot}
use env_vault.Service.Secret.Batch.{is_empty, collect}
use env_vault.Store.Cache.{
  org, project, env, folder, Fields, put_fields, CacheOps, Cache, type_key, type_ids_key,
}
use env_vault.Store.Cache.Redis.{CacheModel}
use env_vault.Store.Cache.Meta.{
  folder_fields, hash_to_folder_entry, present, folder_entries, upsert_folder, each_upsert,
  upsert_org, upsert_project, upsert_environment, pipelined, scan_type, list_all_meta, warm_tree,
}
use env_vault.Store.Cache.Meta.View.{Kept, kept, kept-upsert, pipelined-ok}
use env_vault.Store.Cache.Meta.Hashes.{IsPlaced, as_cached, hash_to_folder_entry-put}

-- The folder occurs, and no folder after that has its id.
abbrev pub IsLast : FolderTreeEntry → List FolderTreeEntry → Type 0
IsLast f [] = ⊥
IsLast f (g ∷ gs) = (g ≡ f) × All (λ h. h.id ≢ f.id) gs ⊎ IsLast f gs

abbrev pub Among : {A : Type 0} → A → List A → Type 0
Among a xs = Exists (λ x. x ≡ a) xs

Among-present :
    (h : Fields) (hs : List Fields) → is_empty h ≡ false → Among h hs → Among h (present hs)
Among-present h [] full there = there
Among-present h (x ∷ xs) full (inl here) = rw (here, full) (inl refl)
Among-present h (x ∷ xs) full (inr later) = elim (Bool-cases (is_empty x)) [
  | inl empty ↦ rw empty (Among-present h xs full later)
  | inr other ↦ rw other (inr (Among-present h xs full later))
]

Among-folder_entries :
    (h : Fields) (f : FolderTreeEntry) (hs : List Fields)
    → hash_to_folder_entry h ≡ some f
    → Among h hs
    → Among f (folder_entries hs)
Among-folder_entries h f [] read there = there
Among-folder_entries h f (x ∷ xs) read (inl here) = rw (here, folder_entries, read) (inl refl)
Among-folder_entries h f (x ∷ xs) read (inr later) =
    let there = Among-folder_entries h f xs read later in
    elim (Option-cases (hash_to_folder_entry x)) [
      | inl missing ↦ rw (folder_entries, missing) there
      | inr (entry, found) ↦ rw (folder_entries, found) (inr there)
    ]

Among-collect :
    {B : Type 0} (read : String → Result B) (id : String) (ids : List String) (out : List B)
    → collect read ids ≡ ok out
    → member id ids ≡ true
    → (b : B) × (read id ≡ ok b) × Among b out
Among-collect read id [] out h m = absurd (ground arith)
Among-collect read id (x ∷ xs) out h m = elim (Result-cases (read x)) [
  | inr (e, failed) ↦ absurd (ground arith)
  | inl (b, found) ↦ elim (Result-cases (collect read xs)) [
    | inr (e, failed) ↦ absurd (ground arith)
    | inl (bs, rest) ↦
        let all_out : b ∷ bs ≡ out = ground arith in
        elim (Bool-cases (str_eq id x)) [
          | inl same ↦
              let equal : id ≡ x = ground (arith, eq_iff id x) in
              (b, rw equal found, rw (← all_out) (inl refl))
          | inr other ↦
              let (b', found', there) = Among-collect read id xs bs rest (ground arith) in
              (b', found', rw (← all_out) (inr there))
        ]
  ]
]

Among_of_none :
    (h : Fields) (f : FolderTreeEntry) → hash_to_folder_entry h ≡ some f → is_empty h ≡ false
unfolding hash_to_folder_entry
Among_of_none [] f read = absurd (ground arith)
Among_of_none (x ∷ h) f read = refl

module _ {R : Type 0} {ops : CacheOps R} (redis : CacheModel ops) (c : Cache) where
  -- The folder is listed, and its hash reads back as what it keeps of the folder.
  pub record IsCached (s : R) (f : FolderTreeEntry) : Type 0 where
    pub listed : (kept redis c s folder f.id).listed ≡ true
    pub reads : hash_to_folder_entry (kept redis c s folder f.id).fields ≡ some (as_cached f)

  scan_type-Among :
      (s : R) (f : FolderTreeEntry) (hashes : List Fields)
      → IsCached s f
      → scan_type ops c folder s ≡ ok hashes
      → Among (as_cached f) (folder_entries hashes)
  unfolding scan_type
  scan_type-Among s f hashes cached h =
      elim (Result-cases (ops.smembers (type_ids_key c folder) s)) [
        | inr (e, failed) ↦ absurd (ground arith)
        | inl (ids, members) ↦
            elim (Result-cases (collect (λ id. ops.hget_all (type_key c folder id) s) ids)) [
              | inr (e, failed) ↦ absurd (ground arith)
              | inl (hs, got) ↦
                  let shown : present hs ≡ hashes = ground arith in
                  let (fields, read, there) =
                    Among-collect (λ id. ops.hget_all (type_key c folder id) s) f.id ids hs got
                      (redis.smembers_ok (type_ids_key c folder) s ids f.id members
                        ∙ cached.listed) in
                  let stored = redis.hget_all_ok (type_key c folder f.id) s fields read in
                  let decoded : hash_to_folder_entry fields ≡ some (as_cached f) =
                    rw stored cached.reads in
                  rw (← shown) (
                    Among-folder_entries fields (as_cached f) (present hs) decoded
                      (Among-present fields hs (Among_of_none fields (as_cached f) decoded) there))
            ]
      ]

  -- A cached folder is in every list that succeeds.
  pub cached_folder_listed :
      (s : R) (f : FolderTreeEntry) (snapshot : TreeMetaSnapshot)
      → IsCached s f
      → list_all_meta ops c s ≡ ok snapshot
      → Among (as_cached f) snapshot.folders
  unfolding list_all_meta
  cached_folder_listed s f snapshot cached h =
      let (_, _, h1) = bind-ok (scan_type ops c org s) _ h in
      let (_, _, h2) = bind-ok (scan_type ops c project s) _ h1 in
      let (_, _, h3) = bind-ok (scan_type ops c env s) _ h2 in
      let (hashes, scanned, h4) = bind-ok (scan_type ops c folder s) _ h3 in
      let same : folder_entries hashes ≡ snapshot.folders = ground arith in
      rw (← same) (scan_type-Among s f hashes cached scanned)

  upsert_folder-IsCached :
      (s : R) (f : FolderTreeEntry)
      → IsPlaced f
      → (upsert_folder ops c f s).0 ≡ ok tt
      → IsCached (upsert_folder ops c f s).1 f
  upsert_folder-IsCached s f placed h =
      let after = kept-upsert redis c folder folder f.id f.id (folder_fields f) s h in
      let now : kept redis c (upsert_folder ops c f s).1 folder f.id ≡ record {
        listed = true;
        fields = put_fields (folder_fields f) (kept redis c s folder f.id).fields;
      } =
        ground (arith, after, eq_refl f.id) in
      record {
        listed = ap (λ (k : Kept). k.listed) now;
        reads =
            ap (λ (k : Kept). hash_to_folder_entry k.fields) now
            ∙ hash_to_folder_entry-put f (kept redis c s folder f.id).fields placed;
      }

  -- A write of another folder keeps it.
  upsert_folder-keeps :
      (s : R) (f g : FolderTreeEntry)
      → g.id ≢ f.id
      → IsCached s f
      → (upsert_folder ops c g s).0 ≡ ok tt
      → IsCached (upsert_folder ops c g s).1 f
  upsert_folder-keeps s f g other cached h =
      let after = kept-upsert redis c folder folder g.id f.id (folder_fields g) s h in
      let now : kept redis c (upsert_folder ops c g s).1 folder f.id ≡ kept redis c s folder f.id =
        ground (arith, after, eq_iff g.id f.id) in
      record {
        listed = ap (λ (k : Kept). k.listed) now ∙ cached.listed;
        reads = ap (λ (k : Kept). hash_to_folder_entry k.fields) now ∙ cached.reads;
      }

  each_upsert-keeps :
      (f : FolderTreeEntry) (gs : List FolderTreeEntry) (s : R)
      → All (λ g. g.id ≢ f.id) gs
      → IsCached s f
      → (each_upsert ops c (upsert_folder ops c) gs s).0 ≡ ok tt
      → IsCached (each_upsert ops c (upsert_folder ops c) gs s).1 f
  unfolding each_upsert
  each_upsert-keeps f [] s others cached h = cached
  each_upsert-keeps f (g ∷ gs) s others cached h =
      let (done, rest, left) =
        then-leaves (upsert_folder ops c g) (each_upsert ops c (upsert_folder ops c) gs) s h in
      subst (λ (t : R). IsCached t f) (sym left)
        (each_upsert-keeps f gs (upsert_folder ops c g s).1 others.1
          (upsert_folder-keeps s f g others.0 cached done) rest)

  each_upsert-IsCached :
      (f : FolderTreeEntry) (gs : List FolderTreeEntry) (s : R)
      → IsPlaced f
      → IsLast f gs
      → (each_upsert ops c (upsert_folder ops c) gs s).0 ≡ ok tt
      → IsCached (each_upsert ops c (upsert_folder ops c) gs s).1 f
  unfolding each_upsert
  each_upsert-IsCached f [] s placed last h = elim last [ ]
  each_upsert-IsCached f (g ∷ gs) s placed last h =
      let (done, rest, left) =
        then-leaves (upsert_folder ops c g) (each_upsert ops c (upsert_folder ops c) gs) s h in
      subst (λ (t : R). IsCached t f) (sym left)
        (elim last [
          | inl (here, others) ↦
              each_upsert-keeps f gs (upsert_folder ops c g s).1 others
                (rw here (upsert_folder-IsCached s f placed (rw here at done))) rest
          | inr later ↦ each_upsert-IsCached f gs (upsert_folder ops c g s).1 placed later rest
        ])

-- Warming the tree caches its folders: after a warm-up that succeeds, whatever Redis held before, each
-- folder of the snapshot that has ids and level 1 or 2, and whose id no later folder has, is in
-- every list of the metadata that succeeds, with its ids, level, code, name, comment and authors; its
-- labels, times and order, which the cache does not keep, are zero there.
pub warm_tree_listed :
    {R : Type 0} {ops : CacheOps R} (redis : CacheModel ops) (c : Cache) (s : R)
    (snapshot listed : TreeMetaSnapshot) (f : FolderTreeEntry)
    → IsPlaced f
    → IsLast f snapshot.folders
    → (warm_tree ops c snapshot s).0 ≡ ok tt
    → list_all_meta ops c (warm_tree ops c snapshot s).1 ≡ ok listed
    → Among (as_cached f) listed.folders
unfolding warm_tree
warm_tree_listed {R} {ops} redis c s snapshot listed f placed last h shown =
    let orgs : Action R (Unit {0}) = each_upsert ops c (upsert_org ops c) snapshot.orgs in
    let projects : Action R (Unit {0}) =
      each_upsert ops c (upsert_project ops c) snapshot.projects in
    let envs : Action R (Unit {0}) = each_upsert ops c (upsert_environment ops c) snapshot.envs in
    let folders : Action R (Unit {0}) = each_upsert ops c (upsert_folder ops c) snapshot.folders in
    let (_, h1) = pipelined-ok orgs (pipelined projects (pipelined envs folders)) s h in
    let (_, h2) = pipelined-ok projects (pipelined envs folders) (orgs s).1 h1 in
    let (_, h3) = pipelined-ok envs folders (projects (orgs s).1).1 h2 in
    cached_folder_listed redis c (folders (envs (projects (orgs s).1).1).1).1 f listed
      (each_upsert-IsCached redis c f snapshot.folders (envs (projects (orgs s).1).1).1 placed last
        h3)
      shown
