-- ===== src/Service/Tree/Answer.antt =====
-- internal/service/tree_service.go: applyMaxDepth, and GetTree, which answers from the cache or the
-- database.
use env_vault.Base.{
  ℕ, zero, suc, ◌-◌, ◌==◌, String, Bool, ◌&&◌, ◌||◌, Option, none, some, List, map, length, ltb,
  leb, Result, ok, err, ◌>>=◌, if◌then◌else◌,
}
use env_vault.Base.Int.{ℤ, pos, negsuc}
use env_vault.Domain.{Time}
use env_vault.Auth.{UserInfo, Authorizer}
use env_vault.Service.Tree.{
  TreeNode, Children, node, nil, cons, ResourceTree, TreeMetaSnapshot, TreeRepository,
}
use env_vault.Service.Tree.Visible.{filter_orgs, filter_projects, filter_envs, filter_folders}
use env_vault.Service.Tree.Build.{build_tree}

-- truncateChildren, by the levels that are left (`maxDepth - currentDepth`)
unfoldable mutual
  pub truncate : ℕ → TreeNode → TreeNode
  truncate zero (node info children) = node info nil
  truncate (suc n) (node info children) = node info (truncate_all n children)

  pub truncate_all : ℕ → Children → Children
  truncate_all n nil = nil
  truncate_all n (cons m ms) = cons (truncate n m) (truncate_all n ms)

-- req.MaxDepth <= 0 || req.MaxDepth > 4
unfoldable pub normal_depth : ℤ → ℕ
normal_depth (pos n) = if n == 0 || ltb 4 n then 4 else n
normal_depth (negsuc n) = 4

unfoldable pub apply_max_depth : ℕ → List TreeNode → List TreeNode
unfolding truncate
apply_max_depth max_depth roots =
    if leb 4 max_depth then roots else map (truncate (max_depth - 1)) roots

-- meta.Empty()
abbrev is_empty_snapshot : TreeMetaSnapshot → Bool
is_empty_snapshot s =
    length s.orgs == 0 && length s.projects == 0 && length s.envs == 0 && length s.folders == 0

-- What the cache shows: a nil cache is `none`; an error and an empty snapshot count as a miss.
abbrev from_cache : Option (Result TreeMetaSnapshot) → Option TreeMetaSnapshot
from_cache none = none
from_cache (some (err e)) = none
from_cache (some (ok meta)) = if is_empty_snapshot meta then none else some meta

module _ {D : Type 0} (repo : TreeRepository D) (authorizer : Authorizer D) where
  unfoldable pub load_snapshot : UserInfo → D → Result TreeMetaSnapshot
  load_snapshot user d = do
    orgs ← repo.list_all_organizations user.user_id d
    projects ← repo.list_all_projects user.user_id d
    envs ← repo.list_all_environments user.user_id d
    folders ← repo.list_all_folders user.user_id d
    ok (record { orgs = orgs; projects = projects; envs = envs; folders = folders })

  -- the snapshot and where it is from
  abbrev snapshot : UserInfo → D → Option TreeMetaSnapshot → Result (TreeMetaSnapshot × String)
  snapshot user d (some meta) = ok (meta, "cache")
  snapshot user d none = load_snapshot user d >>= λ meta. ok (meta, "database")

  unfoldable pub get_tree :
      UserInfo → Bool → ℤ → Time → Option (Result TreeMetaSnapshot) → D → Result ResourceTree
  unfolding load_snapshot build_tree apply_max_depth normal_depth
  get_tree user include_orphans max_depth now cached d = do
    (meta, source) ← snapshot user d (from_cache cached)
    orgs ← filter_orgs authorizer user d meta.orgs
    projects ← filter_projects authorizer user d meta.projects
    envs ← filter_envs authorizer user d meta.envs
    folders ← filter_folders authorizer user d meta.folders
    let (roots, orphans) = build_tree orgs projects envs folders include_orphans
    ok (record {
      roots = apply_max_depth (normal_depth max_depth) roots;
      stats = record {
        organizations = length orgs;
        projects = length projects;
        environments = length envs;
        folders = length folders;
        dropped = 0;
        orphans = orphans;
      };
      generated_at = now;
      source = source;
    })
