-- ===== src/Service/Tree/Orphans.antt =====
-- internal/service/tree_service.go, buildTree: the orphans, and what there is at the top.
use env_vault.Base.{
  ℕ, String, ◌≡◌, Bool, List, [], ◌∷◌, ◌++◌, map, length, arith, ◌==◌, ◌+◌, suc, if◌then◌else◌,
  length-append,
}
use env_vault.Auth.{member}
use env_vault.Service.Tree.{FolderTreeEntry, Entity}
use env_vault.Service.Tree.Build.{
  Folders, NodeMap, get_node, add_copy, parent_id_for_node, attach_folder, attach_folders, attach,
  build_tree,
}

-- How many of a list have a parent that is not visible: the reference for the orphans.
abbrev pub hidden_parents : List String → List Entity → ℕ
hidden_parents parent_ids [] = 0
hidden_parents parent_ids (e ∷ es) =
    let rest = hidden_parents parent_ids es in
    if member e.parent_id parent_ids then rest else suc rest

attach-orphans :
    (parent_ids : List String) (nodes : NodeMap) (es : List Entity) (parents : NodeMap)
    (orphans : List String)
    → length (attach parent_ids nodes es (parents, orphans)).1
      ≡ length orphans + hidden_parents parent_ids es
unfolding attach
attach-orphans parent_ids nodes [] parents orphans = ground arith
attach-orphans parent_ids nodes (e ∷ es) parents orphans = ground (
  arith,
  attach-orphans parent_ids nodes es (add_copy e.parent_id (get_node e.id nodes) parents) orphans,
  attach-orphans parent_ids nodes es parents (orphans ++ e.id ∷ []),
  length-append orphans (e.id ∷ []),
)

abbrev pub hidden_folders : List String → List String → List FolderTreeEntry → ℕ
hidden_folders env_ids folder_ids [] = 0
hidden_folders env_ids folder_ids (f ∷ fs) =
    let rest = hidden_folders env_ids folder_ids fs in
    if member (parent_id_for_node f) (if f.level == 1 then env_ids else folder_ids)
    then rest
    else suc rest

attach_folder-orphans :
    (env_ids folder_ids : List String) (f : FolderTreeEntry) (s : Folders)
    → length (attach_folder env_ids folder_ids f s).orphans
      ≡ length s.orphans + hidden_folders env_ids folder_ids (f ∷ [])
unfolding attach_folder
attach_folder-orphans env_ids folder_ids f s = ground (arith, length-append s.orphans (f.id ∷ []))

attach_folders-orphans :
    (env_ids folder_ids : List String) (fs : List FolderTreeEntry) (s : Folders)
    → length (attach_folders env_ids folder_ids fs s).orphans
      ≡ length s.orphans + hidden_folders env_ids folder_ids fs
unfolding attach_folders
attach_folders-orphans env_ids folder_ids [] s = omega arith
attach_folders-orphans env_ids folder_ids (f ∷ fs) s = ground (
  arith,
  attach_folders-orphans env_ids folder_ids fs (attach_folder env_ids folder_ids f s),
  attach_folder-orphans env_ids folder_ids f s,
)

-- The orphans that the tree counts are the folders, environments and projects whose parent is not
-- among the visible ones, whether or not they are shown: for a folder at level 1 its environment,
-- for any other its parent folder.
orphans_counted :
    (orgs projects envs : List Entity) (folders : List FolderTreeEntry) (include_orphans : Bool)
    → (build_tree orgs projects envs folders include_orphans).1
      ≡ hidden_folders (map (λ e. e.id) envs) (map (λ f. f.id) folders) folders
        + hidden_parents (map (λ e. e.id) projects) envs
        + hidden_parents (map (λ e. e.id) orgs) projects
unfolding build_tree
orphans_counted orgs projects envs folders include_orphans =
    simp (attach_folders-orphans, attach-orphans) (omega arith)
