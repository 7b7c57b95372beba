-- ===== src/Service/Tree/Build.antt =====
-- internal/service/tree_service.go: buildTree and its helpers, applyMaxDepth, and GetTree.
use env_vault.Base.{
  ℕ, ◌+◌, ◌==◌, String, Bool, ◌&&◌, not, Option, none, some, List, [], ◌∷◌, ◌++◌, map, length,
  str_eq, if◌then◌else◌,
}
use env_vault.Service.Tree.{
  Entity, FolderTreeEntry, organization, project, environment, folder, TreeNode, Children, node,
  nil, cons, append_child,
}
use env_vault.Auth.{member}

abbrev pub NodeMap : Type 0
NodeMap = List (String × TreeNode)

-- m[id] = n
unfoldable pub set_node : String → TreeNode → NodeMap → NodeMap
set_node id n [] = (id, n) ∷ []
set_node id n ((j, m) ∷ ms) =
    let rest = set_node id n ms in if str_eq j id then (j, n) ∷ ms else (j, m) ∷ rest

unfoldable pub get_node : String → NodeMap → Option TreeNode
get_node id [] = none
get_node id ((j, m) ∷ ms) = let rest = get_node id ms in if str_eq j id then some m else rest

abbrev pub with_child : TreeNode → TreeNode → TreeNode
with_child child (node info children) = node info (append_child children child)

-- m[id].Children = append(m[id].Children, child)
unfoldable pub add_child : String → TreeNode → NodeMap → NodeMap
add_child id child [] = []
add_child id child ((j, m) ∷ ms) =
    let rest = add_child id child ms in
    if str_eq j id then (j, with_child child m) ∷ ms else (j, m) ∷ rest

-- add_child of a node that the map holds, as a copy
abbrev pub add_copy : String → Option TreeNode → NodeMap → NodeMap
add_copy id none ms = ms
add_copy id (some child) ms = add_child id child ms

abbrev pub org_node : Entity → TreeNode
org_node e =
    node
      (record {
        id = e.id;
        kind = organization;
        level = 0;
        parent_id = "";
        code = e.code;
        name = e.name;
        comment = e.comment;
      })
      nil

abbrev pub project_node : Entity → TreeNode
project_node e =
    node
      (record {
        id = e.id;
        kind = project;
        level = 0;
        parent_id = e.parent_id;
        code = e.code;
        name = e.name;
        comment = e.comment;
      })
      nil

abbrev pub env_node : Entity → TreeNode
env_node e =
    node
      (record {
        id = e.id;
        kind = environment;
        level = 0;
        parent_id = e.parent_id;
        code = e.code;
        name = e.name;
        comment = e.comment;
      })
      nil

abbrev pub parent_id_for_node : FolderTreeEntry → String
parent_id_for_node f = if f.level == 1 then f.environment_id else f.parent_id

abbrev pub folder_node : FolderTreeEntry → TreeNode
folder_node f =
    node
      (record {
        id = f.id;
        kind = folder;
        level = f.level;
        parent_id = parent_id_for_node f;
        code = f.code;
        name = f.name;
        comment = f.comment;
      })
      nil

-- The index of a list of resources by their ids; a later one replaces an earlier one of its id.
unfoldable pub index : {A : Type 0} → (A → String) → (A → TreeNode) → List A → NodeMap → NodeMap
index id_of node_of [] ms = ms
index id_of node_of (x ∷ xs) ms = index id_of node_of xs (set_node (id_of x) (node_of x) ms)

-- The nodes of the environments and of the folders, and the ids of the orphaned folders.
pub record Folders : Type 0 where
  pub env_nodes : NodeMap
  pub folder_nodes : NodeMap
  pub orphans : List String

module _ (env_ids folder_ids : List String) where
  -- One turn of the loop over the folders.
  unfoldable pub attach_folder : FolderTreeEntry → Folders → Folders
  attach_folder f s =
      if f.level == 1
      then (if member f.environment_id env_ids
          then record s {
            env_nodes = add_copy f.environment_id (get_node f.id s.folder_nodes) s.env_nodes;
          }
          else record s { orphans = s.orphans ++ f.id ∷ [] })
      else (if member f.parent_id folder_ids
          then record s {
            folder_nodes = add_copy f.parent_id (get_node f.id s.folder_nodes) s.folder_nodes;
          }
          else record s { orphans = s.orphans ++ f.id ∷ [] })

  unfoldable pub attach_folders : List FolderTreeEntry → Folders → Folders
  attach_folders [] s = s
  attach_folders (f ∷ fs) s = attach_folders fs (attach_folder f s)

-- The loops over the environments and over the projects: the nodes of the parents, and the orphans.
unfoldable pub attach :
    List String → NodeMap → List Entity → NodeMap × List String → NodeMap × List String
attach parent_ids nodes [] s = s
attach parent_ids nodes (e ∷ es) (parents, orphans) =
    if member e.parent_id parent_ids
    then attach parent_ids nodes es (add_copy e.parent_id (get_node e.id nodes) parents, orphans)
    else attach parent_ids nodes es (parents, orphans ++ e.id ∷ [])

-- The nodes of a list of ids, those of them that a map holds.
unfoldable pub nodes_of : NodeMap → List String → List TreeNode
nodes_of ms [] = []
nodes_of ms (id ∷ ids) =
    let rest = nodes_of ms ids in elim (get_node id ms) [ none ↦ rest | some n ↦ n ∷ rest ]

abbrev pub children_of : List TreeNode → Children
children_of [] = nil
children_of (n ∷ ns) = cons n (children_of ns)

abbrev pub orphan_root : List TreeNode → TreeNode
orphan_root ns =
    node
      (record {
        id = "__orphans__";
        kind = folder;
        level = 0;
        parent_id = "";
        code = "__orphans__";
        name = "Orphan nodes (parent not accessible)";
        comment = "";
      })
      (children_of ns)

-- buildTree: the roots and the number of orphans (the number of dropped nodes is always 0)
unfoldable pub build_tree :
    List Entity → List Entity → List Entity → List FolderTreeEntry → Bool → List TreeNode × ℕ
build_tree orgs projects envs folders include_orphans =
    let org_nodes = index (λ e. e.id) org_node orgs [] in
    let project_nodes = index (λ e. e.id) project_node projects [] in
    let start : Folders = record {
      env_nodes = index (λ e. e.id) env_node envs [];
      folder_nodes = index (λ f. f.id) folder_node folders [];
      orphans = [];
    } in
    let attached = attach_folders (map (λ e. e.id) envs) (map (λ f. f.id) folders) folders start in
    let (project_nodes', orphan_envs) =
      attach (map (λ e. e.id) projects) attached.env_nodes envs (project_nodes, []) in
    let (org_nodes', orphan_projects) =
      attach (map (λ e. e.id) orgs) project_nodes' projects (org_nodes, []) in
    let roots = nodes_of org_nodes' (map (λ e. e.id) orgs) in
    let total = length attached.orphans + length orphan_envs + length orphan_projects in
    let orphans =
      nodes_of attached.folder_nodes attached.orphans
      ++ nodes_of attached.env_nodes orphan_envs
      ++ nodes_of project_nodes' orphan_projects in
    (
      if include_orphans && not (total == 0) then roots ++ orphan_root orphans ∷ [] else roots,
      total,
    )
