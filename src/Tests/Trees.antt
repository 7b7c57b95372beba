-- ===== src/Tests/Trees.antt =====
-- A small tree: an organization, a project, an environment, and folders at both levels.
use env_vault.Base.{ℕ, String, ◌≡◌, refl, List, [], ◌∷◌, All, Result, ok}
use env_vault.Service.Tree.{Entity, FolderTreeEntry}
use env_vault.Service.Tree.Visible.{filter_by_allow}
use env_vault.Service.Tree.Build.{Folders, env_node, folder_node}
use env_vault.Service.Tree.Project.{
  FolderInProject, EnvRef, FolderGroup, add_folder, add_folders, parent_code, add_child,
  add_children, insert_by, sort_by, grouped, get_project_folder_tree,
}
use env_vault.Service.Tree.Project.Shown.{Group, IsReadable, get_project_folder_tree-IsReadable}
use env_vault.Tests.{alice, open_door}

abbrev entity : String → String → Entity
entity id parent_id = record {
  id = id;
  parent_id = parent_id;
  code = id;
  name = id;
  comment = "";
  created_by = "";
  updated_by = "";
}

abbrev entry : String → ℕ → String → String → FolderTreeEntry
entry id level environment_id parent_id = record {
  id = id;
  code = id;
  name = id;
  comment = "";
  sort_order = 0;
  created_by_label = "";
  updated_by_label = "";
  created_at = 0;
  updated_at = 0;
  level = level;
  environment_id = environment_id;
  parent_id = parent_id;
  project_id = "p";
  created_by = "";
  updated_by = "";
}

abbrev orgs : List Entity
orgs = entity "o" "" ∷ []

abbrev projects : List Entity
projects = entity "p" "o" ∷ entity "q" "hidden" ∷ []

abbrev envs : List Entity
envs = entity "e" "p" ∷ []

abbrev parent : FolderTreeEntry
parent = entry "b" 1 "e" ""

abbrev child : FolderTreeEntry
child = entry "c" 2 "e" "b"

filtered : filter_by_allow open_door alice tt "org:read" "organization" (λ e. e.id) orgs ≡ ok orgs
unfolding filter_by_allow
filtered = refl

abbrev start : Folders
start = record {
  env_nodes = ("e", env_node (entity "e" "p")) ∷ [];
  folder_nodes = ("b", folder_node parent) ∷ ("c", folder_node child) ∷ [];
  orphans = [];
}

abbrev row : String → String → ℕ → String → String → FolderInProject
row id code level environment_id parent_id = record {
  id = id;
  code = code;
  name = code;
  comment = "";
  level = level;
  environment_id = environment_id;
  environment_code = environment_id;
  parent_id = parent_id;
  project_id = "p";
}

-- Two environments have `pay`; one of them has `api` in it.
abbrev rows : List FolderInProject
rows = row "f1" "pay" 1 "dev" "" ∷ row "f2" "pay" 1 "prod" "" ∷ row "f3" "api" 2 "prod" "f2" ∷ []

abbrev ref : String → String → EnvRef
ref environment folder_id = record { id = environment; code = environment; folder_id = folder_id }

abbrev groups : List FolderGroup
groups =
    (record {
      id = "f1";
      code = "pay";
      name = "pay";
      comment = "";
      env_list = ref "dev" "f1" ∷ ref "prod" "f2" ∷ [];
      sub_folders =
          (record {
            id = "f3";
            code = "api";
            name = "api";
            comment = "";
            env_list = ref "prod" "f3" ∷ [];
          })
          ∷ [];
    })
    ∷ []

abbrev rows_of : String → String → Unit {0} → Result (List FolderInProject)
rows_of user project_id d = ok rows

shown : get_project_folder_tree rows_of open_door alice "p" tt ≡ ok groups
unfolding get_project_folder_tree filter_by_allow grouped add_folders add_folder add_children
    add_child parent_code sort_by insert_by
shown = refl

get_project_folder_tree-IsReadable_example : All (Group (IsReadable open_door alice tt)) groups
get_project_folder_tree-IsReadable_example =
    get_project_folder_tree-IsReadable rows_of open_door alice "p" tt groups shown
