-- ===== src/Service/Tree/Project.antt =====
-- internal/service/tree_service.go, GetProjectFolderTree: the folders of a project by code, each with
-- the environments that have it and with its subfolders. A Go map is an association list with one
-- entry for a key; what Go reads in the order of a map is sorted before it is shown.
pub mod Shown
use Prim.Native.String.{compare}
use text.Mathlib.Text.{is_le}
use env_vault.Base.{
  ℕ, String, Bool, true, false, ◌==◌, Option, none, some, List, [], ◌∷◌, ◌++◌, map, any, Result, ok,
  err, ◌>>=◌, str_eq, ◌&&◌, if◌then◌else◌,
}
use env_vault.Auth.{UserInfo, Authorizer}
use env_vault.Service.Tree.Visible.{filter_by_allow}

pub record FolderInProject : Type 0 where
  pub id : String
  pub code : String
  pub name : String
  pub comment : String
  pub level : ℕ
  pub environment_id : String
  pub environment_code : String
  pub parent_id : String
  pub project_id : String

pub record EnvRef : Type 0 where
  pub id : String
  pub code : String
  pub folder_id : String

pub record SubFolderGroup : Type 0 where
  pub id : String
  pub code : String
  pub name : String
  pub comment : String
  pub env_list : List EnvRef

pub record FolderGroup : Type 0 where
  pub id : String
  pub code : String
  pub name : String
  pub comment : String
  pub env_list : List EnvRef
  pub sub_folders : List SubFolderGroup

abbrev pub ref_of : FolderInProject → EnvRef
ref_of f = record { id = f.environment_id; code = f.environment_code; folder_id = f.id }

-- an environment is listed once, in the order of its first folder
abbrev pub add_env : FolderInProject → List EnvRef → List EnvRef
add_env f refs =
    if any (λ r. str_eq r.id f.environment_id) refs then refs else refs ++ ref_of f ∷ []

abbrev new_group : FolderInProject → FolderGroup
new_group f = record {
  id = f.id;
  code = f.code;
  name = f.name;
  comment = f.comment;
  env_list = ref_of f ∷ [];
  sub_folders = [];
}

unfoldable pub add_folder : FolderInProject → List FolderGroup → List FolderGroup
add_folder f [] = new_group f ∷ []
add_folder f (g ∷ gs) =
    let rest = add_folder f gs in
    if str_eq g.code f.code then (record g { env_list = add_env f g.env_list }) ∷ gs else g ∷ rest

unfoldable pub add_folders : List FolderInProject → List FolderGroup → List FolderGroup
unfolding add_folder
add_folders [] gs = gs
add_folders (f ∷ fs) gs = add_folders fs (add_folder f gs)

-- the code of a folder of level 1, by its id; a later one replaces an earlier
unfoldable pub parent_code : String → List FolderInProject → Option String
parent_code id [] = none
parent_code id (f ∷ fs) = elim (parent_code id fs) [
  | some c ↦ some c
  | none ↦ if str_eq f.id id then some f.code else none
]

-- A group of subfolders under the code of its parent.
abbrev pub Child : Type 0
Child = String × SubFolderGroup

abbrev new_child : String → FolderInProject → Child
new_child parent f = (
  parent,
  record { id = f.id; code = f.code; name = f.name; comment = f.comment; env_list = ref_of f ∷ [] },
)

abbrev with_env : FolderInProject → Child → Child
with_env f (parent, g) = (parent, record g { env_list = add_env f g.env_list })

unfoldable pub add_child : String → FolderInProject → List Child → List Child
add_child parent f [] = new_child parent f ∷ []
add_child parent f (c ∷ cs) =
    let rest = add_child parent f cs in
    if str_eq c.0 parent && str_eq c.1.code f.code then with_env f c ∷ cs else c ∷ rest

abbrev placed : FolderInProject → Option String → List Child → List Child
placed f none cs = cs
placed f (some parent) cs = add_child parent f cs

-- a subfolder whose parent is not visible is passed over
unfoldable pub add_children : List FolderInProject → List FolderInProject → List Child → List Child
unfolding parent_code add_child
add_children parents [] cs = cs
add_children parents (f ∷ fs) cs =
    add_children parents fs (placed f (parent_code f.parent_id parents) cs)

-- the order of the bytes, as in Go
abbrev pub sorts_before : String → String → Bool
sorts_before s t = is_le (compare s t)

-- sort.Strings and sort.SliceStable, by a key
unfoldable pub insert_by : {A : Type 0} → (A → String) → A → List A → List A
insert_by key x [] = x ∷ []
insert_by key x (y ∷ ys) =
    let rest = insert_by key x ys in if sorts_before (key x) (key y) then x ∷ y ∷ ys else y ∷ rest

unfoldable pub sort_by : {A : Type 0} → (A → String) → List A → List A
unfolding insert_by
sort_by key [] = []
sort_by key (x ∷ xs) = insert_by key x (sort_by key xs)

abbrev pub children_of : String → List Child → List SubFolderGroup
children_of code [] = []
children_of code (c ∷ cs) =
    let rest = children_of code cs in if str_eq c.0 code then c.1 ∷ rest else rest

abbrev pub with_children : List Child → FolderGroup → FolderGroup
with_children cs g = record g { sub_folders = sort_by (λ c. c.code) (children_of g.code cs) }

abbrev pub of_level_1 : List FolderInProject → List FolderInProject
of_level_1 [] = []
of_level_1 (f ∷ fs) = let rest = of_level_1 fs in if f.level == 1 then f ∷ rest else rest

abbrev pub below : List FolderInProject → List FolderInProject
below [] = []
below (f ∷ fs) = let rest = below fs in if f.level == 1 then rest else f ∷ rest

unfoldable pub grouped : List FolderInProject → List FolderGroup
unfolding add_folders add_children sort_by
grouped visible =
    let parents = of_level_1 visible in
    let children = add_children parents (below visible) [] in
    sort_by (λ g. g.code) (map (with_children children) (add_folders parents []))

-- `list_folders` is the repository's ListFoldersInProject, of the caller and the project
unfoldable pub get_project_folder_tree :
    {D : Type 0}
    → (String → String → D → Result (List FolderInProject))
    → Authorizer D
    → UserInfo
    → String
    → D
    → Result (List FolderGroup)
unfolding filter_by_allow grouped
get_project_folder_tree list_folders authorizer user project_id d =
    list_folders user.user_id project_id d >>= λ rows.
    filter_by_allow authorizer user d "folder:read" "folder" (λ f. f.id) rows >>= λ visible.
    ok (grouped visible)
