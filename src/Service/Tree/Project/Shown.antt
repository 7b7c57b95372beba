-- ===== src/Service/Tree/Project/Shown.antt =====
-- internal/service/tree_service.go, GetProjectFolderTree: what the answer shows.
use env_vault.Base.{
  String, ◌≡◌, ◌==◌, List, [], ◌∷◌, map, any, All, All-append, inl, inr, Bool-cases, Option-cases,
  Result-cases, Result, ok, bind-ok, str_eq, ◌&&◌, arith,
}
use env_vault.Auth.{UserInfo, Authorizer}
use env_vault.Service.Tree.Visible.{allowed, readable, filter_by_allow, filter_keeps_readable}
use env_vault.Service.Tree.Project.{
  FolderInProject, EnvRef, SubFolderGroup, FolderGroup, Child, ref_of, add_env, add_folder,
  add_folders, parent_code, add_child, add_children, sorts_before, insert_by, sort_by, children_of,
  with_children, of_level_1, below, grouped, get_project_folder_tree,
}

-- What is shown of folders whose ids have a property.
module _ (P : String → Type 0) where
  abbrev Ref : EnvRef → Type 0
  Ref r = P r.folder_id

  abbrev Folder : FolderInProject → Type 0
  Folder f = P f.id

  abbrev pub SubGroup : SubFolderGroup → Type 0
  SubGroup g = P g.id × All Ref g.env_list

  abbrev pub Group : FolderGroup → Type 0
  Group g = P g.id × All Ref g.env_list × All SubGroup g.sub_folders

  abbrev IsChild : Child → Type 0
  IsChild c = SubGroup c.1

  All-add_env :
      (f : FolderInProject) (refs : List EnvRef) → P f.id → All Ref refs → All Ref (add_env f refs)
  All-add_env f refs p h = elim (Bool-cases (any (λ r. str_eq r.id f.environment_id) refs)) [
    | inl known ↦ rw known h
    | inr new ↦ rw new (All-append Ref refs (ref_of f ∷ []) h (p, tt))
  ]

  All-add_folder :
      (f : FolderInProject) (gs : List FolderGroup)
      → P f.id
      → All Group gs
      → All Group (add_folder f gs)
  unfolding add_folder
  All-add_folder f [] p h = ((p, (p, tt), tt), tt)
  All-add_folder f (g ∷ gs) p ((own, refs, subs), others) =
      elim (Bool-cases (str_eq g.code f.code)) [
        | inl same ↦ rw same ((own, All-add_env f g.env_list p refs, subs), others)
        | inr other ↦ rw other ((own, refs, subs), All-add_folder f gs p others)
      ]

  All-add_folders :
      (fs : List FolderInProject) (gs : List FolderGroup)
      → All Folder fs
      → All Group gs
      → All Group (add_folders fs gs)
  unfolding add_folders
  All-add_folders [] gs _ h = h
  All-add_folders (f ∷ fs) gs (p, ps) h =
      All-add_folders fs (add_folder f gs) ps (All-add_folder f gs p h)

  All-add_child :
      (parent : String) (f : FolderInProject) (cs : List Child)
      → P f.id
      → All IsChild cs
      → All IsChild (add_child parent f cs)
  unfolding add_child
  All-add_child parent f [] p h = ((p, (p, tt)), tt)
  All-add_child parent f ((q, g) ∷ cs) p ((own, refs), others) =
      elim (Bool-cases (str_eq q parent && str_eq g.code f.code)) [
        | inl same ↦ rw same ((own, All-add_env f g.env_list p refs), others)
        | inr other ↦ rw other ((own, refs), All-add_child parent f cs p others)
      ]

  All-add_children :
      (parents fs : List FolderInProject) (cs : List Child)
      → All Folder fs
      → All IsChild cs
      → All IsChild (add_children parents fs cs)
  unfolding add_children
  All-add_children parents [] cs _ h = h
  All-add_children parents (f ∷ fs) cs (p, ps) h =
      elim (Option-cases (parent_code f.parent_id parents)) [
        | inl hidden ↦ rw hidden (All-add_children parents fs cs ps h)
        | inr (code, seen) ↦
            rw seen
              (All-add_children parents fs (add_child code f cs) ps (All-add_child code f cs p h))
      ]

  All-of_level_1 : (fs : List FolderInProject) → All Folder fs → All Folder (of_level_1 fs)
  All-of_level_1 [] h = tt
  All-of_level_1 (f ∷ fs) (p, ps) = elim (Bool-cases (f.level == 1)) [
    | inl top ↦ rw top (p, All-of_level_1 fs ps)
    | inr low ↦ rw low (All-of_level_1 fs ps)
  ]

  All-below : (fs : List FolderInProject) → All Folder fs → All Folder (below fs)
  All-below [] h = tt
  All-below (f ∷ fs) (p, ps) = elim (Bool-cases (f.level == 1)) [
    | inl top ↦ rw top (All-below fs ps)
    | inr low ↦ rw low (p, All-below fs ps)
  ]

  All-children_of :
      (code : String) (cs : List Child) → All IsChild cs → All SubGroup (children_of code cs)
  All-children_of code [] h = tt
  All-children_of code (c ∷ cs) (own, others) = elim (Bool-cases (str_eq c.0 code)) [
    | inl same ↦ rw same (own, All-children_of code cs others)
    | inr other ↦ rw other (All-children_of code cs others)
  ]

All-insert_by :
    {A : Type 0} (P : A → Type 0) (key : A → String) (x : A) (xs : List A)
    → P x
    → All P xs
    → All P (insert_by key x xs)
unfolding insert_by
All-insert_by P key x [] p h = (p, tt)
All-insert_by P key x (y ∷ ys) p (q, qs) = elim (Bool-cases (sorts_before (key x) (key y))) [
  | inl first ↦ rw first (p, (q, qs))
  | inr later ↦ rw later (q, All-insert_by P key x ys p qs)
]

All-sort_by :
    {A : Type 0} (P : A → Type 0) (key : A → String) (xs : List A)
    → All P xs
    → All P (sort_by key xs)
unfolding sort_by
All-sort_by P key [] h = tt
All-sort_by P key (x ∷ xs) (p, ps) =
    All-insert_by P key x (sort_by key xs) p (All-sort_by P key xs ps)

All-with_children :
    (P : String → Type 0) (cs : List Child) (gs : List FolderGroup)
    → All (λ c. SubGroup P c.1) cs
    → All (Group P) gs
    → All (Group P) (map (with_children cs) gs)
All-with_children P cs [] _ h = tt
All-with_children P cs (g ∷ gs) children ((own, refs, _), others) = (
  (
    own,
    refs,
    All-sort_by (SubGroup P) (λ c. c.code) (children_of g.code cs)
        (All-children_of P g.code cs children),
  ),
  All-with_children P cs gs children others,
)

All-grouped :
    (P : String → Type 0) (visible : List FolderInProject)
    → All (λ f. P f.id) visible
    → All (Group P) (grouped visible)
unfolding grouped
All-grouped P visible h =
    let parents = of_level_1 visible in
    let children = add_children parents (below visible) [] in
    All-sort_by (Group P) (λ g. g.code) (map (with_children children) (add_folders parents []))
      (All-with_children P children (add_folders parents [])
        (All-add_children P parents (below visible) [] (All-below P visible h) tt)
        (All-add_folders P parents [] (All-of_level_1 P visible h) tt))

module _ {D : Type 0} (authorizer : Authorizer D) (user : UserInfo) (d : D) where
  abbrev pub IsReadable : String → Type 0
  IsReadable id = allowed authorizer user d "folder:read" "folder" id ≡ ok tt

  readable-IsReadable :
      (fs : List FolderInProject)
      → All
          (λ f. IsReadable f.id)
          (readable authorizer user d "folder:read" "folder" (λ f. f.id) fs)
  readable-IsReadable [] = tt
  readable-IsReadable (f ∷ fs) =
      elim (Result-cases (allowed authorizer user d "folder:read" "folder" f.id)) [
        | inl (_, yes_read) ↦ rw yes_read (yes_read, readable-IsReadable fs)
        | inr (e, denied) ↦ rw denied (readable-IsReadable fs)
      ]

-- Whatever the repository answers, each folder that the tree of a project names, for a group, for one of
-- its environments, or among its subfolders, is one that the authorizer lets the caller read.
pub get_project_folder_tree-IsReadable :
    {D : Type 0} (list_folders : String → String → D → Result (List FolderInProject))
    (authorizer : Authorizer D) (user : UserInfo) (project_id : String) (d : D)
    (groups : List FolderGroup)
    → get_project_folder_tree list_folders authorizer user project_id d ≡ ok groups
    → All (Group (IsReadable authorizer user d)) groups
unfolding get_project_folder_tree
get_project_folder_tree-IsReadable list_folders authorizer user project_id d groups h =
    let (rows, _, h1) = bind-ok (list_folders user.user_id project_id d) _ h in
    let (visible, kept, h2) =
      bind-ok (filter_by_allow authorizer user d "folder:read" "folder" (λ f. f.id) rows) _ h1 in
    let e : grouped visible ≡ groups = ground arith in
    let same =
      filter_keeps_readable authorizer user d "folder:read" "folder" (λ f. f.id) rows visible
        kept in
    rw (← e) (
      All-grouped (IsReadable authorizer user d) visible
        (rw same (readable-IsReadable authorizer user d rows)))
