-- ===== src/Service/Tree/Late.antt =====
-- internal/service/tree_service.go, buildTree: the copies of the folders at level 1.
use env_vault.Base.{String, ◌≡◌, refl, ap, ◌∙◌, false, List, [], ◌∷◌, ◌++◌, All, arith, ◌==◌}
use env_vault.Service.Tree.{FolderTreeEntry}
use env_vault.Service.Tree.Build.{Folders, attach_folder, attach_folders}

module _ (env_ids folder_ids : List String) where
  -- a folder that is not at level 1 leaves the environments' nodes
  attach_folder-env_nodes :
      (f : FolderTreeEntry) (s : Folders)
      → (f.level == 1) ≡ false
      → (attach_folder env_ids folder_ids f s).env_nodes ≡ s.env_nodes
  unfolding attach_folder
  attach_folder-env_nodes f s deeper = ground arith

  attach_folders-append :
      (fs gs : List FolderTreeEntry) (s : Folders)
      → attach_folders env_ids folder_ids (fs ++ gs) s
        ≡ attach_folders env_ids folder_ids gs (attach_folders env_ids folder_ids fs s)
  unfolding attach_folders
  attach_folders-append [] gs s = refl
  attach_folders-append (f ∷ fs) gs s =
      attach_folders-append fs gs (attach_folder env_ids folder_ids f s)

  attach_folders-env_nodes :
      (gs : List FolderTreeEntry) (s : Folders)
      → All (λ g. (g.level == 1) ≡ false) gs
      → (attach_folders env_ids folder_ids gs s).env_nodes ≡ s.env_nodes
  unfolding attach_folders
  attach_folders-env_nodes [] s h = refl
  attach_folders-env_nodes (g ∷ gs) s (h, hs) =
      attach_folders-env_nodes gs (attach_folder env_ids folder_ids g s) hs
      ∙ attach_folder-env_nodes g s h

-- Folders below level 1 that stand behind every folder of level 1 leave the nodes of the environments
-- as they are without them.
late_folders-env_nodes :
    (env_ids folder_ids : List String) (fs gs : List FolderTreeEntry) (s : Folders)
    → All (λ g. (g.level == 1) ≡ false) gs
    → (attach_folders env_ids folder_ids (fs ++ gs) s).env_nodes
      ≡ (attach_folders env_ids folder_ids fs s).env_nodes
late_folders-env_nodes env_ids folder_ids fs gs s deeper =
    ap (λ x. x.env_nodes) (attach_folders-append env_ids folder_ids fs gs s)
    ∙ attach_folders-env_nodes env_ids folder_ids gs (attach_folders env_ids folder_ids fs s) deeper
