-- ===== src/Service/Tree.antt =====
-- internal/service/tree_service.go, GetTree, and its data in internal/domain/tree.go: the tree of
-- the resources that a caller may read. A Go map is an association list with one entry for a key;
-- a node that is stored in a parent is the copy that it was at that time, as in Go, where the
-- children are values. The refill of the cache in the background is not waited for.
pub mod Build
pub mod Answer
pub mod Visible
pub mod Late
pub mod Orphans
pub mod Depth
pub mod Project
use env_vault.Base.{
  ℕ, String, Bool, Option, List, [], ◌∷◌, Result, ok, err, Failure, permission_denied, not_found,
  ◌>>=◌, ◌>>◌,
}
use env_vault.Domain.{Time}
use env_vault.Auth.{UserInfo, Authorizer}

-- Entity of internal/domain/entity.go, without its labels, times and order.
pub record Entity : Type 0 where
  pub id : String
  pub parent_id : String
  pub code : String
  pub name : String
  pub comment : String
  pub created_by : String
  pub updated_by : String

-- The embedded Entity, with its labels, times and order, whose ParentId is hidden by the entry's own.
pub record FolderTreeEntry : Type 0 where
  pub id : String
  pub code : String
  pub name : String
  pub comment : String
  pub sort_order : ℕ
  pub created_by_label : String
  pub updated_by_label : String
  pub created_at : Time
  pub updated_at : Time
  pub level : ℕ
  pub environment_id : String
  pub parent_id : String
  pub project_id : String
  pub created_by : String
  pub updated_by : String

pub data TreeNodeType : Type 0 where
  organization project environment folder : TreeNodeType

-- What a node carries beside its children.
pub record NodeInfo : Type 0 where
  pub id : String
  pub kind : TreeNodeType
  pub level : ℕ
  pub parent_id : String
  pub code : String
  pub name : String
  pub comment : String

mutual
  pub data TreeNode : Type 0 where
    node : NodeInfo → Children → TreeNode

  pub data Children : Type 0 where
    nil : Children
    cons : TreeNode → Children → Children

-- append(children, n)
unfoldable pub append_child : Children → TreeNode → Children
append_child nil n = cons n nil
append_child (cons m ms) n = cons m (append_child ms n)

pub record TreeStats : Type 0 where
  pub organizations : ℕ
  pub projects : ℕ
  pub environments : ℕ
  pub folders : ℕ
  pub dropped : ℕ
  pub orphans : ℕ

pub record ResourceTree : Type 0 where
  pub roots : List TreeNode
  pub stats : TreeStats
  pub generated_at : Time
  pub source : String

pub record TreeMetaSnapshot : Type 0 where
  pub orgs : List Entity
  pub projects : List Entity
  pub envs : List Entity
  pub folders : List FolderTreeEntry

-- What the service reads of the state of the database.
pub record TreeRepository (D : Type 0) : Type 0 where
  pub list_all_organizations : String → D → Result (List Entity)
  pub list_all_projects : String → D → Result (List Entity)
  pub list_all_environments : String → D → Result (List Entity)
  pub list_all_folders : String → D → Result (List FolderTreeEntry)
