-- ===== src/Store/Cache/Meta/Hashes.antt =====
-- internal/store/redis/cache.go, hashToOrg, hashToProject, hashToEnv and hashToFolderEntry: they read back
-- what the writers of the hashes have put there, whatever fields the hash had before.
use env_vault.Base.{◌≡◌, ◌⊎◌, refl, inl, inr, some, false, str_eq}
use env_vault.Text.Decimal.{itoa}
use env_vault.Base.Int.{pos}
use env_vault.Service.Tree.{Entity, FolderTreeEntry}
use env_vault.Store.Cache.{Fields, put_fields, field-put_field, atoi}
use env_vault.Store.Cache.Meta.{
  org_fields, child_fields, folder_fields, hash_to_org, hash_to_child, hash_to_folder_entry,
}

pub hash_to_org-put :
    (e : Entity) (old : Fields) → e.parent_id ≡ "" → hash_to_org (put_fields (org_fields e) old) ≡ e
unfolding hash_to_org put_fields
hash_to_org-put e old top = simp (field-put_field) cc

pub hash_to_project-put :
    (e : Entity) (old : Fields)
    → hash_to_child "org_id" (put_fields (child_fields "org_id" e) old) ≡ e
unfolding hash_to_child put_fields
hash_to_project-put e old = simp field-put_field

pub hash_to_env-put :
    (e : Entity) (old : Fields)
    → hash_to_child "project_id" (put_fields (child_fields "project_id" e) old) ≡ e
unfolding hash_to_child put_fields
hash_to_env-put e old = simp field-put_field

-- What `hashToFolderEntry` asks for.
pub record IsPlaced (f : FolderTreeEntry) : Type 0 where
  pub level : (f.level ≡ 1) ⊎ (f.level ≡ 2)
  pub named : str_eq f.id "" ≡ false
  pub in_env : str_eq f.environment_id "" ≡ false
  pub in_project : str_eq f.project_id "" ≡ false

atoi-itoa_1 : atoi (itoa 1) ≡ pos 1
unfolding atoi itoa
atoi-itoa_1 = refl

atoi-itoa_2 : atoi (itoa 2) ≡ pos 2
unfolding atoi itoa
atoi-itoa_2 = refl

-- What a hash keeps of a folder: all but its labels, its times and its order, which are zero.
abbrev pub as_cached : FolderTreeEntry → FolderTreeEntry
as_cached f = record f {
  sort_order = 0;
  created_by_label = "";
  updated_by_label = "";
  created_at = 0;
  updated_at = 0;
}

pub hash_to_folder_entry-put :
    (f : FolderTreeEntry) (old : Fields)
    → IsPlaced f
    → hash_to_folder_entry (put_fields (folder_fields f) old) ≡ some (as_cached f)
unfolding hash_to_folder_entry put_fields
hash_to_folder_entry-put f old placed = elim placed.level [
  | inl top ↦
      simp (field-put_field, placed.named, placed.in_env, placed.in_project, top, atoi-itoa_1) cc
  | inr sub ↦
      simp (field-put_field, placed.named, placed.in_env, placed.in_project, sub, atoi-itoa_2) cc
]
