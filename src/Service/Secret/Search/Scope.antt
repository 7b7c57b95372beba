-- ===== src/Service/Secret/Search/Scope.antt =====
-- internal/service/secret_service.go, narrowSecretSearchScope.
use env_vault.Base.{◌≡◌, refl, ◌⊎◌, inl, inr, Bool-cases, arith, str_eq, eq_iff}
use env_vault.Text.{trim_space}
use env_vault.Text.Trim.{trim_space-trim_space}
use env_vault.Service.Secret.{ListFilter}
use env_vault.Service.Secret.Search.{narrow_secret_search_scope}

-- At most one of the three scopes is left, and it is the finest one that was given.
abbrev IsFinest : ListFilter → ListFilter → Type 0
IsFinest f g =
    ((g.folder_id ≡ trim_space f.folder_id) × (g.environment_id ≡ "") × (g.project_id ≡ ""))
    ⊎ ((trim_space f.folder_id ≡ "")
        × (g.folder_id ≡ "")
        × (g.environment_id ≡ trim_space f.environment_id)
        × (g.project_id ≡ ""))
    ⊎ ((trim_space f.folder_id ≡ "")
        × (trim_space f.environment_id ≡ "")
        × (g.folder_id ≡ "")
        × (g.environment_id ≡ "")
        × (g.project_id ≡ trim_space f.project_id))

trim_space_empty : trim_space "" ≡ ""
unfolding trim_space
trim_space_empty = refl

-- Narrowing leaves at most one scope, the finest one that is not blank, with the white space at its
-- ends cut off, keeps the keyword, and changes nothing when it is done again.
narrow-IsFinest :
    (f : ListFilter)
    → IsFinest f (narrow_secret_search_scope f)
      × ((narrow_secret_search_scope f).keyword ≡ f.keyword)
      × (narrow_secret_search_scope (narrow_secret_search_scope f) ≡ narrow_secret_search_scope f)
unfolding narrow_secret_search_scope
narrow-IsFinest f =
    let t1 = trim_space-trim_space f.folder_id in
    let t2 = trim_space-trim_space f.environment_id in
    let t3 = trim_space-trim_space f.project_id in
    let e1 = eq_iff (trim_space f.folder_id) "" in
    let e2 = eq_iff (trim_space f.environment_id) "" in
    elim (Bool-cases (str_eq (trim_space f.folder_id) "")) [
      | inr folder ↦ rw folder (inl (refl, refl, refl), refl, ground (arith, t1))
      | inl no_folder ↦ elim (Bool-cases (str_eq (trim_space f.environment_id) "")) [
        | inr env ↦
            rw (no_folder, env)
              (
                inr (inl (e1.0 no_folder, e1.0 no_folder, refl, refl)),
                refl,
                ground (arith, t1, t2, trim_space_empty),
              )
        | inl no_env ↦
            rw (no_folder, no_env)
              (
                inr (inr (e1.0 no_folder, e2.0 no_env, e1.0 no_folder, e2.0 no_env, refl)),
                refl,
                ground (arith, t1, t2, t3),
              )
      ]
    ]
