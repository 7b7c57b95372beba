-- ===== src/Service/Tree/Visible.antt =====
-- internal/service/tree_service.go: the filters that ask the authorizer for each resource.
use env_vault.Base.{
  String, ◌≡◌, refl, Bool, true, false, List, [], ◌∷◌, Result, ok, err, permission_denied,
  not_found, ◌>>=◌, arith, if◌then◌else◌,
}
use env_vault.Auth.{UserInfo, Authorizer}
use env_vault.Service.Tree.{Entity, FolderTreeEntry}

-- One turn of a filter's loop: an item that is denied or not found is passed over, any other error
-- ends the loop.
abbrev pub keep_if : {A : Type 0} → Result (Unit {0}) → A → Result (List A) → Result (List A)
keep_if (ok _) x rest = rest >>= λ xs. ok (x ∷ xs)
keep_if (err permission_denied) x rest = rest
keep_if (err not_found) x rest = rest
keep_if (err e) x rest = err e

module _ {D : Type 0} (authorizer : Authorizer D) (user : UserInfo) (d : D) where
  abbrev pub allowed : String → String → String → Result (Unit {0})
  allowed action kind id = authorizer.allow user action (record { kind = kind; id = id }) d

  unfoldable pub filter_by_allow :
      {A : Type 0} → String → String → (A → String) → List A → Result (List A)
  filter_by_allow action kind id_of [] = ok []
  filter_by_allow action kind id_of (x ∷ xs) =
      let rest = filter_by_allow action kind id_of xs in
      keep_if (allowed action kind (id_of x)) x rest

  abbrev pub filter_orgs : List Entity → Result (List Entity)
  filter_orgs = filter_by_allow "org:read" "organization" (λ e. e.id)

  abbrev pub filter_projects : List Entity → Result (List Entity)
  filter_projects = filter_by_allow "project:read" "project" (λ e. e.id)

  abbrev pub filter_envs : List Entity → Result (List Entity)
  filter_envs = filter_by_allow "env:read" "environment" (λ e. e.id)

  abbrev pub filter_folders : List FolderTreeEntry → Result (List FolderTreeEntry)
  filter_folders = filter_by_allow "folder:read" "folder" (λ e. e.id)

  -- The reference: the items that are allowed, in their order.
  abbrev is_ok : Result (Unit {0}) → Bool
  is_ok (ok _) = true
  is_ok (err e) = false

  abbrev pub readable : {A : Type 0} → String → String → (A → String) → List A → List A
  readable action kind id_of [] = []
  readable action kind id_of (x ∷ xs) =
      let rest = readable action kind id_of xs in
      if is_ok (allowed action kind (id_of x)) then x ∷ rest else rest

  keep_if-ok :
      {A : Type 0} (answer : Result (Unit {0})) (x : A) (rest : Result (List A)) (out : List A)
      → keep_if answer x rest ≡ ok out
      → (xs : List A) × (rest ≡ ok xs) × (out ≡ (if is_ok answer then x ∷ xs else xs))
  keep_if-ok (ok _) x (ok xs) out h = (xs, refl, ground arith)
  keep_if-ok (ok _) x (err e) out h = absurd (ground arith)
  keep_if-ok (err permission_denied) x rest out h = (out, h, refl)
  keep_if-ok (err not_found) x rest out h = (out, h, refl)
  keep_if-ok (err e) x rest out h = absurd (ground arith)

-- A filter that returns keeps exactly the items that the authorizer allows, in their order.
pub filter_keeps_readable :
    {D A : Type 0} (authorizer : Authorizer D) (user : UserInfo) (d : D) (action kind : String)
    (id_of : A → String) (xs out : List A)
    → filter_by_allow authorizer user d action kind id_of xs ≡ ok out
    → out ≡ readable authorizer user d action kind id_of xs
unfolding filter_by_allow
filter_keeps_readable authorizer user d action kind id_of [] out h = ground arith
filter_keeps_readable authorizer user d action kind id_of (x ∷ xs) out h =
    let (rest, filtered, kept) =
      keep_if-ok authorizer user d (allowed authorizer user d action kind (id_of x)) x _ out h in
    ground (arith, filter_keeps_readable authorizer user d action kind id_of xs rest filtered)
