-- ===== src/Http/Folders/Checks.antt =====
-- internal/http/controller/resource_folder_batch.go: what has been asked before a folder is written.
use env_vault.Base.{
  ◌≤◌, String, ◌≡◌, ◌≢◌, ◌⊎◌, refl, sym, ◌∙◌, inl, inr, List, [], ◌∷◌, All, All-weaken, length, leb,
  leb→le, leb, not, str_eq, eq_iff, arith, Result, ok, err, not_found, permission_denied,
  if◌then◌else◌,
}
use env_vault.Text.{trim_space}
use env_vault.Auth.{UserInfo}
use env_vault.Service.Tree.{Entity}
use env_vault.Service.Secret.Batch.{is_empty}
use env_vault.Http.{passed, check, then-passed, bind-passed, check-passed, Checked-cases}
use env_vault.Http.Folders

-- With a code all folders have it; without, the folders that have a code have one code.
abbrev pub HasCode : String → String → Entity → Type 0
HasCode code base folder =
    (folder.code ≢ "" → folder.code ≡ base) × (code ≢ "" → folder.code ≡ code)

-- The code that the folders after the first are compared with.
abbrev next_code : String → Entity → String
next_code code folder = if str_eq code "" then folder.code else code

next_code-own : (code : String) (folder : Entity) → code ≡ "" → next_code code folder ≡ folder.code
next_code-own code folder blank = ground (arith, eq_iff code "")

next_code-kept : (code : String) (folder : Entity) → code ≢ "" → next_code code folder ≡ code
next_code-kept code folder named = ground (arith, eq_iff code "")

first_checked :
    (code : String) (folder : Entity) (folders : List Entity) {u : Unit {0}}
    → Folders.check_codes code (folder ∷ folders) ≡ passed u
    → (folder.code ≡ next_code code folder)
      × (Folders.check_codes (next_code code folder) folders ≡ passed tt)
unfolding Folders.check_codes
first_checked code folder folders h =
    let (one, more) =
      then-passed (check (str_eq folder.code (next_code code folder)) _)
        (Folders.check_codes (next_code code folder) folders) h in
    ((eq_iff folder.code (next_code code folder)).0 (check-passed _ _ one), more)

check_codes-HasCode :
    (code : String) (folders : List Entity) {u : Unit {0}}
    → Folders.check_codes code folders ≡ passed u
    → (base : String) × (code ≢ "" → base ≡ code) × All (HasCode code base) folders
check_codes-HasCode code [] h = (code, λ _. refl, tt)
check_codes-HasCode code (folder ∷ folders) h =
    let (one, more) = first_checked code folder folders h in
    let (base, agrees, rest) = check_codes-HasCode (next_code code folder) folders more in
    let kept = next_code-kept code folder in
    let still : (code ≢ "" → next_code code folder ≢ "") =
      (λ named e. named (sym (kept named) ∙ e)) in
    (
      base,
      λ named. agrees (still named) ∙ kept named,
      (
        (λ own. one ∙ sym (agrees (λ e. own (one ∙ e))), λ named. one ∙ kept named),
        All-weaken (λ f (same, all_same). (same, λ named. all_same (still named) ∙ kept named))
            folders rest,
      ),
    )

module _ {S R : Type 0} (ctrl : Folders.FolderController S R) (user : UserInfo) (s : S) where
  allowed-ok :
      (id : String) (r : Result (Unit {0})) {u : Unit {0}}
      → Folders.allowed ctrl user id r ≡ passed u
      → r ≡ ok tt
  allowed-ok id (ok _) h = refl
  allowed-ok id (err permission_denied) h = absurd (ground arith)
  allowed-ok id (err e) h = absurd (ground arith)

  check_permissions-allow :
      (folders : List Entity) {u : Unit {0}}
      → Folders.check_permissions ctrl user folders s ≡ passed u
      → All (λ folder. Folders.may_update ctrl user folder s ≡ ok tt) folders
  unfolding Folders.check_permissions
  check_permissions-allow [] h = tt
  check_permissions-allow (folder ∷ folders) h =
      let (one, more) = then-passed _ _ h in
      (allowed-ok folder.id _ one, check_permissions-allow folders more)

  found-ok :
      (id : String) (r : Result Entity) {folder : Entity}
      → Folders.found ctrl user id r ≡ passed folder
      → r ≡ ok folder
  found-ok id (ok folder) h = ground arith
  found-ok id (err not_found) h = absurd (ground arith)
  found-ok id (err e) h = absurd (ground arith)

  -- What holds of the folders that were read holds of the folder of each id.
  current_folders-found :
      (P : Entity → Type 0) (ids : List String) (folders : List Entity)
      → Folders.current_folders ctrl user ids s ≡ passed folders
      → All P folders
      → All (λ id. (folder : Entity) × (ctrl.repo.get_folder id s ≡ ok folder) × P folder) ids
  unfolding Folders.current_folders
  current_folders-found P [] folders h each = tt
  current_folders-found P (id ∷ ids) folders h each =
      let (folder, one, more) =
        bind-passed (Folders.found ctrl user id (ctrl.repo.get_folder id s)) _ h in
      let (others, two, both) = bind-passed (Folders.current_folders ctrl user ids s) _ more in
      let split : (folders ≡ folder ∷ others) = ground arith in
      let (here, there) : All P (folder ∷ others) = rw split at each in
      ((folder, found-ok id _ one, here), current_folders-found P ids others two there)

-- A folder that the caller may update, with the code that the request asks for.
abbrev pub IsUpdatable :
    {S R : Type 0} → Folders.FolderController S R → UserInfo → S → String → String → Entity → Type 0
IsUpdatable ctrl user s code base folder =
    (Folders.may_update ctrl user folder s ≡ ok tt) × HasCode code base folder

All-both :
    {A : Type 0} (P Q : A → Type 0) (xs : List A) → All P xs → All Q xs → All (λ x. P x × Q x) xs
All-both P Q [] _ _ = tt
All-both P Q (x ∷ xs) (p, ps) (q, qs) = ((p, q), All-both P Q xs ps qs)

module _ {S R : Type 0} (ctrl : Folders.FolderController S R) (user : UserInfo) where
  -- At most a hundred ids, each of a folder that the caller may update; and one code for all.
  abbrev pub IsChecked : Folders.BatchUpdateFolderRequest → S → Type 0
  IsChecked req s =
      (length req.id_list ≤ 100)
      × ((base : String) × All
            (λ id.
              (folder : Entity) × (ctrl.repo.get_folder id s ≡ ok folder)
              × IsUpdatable ctrl user s (trim_space req.code) base folder)
            (Folders.cleaned_ids [] req.id_list))

  request_ids-bounds :
      (req : Folders.BatchUpdateFolderRequest) {ids : List String}
      → Folders.request_ids req ≡ passed ids
      → (length req.id_list ≤ 100) × (ids ≡ Folders.cleaned_ids [] req.id_list)
  unfolding Folders.request_ids
  request_ids-bounds req h =
      let (_, h1) = then-passed (check (not (is_empty req.id_list)) _) _ h in
      let (short, h2) = then-passed (check (leb (length req.id_list) 100) _) _ h1 in
      let (_, h3) = then-passed (Folders.check_uuids req.id_list) _ h2 in
      let (_, h4) =
        then-passed (check (not (is_empty (Folders.cleaned_ids [] req.id_list))) _) _ h3 in
      (leb→le _ _ (check-passed _ _ short), ground arith)

  update_checks-IsChecked :
      (req : Folders.BatchUpdateFolderRequest) (s : S) {ids : List String}
      → Folders.update_checks ctrl user req s ≡ passed ids
      → IsChecked req s
  unfolding Folders.update_checks
  update_checks-IsChecked req s h =
      let (ids, asked, h1) = bind-passed (Folders.request_ids req) _ h in
      let (folders, read, h2) = bind-passed (Folders.current_folders ctrl user ids s) _ h1 in
      let (codes, h3) = then-passed (Folders.check_codes (trim_space req.code) folders) _ h2 in
      let (may, _) = then-passed (Folders.check_permissions ctrl user folders s) _ h3 in
      let (short, same) = request_ids-bounds req asked in
      let (base, _, agree) = check_codes-HasCode (trim_space req.code) folders codes in
      let updatable =
        All-both _ _ folders (check_permissions-allow ctrl user s folders may) agree in
      (
        short,
        (base, rw (sym same) (current_folders-found ctrl user s _ ids folders read updatable)),
      )

-- Either a batch leaves the database and the cache as they are, or it asks for at most a hundred ids and
-- each of them, trimmed, is the id of a folder that the caller may update by the answer of the
-- authorizer; with a code in the request all these folders have it, and without one the folders
-- that have a code have the same.
pub batch_update_folders-IsChecked :
    {S R : Type 0} (ctrl : Folders.FolderController S R) (user : UserInfo)
    (req : Folders.BatchUpdateFolderRequest) (w : Folders.World S R)
    → ((Folders.batch_update_folders ctrl user req w).1 ≡ w) ⊎ IsChecked ctrl user req w.db
unfolding Folders.batch_update_folders
batch_update_folders-IsChecked ctrl user req w =
    elim (Checked-cases (Folders.update_checks ctrl user req w.db)) [
      | inl (ids, passes) ↦ inr (update_checks-IsChecked ctrl user req w.db passes)
      | inr (r, stops) ↦ inl (rw stops refl)
    ]
