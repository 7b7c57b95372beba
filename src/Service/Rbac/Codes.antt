-- ===== src/Service/Rbac/Codes.antt =====
-- internal/service/rbac_service.go: permission codes, and which actions they cover.
pub mod Covers
pub mod Split
use Prim.Native.String
use env_vault.Base.{
  String, Bool, true, false, ◌&&◌, ◌||◌, Option, none, some, List, [], ◌∷◌, ◌++◌, str_eq,
  if◌then◌else◌,
}
use env_vault.Text.{trim_space, has_prefix, trim_prefix, has_suffix, trim_suffix, strip_suffix, cut}
use env_vault.Auth.{member}

abbrev pub no_code : String × String
no_code = ("", "")

-- code[:idx], code[idx+1:], neither of them empty
abbrev both_parts : Option (String × String) → String × String
both_parts none = no_code
both_parts (some (resource, action)) =
    if str_eq resource "" || str_eq action "" then no_code else (resource, action)

unfoldable pub split_code : String → String × String
split_code code =
    let code' = trim_space code in
    if str_eq code' ""
    then no_code
    else if has_prefix code' "env:template:"
    then ("env_template", trim_prefix code' "env:template:")
    else both_parts (cut b':' code')

-- `*:manage` covers `*:read`
unfoldable pub manage_covers : String → String → Bool
manage_covers parent child =
    has_suffix parent ":manage"
    && has_suffix child ":read"
    && str_eq (trim_suffix parent ":manage") (trim_suffix child ":read")

unfoldable pub action_covers : String → String → Bool
unfolding manage_covers
action_covers parent child =
    let parent' = trim_space parent in
    let child' = trim_space child in
    if str_eq parent' ""
    then false
    else if str_eq parent' child'
    then true
    else if str_eq parent' "update" && str_eq child' "read"
    then true
    else manage_covers parent' child'

-- the first loop of `expandCoveredCodes`
unfoldable pub owned_actions : List String → List String
owned_actions [] = []
owned_actions (code ∷ codes) =
    let rest = owned_actions codes in
    let action = (split_code code).1 in if str_eq action "" then rest else action ∷ rest

-- the last loop: what it adds ends in ":read", so it adds nothing for what it has added
unfoldable pub managed_reads : List String → List String
managed_reads [] = []
managed_reads (action ∷ actions) =
    let rest = managed_reads actions in
    elim (strip_suffix ":manage" action) [
      | none ↦ rest
      | some prefix ↦ String.◌++◌ prefix ":read" ∷ rest
    ]

unfoldable pub expand_covered_codes : List String → List String
unfolding owned_actions managed_reads
expand_covered_codes owned_codes =
    let actions = owned_actions owned_codes in
    let actions' = if member "update" actions then "read" ∷ actions else actions in
    managed_reads actions' ++ actions'
