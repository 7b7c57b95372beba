-- ===== src/Service/Rbac/Codes/Split.antt =====
-- internal/service/rbac_service.go: `splitCode` takes apart what a permission code joins.
use Prim.Native.String
use Prim.Native.Char.{Char}
use Prim.Native.String.{[], ◌∷◌}
use text.Mathlib.TextLemmas.{nil-append, cons-append, cons-ne-nil}
use env_vault.Base.{
  String, ◌≡◌, ◌≢◌, ◌⊎◌, inl, inr, false, ◌||◌, refl, some, arith, str_eq, eq_iff, Bool-cases,
  Option-cases,
}
use env_vault.Text.{trim_space, has_prefix, trim_prefix, strip_prefix, cut}
use env_vault.Text.Affix.{append_of_strip_prefix}
use env_vault.Text.Cut.{Lacks, cut-append, append_of_cut}
use env_vault.Service.Rbac.Codes.{split_code, both_parts}

abbrev colon : Char
colon = ":"

colon-append : (s : String) → String.◌++◌ ":" s ≡ colon ∷ s
colon-append s = rw cons-append (rw nil-append)

abbrev pub join_code : String → String → String
join_code resource action = String.◌++◌ resource (String.◌++◌ ":" action)

not_empty_of_cut : (s a b : String) → cut b':' s ≡ some (a, b) → str_eq s "" ≡ false
unfolding cut
not_empty_of_cut [] a b h = cc
not_empty_of_cut (c ∷ s) a b h = elim (Bool-cases (str_eq (c ∷ s) "")) [
  | inl same ↦ absurd (cons-ne-nil c s ((eq_iff _ _).0 same))
  | inr other ↦ other
]

-- A code `resource:action` with both parts present, no colon in the resource, no white space at
-- its ends and no `env:template:` in front splits into its parts; the action may hold colons.
split_code-join_code :
    (resource action : String)
    → Lacks b':' resource
    → resource ≢ ""
    → action ≢ ""
    → trim_space (join_code resource action) ≡ join_code resource action
    → has_prefix (join_code resource action) "env:template:" ≡ false
    → split_code (join_code resource action) ≡ (resource, action)
unfolding split_code
split_code-join_code resource action lacks r a tidy other =
    let found : cut b':' (join_code resource action) ≡ some (resource, action) =
      rw colon-append (cut-append colon resource action lacks) in
    let full : str_eq (join_code resource action) "" ≡ false = not_empty_of_cut _ _ _ found in
    rw tidy (rw full (rw other (rw found (ground (arith, eq_iff resource "", eq_iff action "")))))

-- How the parts of a code make up the code.
abbrev pub CodeParts : String → String × String → Type 0
CodeParts code (resource, action) =
    (◌≡◌ {A = String × String} (resource, action) ("", ""))
    ⊎ (resource ≡ "env_template") × (code ≡ String.◌++◌ "env:template:" action)
    ⊎ (code ≡ join_code resource action) × Lacks b':' resource × (resource ≢ "") × (action ≢ "")

both_parts_cases :
    (code resource action : String)
    → code ≡ String.◌++◌ resource (colon ∷ action)
    → Lacks b':' resource
    → CodeParts code (both_parts (some (resource, action)))
both_parts_cases code resource action joined lacks =
    elim (Bool-cases (str_eq resource "" || str_eq action "")) [
      | inl missing ↦ inl (rw missing)
      | inr present ↦ inr (
          inr (
            rw present (
              rw colon-append joined,
              lacks,
              ground (arith, eq_iff resource ""),
              ground (arith, eq_iff action ""),
            )))
    ]

-- What `splitCode` makes of a code, with the white space at its ends cut off: no action, or the
-- action behind `env:template:`, or the parts in front of and behind the first colon.
split_code_cases : (code : String) → CodeParts (trim_space code) (split_code code)
unfolding split_code
split_code_cases code = elim (Bool-cases (str_eq (trim_space code) "")) [
  | inl blank ↦ inl (rw blank)
  | inr full ↦ elim (Option-cases (strip_prefix "env:template:" (trim_space code))) [
    | inr (rest, found) ↦ inr (
        inl (
          rw full (
            unfold has_prefix trim_prefix in
            rw (found, has_prefix)
              (rw (found, trim_prefix) (refl, append_of_strip_prefix _ _ _ found)))))
    | inl missing ↦ elim (Option-cases (cut b':' (trim_space code))) [
      | inl none_found ↦
          inl (rw full (unfold has_prefix in rw (missing, has_prefix) (rw none_found)))
      | inr ((resource, action), found) ↦
          let (joined, lacks) = append_of_cut colon (trim_space code) resource action found in
          rw full (
            unfold has_prefix in
            rw (missing, has_prefix) (rw found (both_parts_cases _ resource action joined lacks)))
    ]
  ]
]
