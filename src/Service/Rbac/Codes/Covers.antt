-- ===== src/Service/Rbac/Codes/Covers.antt =====
-- internal/service/rbac_service.go: the set that `expandCoveredCodes` builds decides `actionCovers` for every owned code at once.
use Prim.Native.String
use env_vault.Base.{
  String, ◌≡◌, refl, ◌∙◌, Bool, false, ◌&&◌, ◌||◌, none, some, List, [], ◌∷◌, ◌++◌, inl, inr, arith,
  str_eq, eq_iff, any, any-append, All, Bool-cases, Option-cases, if◌then◌else◌,
}
use env_vault.Text.{trim_space, has_suffix, trim_suffix, strip_suffix}
use env_vault.Text.Affix.{strip_suffix-append, append_of_strip_suffix}
use env_vault.Auth.{member}
use env_vault.Service.Rbac.Codes.{
  split_code, manage_covers, action_covers, owned_actions, managed_reads, expand_covered_codes,
}

-- What `*:manage` adds is what it covers.
manage_covers_of_strip :
    (parent prefix child : String)
    → strip_suffix ":manage" parent ≡ some prefix
    → manage_covers parent child ≡ str_eq child (String.◌++◌ prefix ":read")
unfolding manage_covers has_suffix trim_suffix
manage_covers_of_strip parent prefix child h = elim (Option-cases (strip_suffix ":read" child)) [
  | inl missing ↦
      ground (arith, eq_iff child (String.◌++◌ prefix ":read"), strip_suffix-append prefix ":read")
  | inr (start, found) ↦ ground (
    arith,
    eq_iff child (String.◌++◌ prefix ":read"),
    eq_iff prefix start,
    strip_suffix-append prefix ":read",
    append_of_strip_suffix ":read" child start,
  )
]

manage_covers_of_no_strip :
    (parent child : String)
    → strip_suffix ":manage" parent ≡ none
    → manage_covers parent child ≡ false
unfolding manage_covers has_suffix
manage_covers_of_no_strip parent child h = rw h

-- An action without white space at its ends.
abbrev pub IsTidy : String → Type 0
IsTidy action = trim_space action ≡ action

-- `actionCovers` of a tidy action that is owned, as three tests.
action_covers_of_IsTidy :
    (parent child : String)
    → IsTidy parent
    → IsTidy child
    → str_eq parent "" ≡ false
    → action_covers parent child ≡ (
        str_eq parent child
        || (str_eq parent "update" && str_eq child "read")
        || manage_covers parent child)
unfolding action_covers
action_covers_of_IsTidy parent child p c h = ground arith

-- The three ways in which a set of actions grants `child`, as `expandCoveredCodes` adds them.
abbrev granted_by : List String → String → Bool
granted_by actions child =
    member child (managed_reads actions)
    || (member "update" actions && str_eq child "read")
    || member child actions

granted_by-cons :
    (action : String) (actions : List String) (child : String)
    → granted_by (action ∷ actions) child ≡ (
        str_eq action child
        || (str_eq action "update" && str_eq child "read")
        || manage_covers action child
        || granted_by actions child)
unfolding managed_reads
granted_by-cons action actions child = elim (Option-cases (strip_suffix ":manage" action)) [
  | inl missing ↦ ground (
    arith,
    manage_covers_of_no_strip action child missing,
    eq_iff action child,
    eq_iff child action,
    eq_iff "update" action,
    eq_iff action "update",
  )
  | inr (prefix, found) ↦ ground (
    arith,
    manage_covers_of_strip action prefix child found,
    eq_iff action child,
    eq_iff child action,
    eq_iff "update" action,
    eq_iff action "update",
  )
]

abbrev pub HasTidyAction : String → Type 0
HasTidyAction code = IsTidy (split_code code).1

action_covers_nothing : (child : String) → action_covers "" child ≡ false
unfolding action_covers trim_space
action_covers_nothing child = refl

granted_by-owned_actions :
    (codes : List String) (child : String)
    → All HasTidyAction codes
    → IsTidy child
    → granted_by (owned_actions codes) child
      ≡ any (λ code. action_covers (split_code code).1 child) codes
unfolding owned_actions managed_reads
granted_by-owned_actions [] child h c = ground arith
granted_by-owned_actions (code ∷ codes) child (h, hs) c =
    elim (Bool-cases (str_eq (split_code code).1 "")) [
      | inl empty ↦
          let e : (split_code code).1 ≡ "" = (eq_iff _ _).0 empty in
          rw (empty, owned_actions)
            (rw e (rw action_covers_nothing (granted_by-owned_actions codes child hs c)))
      | inr full ↦ ground (
        arith,
        granted_by-cons (split_code code).1 (owned_actions codes) child,
        action_covers_of_IsTidy (split_code code).1 child h c full,
        granted_by-owned_actions codes child hs c,
      )
    ]

member-expand :
    (actions : List String) (child : String)
    → member child (
        managed_reads (if member "update" actions then "read" ∷ actions else actions)
        ++ (if member "update" actions then "read" ∷ actions else actions))
      ≡ granted_by actions child
unfolding managed_reads strip_suffix
member-expand actions child = elim (Bool-cases (member "update" actions)) [
  | inl has ↦
      rw has (ground (arith, any-append (str_eq child) (managed_reads actions) ("read" ∷ actions)))
  | inr lacks ↦ rw lacks (ground (arith, any-append (str_eq child) (managed_reads actions) actions))
]

-- When the actions of the owned codes and the requested action have no white space at their ends,
-- the set that `expandCoveredCodes` builds contains the requested action exactly when
-- `actionCovers` accepts it for one of the owned codes.
pub expand_iff_covers :
    (codes : List String) (child : String)
    → All HasTidyAction codes
    → IsTidy child
    → member child (expand_covered_codes codes)
      ≡ any (λ code. action_covers (split_code code).1 child) codes
unfolding expand_covered_codes
expand_iff_covers codes child h c =
    member-expand (owned_actions codes) child ∙ granted_by-owned_actions codes child h c
