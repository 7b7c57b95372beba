-- ===== src/Service/Secret/Paths/RoundTrip.antt =====
-- internal/service/secret_service.go: which paths parseSecretPath takes, and what it makes of them.
use Prim.Native.Char.{Char, code}
use Prim.Native.String
use Prim.Native.String.{[], ◌∷◌}
use mathlib.Core.List.{List, [], ◌∷◌}
use text.Mathlib.TextLemmas.{nil-append, cons-append}
use text.Mathlib.TextEquality.{Char-path}
use mathlib.Core.Path.{subst}
use env_vault.Base.{
  String, ◌≡◌, refl, sym, ap, ◌∙◌, ◌≢◌, ◌↔◌, false, inl, inr, arith, ◌==◌, Bool-cases, ok, All, any,
}
use env_vault.Text.{split, prepend_part, trim_space, is_blank}
use env_vault.Text.Cut.{Lacks}
use env_vault.Service.Secret.Paths.{SecretPath, five_parts, parse_secret_path}

abbrev dot : Char
dot = "."

-- Parts joined by dots.
abbrev pub dotted : String → List String → String
dotted s [] = s
dotted s (t ∷ ts) = String.◌++◌ s (dot ∷ dotted t ts)

split_of_Lacks : (s : String) → Lacks b'.' s → split b'.' s ≡ s ∷ []
unfolding split
split_of_Lacks [] h = refl
split_of_Lacks (c ∷ s) (h, hs) = ground (arith, split_of_Lacks s hs)

split-append :
    (s t : String) → Lacks b'.' s → split b'.' (String.◌++◌ s (dot ∷ t)) ≡ s ∷ split b'.' t
unfolding split
split-append [] t h = rw nil-append (ground arith)
split-append (c ∷ s) t (h, hs) = rw cons-append (ground (arith, split-append s t hs))

split-dotted :
    (s : String) (ts : List String) → All (Lacks b'.') (s ∷ ts) → split b'.' (dotted s ts) ≡ s ∷ ts
split-dotted s [] (h, _) = split_of_Lacks s h
split-dotted s (t ∷ ts) (h, hs) = rw (split-append s (dotted t ts) h, split-dotted t ts hs) refl

-- What a split gives back: its parts hold no dot and join to the text.
abbrev Joins : String → List String → Type 0
Joins s [] = ⊥
Joins s (t ∷ ts) = (dotted t ts ≡ s) × All (Lacks b'.') (t ∷ ts)

Joins-prepend_part :
    (c : Char) (s : String) (parts : List String)
    → code c ≢ b'.'
    → Joins s parts
    → Joins (c ∷ s) (prepend_part c parts)
Joins-prepend_part c s [] other h = absurd h
Joins-prepend_part c s (t ∷ []) other (joined, (lacks, _)) =
    (ap (λ u. c ∷ u) joined, ((other, lacks), tt))
Joins-prepend_part c s (t ∷ u ∷ ts) other (joined, (lacks, more)) =
    (cons-append c t _ ∙ ap (λ u. c ∷ u) joined, ((other, lacks), more))

Joins-after_dot :
    (c : Char) (s : String) (parts : List String)
    → code c ≡ b'.'
    → Joins s parts
    → Joins (c ∷ s) ("" ∷ parts)
Joins-after_dot c s [] same h = absurd h
Joins-after_dot c s (t ∷ ts) same (joined, lacks) =
    let e : c ≡ dot = Char-path c dot same in (nil-append _ ∙ cc (e, joined), (tt, lacks))

split-Joins : (s : String) → Joins s (split b'.' s)
unfolding split
split-Joins [] = (refl, (tt, tt))
split-Joins (c ∷ s) = elim (Bool-cases (code c == b'.')) [
  | inl same ↦ rw same (Joins-after_dot c s (split b'.' s) (ground arith) (split-Joins s))
  | inr other ↦ rw other (Joins-prepend_part c s (split b'.' s) (ground arith) (split-Joins s))
]

abbrev pub segments : SecretPath → List String
segments p = p.org_code ∷ p.project_code ∷ p.env_code ∷ p.folder_code ∷ p.key ∷ []

five_parts-ok :
    (parts : List String) (p : SecretPath)
    → five_parts parts ≡ ok p
    → (parts ≡ segments p) × (any is_blank (segments p) ≡ false)
five_parts-ok (o ∷ q ∷ e ∷ f ∷ k ∷ []) p h =
    elim (Bool-cases (any is_blank (o ∷ q ∷ e ∷ f ∷ k ∷ []))) [
      | inl blank ↦ absurd (ground arith)
      | inr given ↦
          let same : record {
            org_code = o;
            project_code = q;
            env_code = e;
            folder_code = f;
            key = k;
          }
              ≡ p =
            ground arith in
          rw (← same) (refl, given)
    ]
five_parts-ok parts p h = cc

-- A path parses exactly when, with the white space at its ends cut off, it is five segments joined
-- by dots, each of them without a dot and not blank; the result is these segments.
pub parse_secret_path_iff :
    (path : String) (p : SecretPath)
    → (parse_secret_path path ≡ ok p) ↔ (
        (trim_space path
          ≡ dotted p.org_code (p.project_code ∷ p.env_code ∷ p.folder_code ∷ p.key ∷ []))
        × All (Lacks b'.') (segments p)
        × (any is_blank (segments p) ≡ false))
unfolding parse_secret_path
parse_secret_path_iff path p = (
  λ h.
      let (same, given) = five_parts-ok (split b'.' (trim_space path)) p h in
      let joins : Joins (trim_space path) (segments p) =
        subst (λ x. Joins (trim_space path) x) same (split-Joins (trim_space path)) in
      (sym joins.0, joins.1, given),
  λ (joined, lacks, given). rw (joined, split-dotted p.org_code _ lacks, given) refl,
)
