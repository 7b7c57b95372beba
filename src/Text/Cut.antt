-- ===== src/Text/Cut.antt =====
-- Cutting a text at a separator undoes joining by it.
use Prim.Native.Char.{Char, code}
use Prim.Native.String
use Prim.Native.String.{[], ◌∷◌}
use mathlib.Core.List.{[], ◌∷◌}
use text.Mathlib.TextLemmas.{nil-append, cons-append}
use text.Mathlib.TextEquality.{Char-path}
use env_vault.Base.{ℕ, String, ◌≡◌, ◌≢◌, some, inl, inr, arith, ◌==◌, Bool-cases, Option-cases}
use env_vault.Text.{cut}

-- The separator does not occur.
abbrev pub Lacks : ℕ → String → Type 0
Lacks sep [] = Unit
Lacks sep (c ∷ s) = (code c ≢ sep) × Lacks sep s

pub cut-append :
    (sep : Char) (s t : String)
    → Lacks (code sep) s
    → cut (code sep) (String.◌++◌ s (sep ∷ t)) ≡ some (s, t)
unfolding cut
cut-append sep [] t h = rw nil-append (ground arith)
cut-append sep (c ∷ s) t h = rw cons-append (ground (arith, cut-append sep s t h.1))

pub append_of_cut :
    (sep : Char) (s a b : String)
    → cut (code sep) s ≡ some (a, b)
    → (s ≡ String.◌++◌ a (sep ∷ b)) × Lacks (code sep) a
unfolding cut
append_of_cut sep [] a b h = ground arith
append_of_cut sep (c ∷ s) a b h = elim (Bool-cases (code c == code sep)) [
  | inl same ↦
      let e : c ≡ sep = Char-path c sep (ground arith) in
      let (front, back) : ("" ≡ a) × (s ≡ b) = ground arith in
      rw (← front) (rw nil-append (cc (e, back)), tt)
  | inr other ↦ elim (Option-cases (cut (code sep) s)) [
    | inl missing ↦ ground arith
    | inr ((p, q), found) ↦
        let (front, back) : (c ∷ p ≡ a) × (q ≡ b) = ground arith in
        let (joined, lacks) = append_of_cut sep s p q found in
        rw (← front) (rw cons-append (cc (joined, back)), (ground arith, lacks))
  ]
]

pub Lacks-append_left : (sep : ℕ) (s t : String) → Lacks sep (String.◌++◌ s t) → Lacks sep s
Lacks-append_left sep [] t h = tt
Lacks-append_left sep (c ∷ s) t h =
    let (first, rest) : Lacks sep (c ∷ String.◌++◌ s t) = rw (cons-append c s t) at h in
    (first, Lacks-append_left sep s t rest)
