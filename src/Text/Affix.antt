-- ===== src/Text/Affix.antt =====
-- Go's `strings.TrimPrefix` and `strings.TrimSuffix`. Prefixes and suffixes: stripping one undoes appending it.
use Prim.Native.Char.{Char, code}
use Prim.Native.String
use Prim.Native.String.{[], ◌∷◌, count}
use text.Mathlib.TextLemmas.{nil-append, cons-append, length-append, length-cons}
use text.Mathlib.TextEquality.{Char-path}
use env_vault.Base.{
  String, ◌≡◌, refl, ap, false, some, inl, inr, arith, ◌==◌, str_eq, eq_iff, eq_refl, Bool-cases,
  Option-cases,
}
use env_vault.Text.{strip_prefix, trim_prefix, strip_suffix}

strip_suffix_longer : (q : String) (c : Char) (s : String) → str_eq (c ∷ String.◌++◌ s q) q ≡ false
strip_suffix_longer q c s = elim (Bool-cases (str_eq (c ∷ String.◌++◌ s q) q)) [
  | inl same ↦
      let e : count (c ∷ String.◌++◌ s q) ≡ count q = ap count ((eq_iff _ _).0 same) in
      absurd (omega (arith, e, length-cons c (String.◌++◌ s q), length-append s q))
  | inr other ↦ other
]

pub strip_suffix-append : (s q : String) → strip_suffix q (String.◌++◌ s q) ≡ some s
unfolding strip_suffix
strip_suffix-append [] [] = refl
strip_suffix-append [] (d ∷ q) = rw nil-append (rw eq_refl)
strip_suffix-append (c ∷ s) q =
    rw cons-append (rw (strip_suffix_longer q c s) (rw (strip_suffix-append s q)))

pub append_of_strip_suffix : (q s x : String) → strip_suffix q s ≡ some x → s ≡ String.◌++◌ x q
unfolding strip_suffix
append_of_strip_suffix q [] x h = ground (arith, eq_iff q "", nil-append q)
append_of_strip_suffix q (c ∷ s) x h = elim (Bool-cases (str_eq (c ∷ s) q)) [
  | inl same ↦
      let e : c ∷ s ≡ q = (eq_iff _ _).0 same in
      let n : "" ≡ x = ground arith in rw (← n) (rw nil-append e)
  | inr other ↦ elim (Option-cases (strip_suffix q s)) [
    | inl missing ↦ ground arith
    | inr (y, found) ↦
        let e : c ∷ y ≡ x = ground arith in
        rw (← e) (rw cons-append (ap (λ (t : String). c ∷ t) (append_of_strip_suffix q s y found)))
  ]
]

pub strip_prefix-append : (p s : String) → strip_prefix p (String.◌++◌ p s) ≡ some s
unfolding strip_prefix
strip_prefix-append [] s = rw nil-append refl
strip_prefix-append (c ∷ p) s = rw cons-append (ground (arith, strip_prefix-append p s))

pub append_of_strip_prefix : (p s x : String) → strip_prefix p s ≡ some x → s ≡ String.◌++◌ p x
unfolding strip_prefix
append_of_strip_prefix [] s x h = rw nil-append (ground arith)
append_of_strip_prefix (c ∷ p) [] x h = ground arith
append_of_strip_prefix (c ∷ p) (d ∷ s) x h = elim (Bool-cases (code c == code d)) [
  | inl same ↦
      let e : c ≡ d = Char-path c d (ground arith) in
      let t : s ≡ String.◌++◌ p x = append_of_strip_prefix p s x (ground arith) in
      rw cons-append (cc (e, t))
  | inr other ↦ ground arith
]

pub trim_prefix-append : (p s : String) → trim_prefix (String.◌++◌ p s) p ≡ s
unfolding trim_prefix
trim_prefix-append p s = rw (trim_prefix, strip_prefix-append p s) refl
