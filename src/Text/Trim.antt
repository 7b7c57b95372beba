-- ===== src/Text/Trim.antt =====
-- What `strings.TrimSpace` leaves has no white space at its ends, and is left as it is.
use Prim.Native.Char.{Char, code}
use Prim.Native.String.{[], ◌∷◌}
use env_vault.Base.{String, ◌≡◌, refl, false, ap, ◌∙◌, inl, inr, Bool-cases}
use env_vault.Text.{is_space, trim_left, trim_right, before_trimmed, trim_space}

-- The first character, if there is one, is no white space.
abbrev pub StartsClean : String → Type 0
StartsClean [] = Unit
StartsClean (c ∷ s) = is_space (code c) ≡ false

trim_left-StartsClean : (s : String) → StartsClean (trim_left s)
unfolding trim_left
trim_left-StartsClean [] = tt
trim_left-StartsClean (c ∷ s) = elim (Bool-cases (is_space (code c))) [
  | inl space ↦ rw space (trim_left-StartsClean s)
  | inr clean ↦ rw clean clean
]

trim_left_of_StartsClean : (s : String) → StartsClean s → trim_left s ≡ s
unfolding trim_left
trim_left_of_StartsClean [] h = refl
trim_left_of_StartsClean (c ∷ s) h = rw h

before_trimmed-StartsClean :
    (c : Char) (s : String) → is_space (code c) ≡ false → StartsClean (before_trimmed c s)
unfolding before_trimmed
before_trimmed-StartsClean c [] h = rw h h
before_trimmed-StartsClean c (d ∷ s) h = h

trim_right-StartsClean : (s : String) → StartsClean s → StartsClean (trim_right s)
unfolding trim_right
trim_right-StartsClean [] h = tt
trim_right-StartsClean (c ∷ s) h = before_trimmed-StartsClean c (trim_right s) h

trim_right-before_trimmed :
    (c : Char) (s : String)
    → trim_right s ≡ s
    → trim_right (before_trimmed c s) ≡ before_trimmed c s
unfolding trim_right before_trimmed
trim_right-before_trimmed c [] h = elim (Bool-cases (is_space (code c))) [
  | inl space ↦ rw space
  | inr clean ↦ rw clean (rw clean)
]
trim_right-before_trimmed c (d ∷ s) h = rw (h, before_trimmed)

trim_right-trim_right : (s : String) → trim_right (trim_right s) ≡ trim_right s
unfolding trim_right
trim_right-trim_right [] = refl
trim_right-trim_right (c ∷ s) = trim_right-before_trimmed c (trim_right s) (trim_right-trim_right s)

pub trim_space-trim_space : (s : String) → trim_space (trim_space s) ≡ trim_space s
unfolding trim_space
trim_space-trim_space s =
    ap trim_right (trim_left_of_StartsClean _ (trim_right-StartsClean _ (trim_left-StartsClean s)))
    ∙ trim_right-trim_right (trim_left s)
