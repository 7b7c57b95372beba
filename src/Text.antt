-- ===== src/Text.antt =====
-- The functions of Go's package `strings` and the regular expressions that the program uses, over
-- the code points of a text. The proofs are in the modules below.
pub mod Trim
pub mod Affix
pub mod Cut
pub mod Decimal
use Prim.Native.Char.{Char, code}
use Prim.Native.String
use Prim.Native.String.{[], ◌∷◌}
use mathlib.Core.List.{List, [], ◌∷◌}
use env_vault.Base.{
  ℕ, zero, suc, ◌+◌, ltb, String, Bool, true, false, ◌&&◌, ◌||◌, Option, none, some, leb, ◌==◌, not,
  str_eq, if◌then◌else◌,
}

-- unicode.IsSpace
unfoldable pub is_space : ℕ → Bool
is_space c =
    leb 9 c && leb c 13
    || c == 32
    || c == 0x85
    || c == 0xa0
    || c == 0x1680
    || leb 0x2000 c && leb c 0x200a
    || c == 0x2028
    || c == 0x2029
    || c == 0x202f
    || c == 0x205f
    || c == 0x3000

unfoldable pub trim_left : String → String
trim_left [] = ""
trim_left (c ∷ s) = let rest = trim_left s in if is_space (code c) then rest else c ∷ s

-- One character in front of a text that is trimmed on its right.
unfoldable pub before_trimmed : Char → String → String
before_trimmed c [] = if is_space (code c) then "" else c ∷ ""
before_trimmed c (d ∷ s) = c ∷ d ∷ s

unfoldable pub trim_right : String → String
trim_right [] = ""
trim_right (c ∷ s) = before_trimmed c (trim_right s)

-- strings.TrimSpace
unfoldable pub trim_space : String → String
unfolding is_space trim_left before_trimmed trim_right
trim_space s = trim_right (trim_left s)

-- strings.TrimSpace(s) == ""
abbrev pub is_blank : String → Bool
is_blank s = str_eq (trim_space s) ""

-- What follows a prefix: strings.HasPrefix, strings.TrimPrefix.
unfoldable pub strip_prefix : String → String → Option String
strip_prefix [] s = some s
strip_prefix (c ∷ p) [] = none
strip_prefix (c ∷ p) (d ∷ s) = if code c == code d then strip_prefix p s else none

abbrev pub is_some {ℓ} : {A : Type ℓ} → Option A → Bool
is_some none = false
is_some (some a) = true

unfoldable pub has_prefix : String → String → Bool
unfolding strip_prefix
has_prefix s p = is_some (strip_prefix p s)

-- strings.Contains
unfoldable pub contains : String → String → Bool
unfolding has_prefix
contains [] sub = has_prefix [] sub
contains (c ∷ s) sub = has_prefix (c ∷ s) sub || contains s sub

unfoldable pub trim_prefix : String → String → String
unfolding strip_prefix
trim_prefix s p = elim (strip_prefix p s) [ none ↦ s | some rest ↦ rest ]

abbrev pub prepend : Char → Option String → Option String
prepend c none = none
prepend c (some s) = some (c ∷ s)

-- What stands before a suffix: strings.HasSuffix, strings.TrimSuffix.
unfoldable pub strip_suffix : String → String → Option String
strip_suffix q [] = if str_eq q "" then some "" else none
strip_suffix q (c ∷ s) = if str_eq (c ∷ s) q then some "" else prepend c (strip_suffix q s)

unfoldable pub has_suffix : String → String → Bool
unfolding strip_suffix
has_suffix s q = is_some (strip_suffix q s)

unfoldable pub trim_suffix : String → String → String
unfolding strip_suffix
trim_suffix s q = elim (strip_suffix q s) [ none ↦ s | some start ↦ start ]

abbrev pub prepend_first : Char → Option (String × String) → Option (String × String)
prepend_first c none = none
prepend_first c (some (s, t)) = some (c ∷ s, t)

-- `i := strings.Index(s, sep)` for a separator of one character, with `s[:i]` and `s[i+1:]`.
unfoldable pub cut : ℕ → String → Option (String × String)
cut sep [] = none
cut sep (c ∷ s) = if code c == sep then some ("", s) else prepend_first c (cut sep s)

abbrev pub prepend_part : Char → List String → List String
prepend_part c [] = (c ∷ "") ∷ []
prepend_part c (s ∷ parts) = (c ∷ s) ∷ parts

-- strings.Split for a separator of one character.
unfoldable pub split : ℕ → String → List String
split sep [] = "" ∷ []
split sep (c ∷ s) =
    let parts = split sep s in if code c == sep then "" ∷ parts else prepend_part c parts

unfoldable pub all_codes : (ℕ → Bool) → String → Bool
all_codes p [] = true
all_codes p (c ∷ s) = p (code c) && all_codes p s

-- strings.ToLower, for a mapping of single characters (unicode.ToLower).
unfoldable pub to_lower : (Char → Char) → String → String
to_lower lower [] = ""
to_lower lower (c ∷ s) = lower c ∷ to_lower lower s

-- `\s` in a regular expression
unfoldable pub is_re_space : ℕ → Bool
is_re_space c = c == 9 || c == 10 || c == 12 || c == 13 || c == 32

-- `[^\s@]`
unfoldable pub is_email_char : ℕ → Bool
unfolding is_re_space
is_email_char c = not (is_re_space c || c == b'@')

unfoldable pub dot_then_more : String → Bool
dot_then_more [] = false
dot_then_more (c ∷ s) = code c == b'.' && not (str_eq s "") || dot_then_more s

unfoldable pub has_inner_dot : String → Bool
unfolding dot_then_more
has_inner_dot [] = false
has_inner_dot (c ∷ s) = dot_then_more s

abbrev pub email_parts : Option (String × String) → Bool
email_parts none = false
email_parts (some (user, host)) =
    not (str_eq user "")
    && all_codes is_email_char user
    && all_codes is_email_char host
    && has_inner_dot host

-- `^[^\s@]+@[^\s@]+\.[^\s@]+$`
unfoldable pub is_email : String → Bool
unfolding cut all_codes is_email_char has_inner_dot
is_email s = email_parts (cut b'@' s)

unfoldable pub is_upper : ℕ → Bool
is_upper c = leb b'A' c && leb c b'Z'

unfoldable pub is_key_char : ℕ → Bool
unfolding is_upper
is_key_char c = is_upper c || leb b'0' c && leb c b'9' || c == b'_'

-- `^[A-Z][A-Z0-9_]*$`
unfoldable pub is_secret_key : String → Bool
unfolding is_upper is_key_char all_codes
is_secret_key [] = false
is_secret_key (c ∷ s) = is_upper (code c) && all_codes is_key_char s

-- the first characters, `s[:n]` for a text of ASCII
unfoldable pub first_chars : ℕ → String → String
first_chars zero s = ""
first_chars (suc n) [] = ""
first_chars (suc n) (c ∷ s) = let rest = first_chars n s in c ∷ rest

-- The bytes of a code point in UTF-8.
abbrev utf8_len : ℕ → ℕ
utf8_len c = if ltb c 0x80 then 1 else if ltb c 0x800 then 2 else if ltb c 0x10000 then 3 else 4

-- `len` of a string, which counts its bytes
unfoldable pub byte_len : String → ℕ
byte_len [] = 0
byte_len (c ∷ s) = utf8_len (code c) + byte_len s
