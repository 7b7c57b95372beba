-- ===== src/Auth/Bearer.antt =====
-- The Authorization header: internal/auth/jwt.go (bearerToken), internal/auth/pat.go (IsPAT,
-- ExtractPAT), and the shape of a user id, internal/id/uuid.go (IsUUID).
use Prim.Native.Char.{code}
use Prim.Native.String
use Prim.Native.String.{[], ◌∷◌}
use env_vault.Base.{
  ℕ, suc, String, ◌≡◌, refl, Bool, ◌&&◌, ◌||◌, Option, none, some, leb, ◌==◌, str_eq, Result, ok,
  err, missing_bearer_token, if◌then◌else◌,
}
use env_vault.Text.{trim_space, strip_prefix, has_prefix, trim_prefix}

abbrev pub bearer : String
bearer = "Bearer "

abbrev pub nonempty_token : String → Result String
nonempty_token token = if str_eq token "" then err missing_bearer_token else ok token

abbrev stripped_token : Option String → Result String
stripped_token none = err missing_bearer_token
stripped_token (some rest) = nonempty_token (trim_space rest)

-- The empty header has no prefix, so the test for it is the test for the prefix.
unfoldable pub bearer_token : String → Result String
bearer_token header =
    if str_eq header ""
    then err missing_bearer_token
    else stripped_token (strip_prefix bearer header)

abbrev pub pat_prefix : String
pat_prefix = "envvault-"

unfoldable pub is_pat : String → Bool
unfolding has_prefix
is_pat header = has_prefix header "Bearer envvault-"

unfoldable pub extract_pat : String → String
unfolding trim_prefix
extract_pat header = trim_prefix header bearer

unfoldable pub is_hex : ℕ → Bool
is_hex c = leb b'0' c && leb c b'9' || leb b'a' c && leb c b'f' || leb b'A' c && leb c b'F'

-- The test at one place of the loop.
unfoldable pub uuid_char : ℕ → ℕ → Bool
unfolding is_hex
uuid_char i c = if i == 8 || i == 13 || i == 18 || i == 23 then c == b'-' else is_hex c

-- The loop, with `len(value) == 36` tested at its end: a text whose characters all pass is ASCII,
-- so its bytes are its characters.
unfoldable pub uuid_from : ℕ → String → Bool
unfolding uuid_char
uuid_from i [] = i == 36
uuid_from i (c ∷ s) = uuid_char i (code c) && uuid_from (suc i) s

unfoldable pub is_uuid : String → Bool
unfolding uuid_from
is_uuid value = uuid_from 0 (trim_space value)

bearer_pat : String.◌++◌ bearer pat_prefix ≡ "Bearer envvault-"
bearer_pat = refl
