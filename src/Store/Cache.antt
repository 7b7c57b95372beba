-- ===== src/Store/Cache.antt =====
-- internal/store/redis/cache.go and convert.go: the resources as hashes on Redis, a hash for each
-- resource and a set of the ids for each type. Here: the keys, the fields of a hash, and the
-- commands that the cache sends, which are given; what it relies on of them is in Cache/Redis.
-- The children hold the four types without values, the secrets, and the search.
pub mod Meta
pub mod Secrets
pub mod Search
pub mod Redis
pub mod Keys
pub mod Refines
use Prim.Native.String
use Prim.Native.Char.{Char}
use env_vault.Base.{
  ℕ, String, Bool, true, false, Option, none, some, List, [], ◌∷◌, Result, ok, err, Action, str_eq,
  if◌then◌else◌, ◌≡◌, eq_iff, arith, refl,
}
use env_vault.Base.Int.{ℤ, pos}
use env_vault.Text.Decimal.{parse_int}
use env_vault.Domain.{Time}
use env_vault.Service.Secret.{Ciphertext, RawCiphertext}

pub data ResourceType : Type 0 where
  org project env folder secret : ResourceType

abbrev pub type_name : ResourceType → String
type_name org = "org"
type_name project = "project"
type_name env = "env"
type_name folder = "folder"
type_name secret = "secret"

-- The fields of a hash. A field that is missing reads as the empty text, as in a Go map.
abbrev pub Fields : Type 0
Fields = List (String × String)

unfoldable pub field : String → Fields → String
field name [] = ""
field name ((other, value) ∷ fs) = if str_eq other name then value else field name fs

-- HSET of one field and of several: the other fields stay.
unfoldable pub put_field : String → String → Fields → Fields
put_field name value [] = (name, value) ∷ []
put_field name value ((other, old) ∷ fs) =
    let rest = put_field name value fs in
    if str_eq other name then (other, value) ∷ fs else (other, old) ∷ rest

unfoldable pub put_fields : Fields → Fields → Fields
unfolding put_field
put_fields [] fs = fs
put_fields ((name, value) ∷ new) fs = put_fields new (put_field name value fs)

pub field-put_field :
    (other name value : String) (fs : Fields)
    → field other (put_field name value fs) ≡ (if str_eq name other then value else field other fs)
unfolding field put_field
field-put_field other name value [] = refl
field-put_field other name value ((n, v) ∷ fs) =
    ground
      (arith, eq_iff n name, eq_iff n other, eq_iff name other, field-put_field other name value fs)

-- The commands that the cache sends.
pub record CacheOps (R : Type 0) : Type 0 where
  pub del : List String → Action R (Unit {0})
  -- goredis.Nil is none
  pub hget : String → String → R → Result (Option String)
  pub hset : String → Fields → Action R (Unit {0})
  pub hget_all : String → R → Result Fields
  pub set : String → String → Action R (Unit {0})
  pub sadd : String → String → Action R (Unit {0})
  pub srem : String → String → Action R (Unit {0})
  pub smembers : String → R → Result (List String)
  -- the keys that one step finds, and the next cursor
  pub scan : ℕ → String → ℕ → R → Result (List String × ℕ)

-- What the cache uses of Go's `unicode`, `time`, `encoding/base64` and `encoding/json`.
pub record Codec : Type 0 where
  pub lower : Char → Char
  pub format : Time → String
  pub parse : String → Option Time
  pub base64 : RawCiphertext → String
  pub read_base64_json : String → Option Ciphertext

-- `Cache`; the prefix stands without a colon at its end
pub record Cache : Type 0 where
  pub prefix : String

unfoldable pub type_ids_key : Cache → ResourceType → String
type_ids_key c t = String.◌++◌ c.prefix (String.◌++◌ ":" (String.◌++◌ (type_name t) ":ids"))

unfoldable pub type_key : Cache → ResourceType → String → String
type_key c t id =
    String.◌++◌ c.prefix (String.◌++◌ ":" (String.◌++◌ (type_name t) (String.◌++◌ ":" id)))

unfoldable pub ids_key : Cache → String
ids_key c = String.◌++◌ c.prefix ":secret:ids"

unfoldable pub secret_key : Cache → String → String
secret_key c id = String.◌++◌ c.prefix (String.◌++◌ ":secret:" id)

unfoldable pub path_key : Cache → String → String
path_key c path = String.◌++◌ c.prefix (String.◌++◌ ":secret:path:" path)

abbrev or_zero : Option ℤ → ℤ
or_zero none = pos 0
or_zero (some n) = n

unfoldable pub atoi : String → ℤ
unfolding parse_int
atoi value = or_zero (parse_int value)

unfoldable pub label_or_id : String → String → String
label_or_id label id = if str_eq label "" then id else label

-- the zero time where the text is no time
unfoldable pub parse_time : Codec → String → Time
parse_time codec value = elim (codec.parse value) [ none ↦ 0 | some t ↦ t ]
