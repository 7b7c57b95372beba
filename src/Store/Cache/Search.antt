-- ===== src/Store/Cache/Search.antt =====
-- internal/store/redis/cache.go: GlobalSearch, and SearchSecrets. The five goroutines of a search only
-- read; a type whose search fails is left empty. The mapping of characters of strings.ToLower, base64,
-- JSON and the layout of times are the codec's.
pub mod Hits
pub mod Sound
use env_vault.Base.{
  ℕ, zero, suc, ◌-◌, String, Bool, true, false, ◌&&◌, ◌||◌, not, Option, none, some, List, [], ◌∷◌,
  map, length, leb, Result, ok, err, str_eq, ◌>>=◌, if◌then◌else◌,
}
use env_vault.Base.Int.{ℤ, pos, negsuc, pos_part}
use env_vault.Domain.{Time}
use env_vault.Text.{trim_space, to_lower, contains}
use env_vault.Service.Secret.{Ciphertext, Encryptor, ListFilter}
use env_vault.Service.Secret.Batch.{is_empty, collect}
use env_vault.Store.Cache.{
  ResourceType, org, project, env, folder, secret, type_name, Fields, field, CacheOps, Codec, Cache,
  type_ids_key, type_key, ids_key, secret_key, atoi, label_or_id, parse_time,
}

pub record GlobalSearchHit : Type 0 where
  pub id : String
  pub code : String
  pub name : String
  pub comment : String
  pub match_field : String
  pub key : String
  pub path : String
  pub folder_id : String
  pub env_id : String
  pub project_id : String
  pub org_id : String

pub record GlobalSearchResult : Type 0 where
  pub orgs : List GlobalSearchHit
  pub projects : List GlobalSearchHit
  pub envs : List GlobalSearchHit
  pub folders : List GlobalSearchHit
  pub secrets : List GlobalSearchHit

abbrev no_hits : GlobalSearchResult
no_hits = record { orgs = []; projects = []; envs = []; folders = []; secrets = [] }

unfoldable pub contains_fold : Codec → String → String → Bool
unfolding to_lower contains
contains_fold codec haystack needle =
    not (str_eq haystack "" || str_eq needle "") && contains (to_lower codec.lower haystack) needle

abbrev common_hit : Fields → String → GlobalSearchHit
common_hit values match_field = record {
  id = field "id" values;
  code = field "code" values;
  name = field "name" values;
  comment = field "comment" values;
  match_field = match_field;
  key = "";
  path = "";
  folder_id = "";
  env_id = "";
  project_id = "";
  org_id = "";
}

unfoldable pub build_hit : ResourceType → Fields → String → GlobalSearchHit
unfolding field
build_hit org values f = common_hit values f
build_hit project values f = record (common_hit values f) { org_id = field "org_id" values }
build_hit env values f = record (common_hit values f) { project_id = field "project_id" values }
build_hit folder values f = record (common_hit values f) {
  env_id = field "environment_id" values;
  project_id = field "project_id" values;
}
build_hit secret values f = record (common_hit values f) {
  key = field "key" values;
  path = field "path" values;
  folder_id = field "folder_id" values;
  env_id = field "environment_id" values;
  project_id = field "project_id" values;
  org_id = field "org_id" values;
}

abbrev taken : Option GlobalSearchHit → ℕ
taken none = 0
taken (some x) = 1

-- a hit is kept, and the loop ends when there is room for no other
abbrev keep_hit : ℕ → Option GlobalSearchHit → List GlobalSearchHit → List GlobalSearchHit
keep_hit room none rest = rest
keep_hit room (some x) rest = if leb room 1 then x ∷ [] else x ∷ rest

unfoldable pub first_hits :
    ℕ → (Fields → Option GlobalSearchHit) → List Fields → List GlobalSearchHit
first_hits room hit [] = []
first_hits room hit (h ∷ hs) =
    let rest = first_hits (room - taken (hit h)) hit hs in keep_hit room (hit h) rest

abbrev opened : Encryptor → Option Ciphertext → Option String
opened encryptor none = none
opened encryptor (some ct) = elim (encryptor.decrypt_bytes ct) [
  | err e ↦ none
  | ok plain ↦ some plain
]

unfoldable pub decrypt_cached_value : Codec → Option Encryptor → String → Option String
decrypt_cached_value codec none text = none
decrypt_cached_value codec (some encryptor) text = opened encryptor (codec.read_base64_json text)

abbrev plain_matches : Codec → String → Option String → Bool
plain_matches codec keyword none = false
plain_matches codec keyword (some plain) = contains_fold codec plain keyword

abbrev pub is_secret : ResourceType → Bool
is_secret t = str_eq (type_name t) "secret"

-- the value is only opened for a secret whose other fields do not match
unfoldable pub match_keyword_on_fields :
    Codec → Option Encryptor → ResourceType → String → Fields → Option String
unfolding contains_fold decrypt_cached_value field
match_keyword_on_fields codec encryptor t keyword values =
    if contains_fold codec (field "code" values) keyword
    then some "code"
    else if contains_fold codec (field "name" values) keyword
    then some "name"
    else if contains_fold codec (field "comment" values) keyword
    then some "comment"
    else if is_secret t
        && not (str_eq (field "value_ciphertext" values) "")
        && plain_matches codec keyword
            (decrypt_cached_value codec encryptor (field "value_ciphertext" values))
    then some "value"
    else none

abbrev hit_with : ResourceType → Fields → Option String → Option GlobalSearchHit
hit_with t values none = none
hit_with t values (some f) = some (build_hit t values f)

-- a hash that is not there is passed over
abbrev pub hit_of :
    Codec → Option Encryptor → ResourceType → String → Fields → Option GlobalSearchHit
hit_of codec encryptor t keyword [] = none
hit_of codec encryptor t keyword (f ∷ fs) =
    hit_with t (f ∷ fs) (match_keyword_on_fields codec encryptor t keyword (f ∷ fs))

abbrev hits_or_none : Result (List GlobalSearchHit) → List GlobalSearchHit
hits_or_none (err e) = []
hits_or_none (ok hits) = hits

abbrev pub search_limit : ℤ → ℕ
search_limit (pos zero) = 50
search_limit (pos (suc n)) = suc n
search_limit (negsuc n) = 50

unfoldable pub matches : Codec → Fields → ListFilter → String → Bool
unfolding field to_lower contains
matches codec values filter keyword =
    (str_eq filter.environment_id ""
      || str_eq (field "environment_id" values) filter.environment_id)
    && (str_eq filter.folder_id "" || str_eq (field "folder_id" values) filter.folder_id)
    && (str_eq keyword ""
        || contains (to_lower codec.lower (field "key" values)) keyword
        || contains (to_lower codec.lower (field "path" values)) keyword)

-- What SearchSecrets fills of a `Secret`; a version that is read is signed.
pub record FoundSecret : Type 0 where
  pub id : String
  pub org_id : String
  pub org_code : String
  pub project_id : String
  pub project_code : String
  pub environment_id : String
  pub environment_code : String
  pub folder_id : String
  pub folder_code : String
  pub key : String
  pub path : String
  pub comment : String
  pub version : ℤ
  pub created_by : String
  pub created_by_label : String
  pub updated_by : String
  pub updated_by_label : String
  pub created_at : Time
  pub updated_at : Time

unfoldable pub found_secret : Codec → Fields → FoundSecret
unfolding field atoi label_or_id parse_time
found_secret codec values = record {
  id = field "id" values;
  org_id = field "org_id" values;
  org_code = field "org_code" values;
  project_id = field "project_id" values;
  project_code = field "project_code" values;
  environment_id = field "environment_id" values;
  environment_code = field "environment_code" values;
  folder_id = field "folder_id" values;
  folder_code = field "folder_code" values;
  key = field "key" values;
  path = field "path" values;
  comment = field "comment" values;
  version = atoi (field "version" values);
  created_by = field "created_by" values;
  created_by_label = label_or_id (field "created_by_label" values) (field "created_by" values);
  updated_by = field "updated_by" values;
  updated_by_label = label_or_id (field "updated_by_label" values) (field "updated_by" values);
  created_at = parse_time codec (field "created_at" values);
  updated_at = parse_time codec (field "updated_at" values);
}

unfoldable pub found_secrets : Codec → ListFilter → String → List Fields → List FoundSecret
unfolding matches found_secret
found_secrets codec filter keyword [] = []
found_secrets codec filter keyword (h ∷ hs) =
    let rest = found_secrets codec filter keyword hs in
    if is_empty h || not (matches codec h filter keyword) then rest else found_secret codec h ∷ rest

module _ {R : Type 0} (ops : CacheOps R) (codec : Codec) (c : Cache)
    (encryptor : Option Encryptor) where
  unfoldable pub search_type : ResourceType → String → ℕ → R → Result (List GlobalSearchHit)
  unfolding first_hits match_keyword_on_fields
  search_type t keyword limit s = do
    ids ← ops.smembers (type_ids_key c t) s
    hashes ← collect (λ id. ops.hget_all (type_key c t id) s) ids
    ok (first_hits limit (hit_of codec encryptor t keyword) hashes)

  abbrev hits_of_type : ResourceType → String → ℕ → R → List GlobalSearchHit
  hits_of_type t keyword limit s = hits_or_none (search_type t keyword limit s)

  unfoldable pub global_search : String → ℤ → R → GlobalSearchResult
  unfolding search_type trim_space to_lower
  global_search keyword per_type_limit s =
      let needle = to_lower codec.lower (trim_space keyword) in
      let limit = search_limit per_type_limit in
      if str_eq needle "" then no_hits else record {
        orgs = hits_of_type org needle limit s;
        projects = hits_of_type project needle limit s;
        envs = hits_of_type env needle limit s;
        folders = hits_of_type folder needle limit s;
        secrets = hits_of_type secret needle limit s;
      }

  unfoldable pub search_secrets : ListFilter → R → Result (List FoundSecret)
  unfolding found_secrets
  search_secrets filter s = do
    ids ← ops.smembers (ids_key c) s
    hashes ← collect (λ id. ops.hget_all (secret_key c id) s) ids
    ok (found_secrets codec filter (to_lower codec.lower filter.keyword) hashes)
