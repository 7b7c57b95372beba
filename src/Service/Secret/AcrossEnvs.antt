-- ===== src/Service/Secret/AcrossEnvs.antt =====
-- internal/service/secret_service.go, ListAcrossEnvs, with internal/domain/cross_env_secret.go: the
-- secrets of a project side by side in several environments.
pub mod Cases
pub mod Audit
pub mod Complete
use env_vault.Base.{
  ℕ, ◌+◌, suc, String, Bool, true, false, not, ◌&&◌, ◌||◌, Option, none, some, List, [], ◌∷◌, ◌++◌,
  map, length, ltb, str_eq, Result, ok, err, Failure, failure, permission_denied, require, Action,
  ◌>>=◌, ◌>>◌, if◌then◌else◌,
}
use env_vault.Text.{trim_space, is_blank, is_secret_key}
use env_vault.Domain.{Time}
use env_vault.Auth.{UserInfo, member}
use env_vault.Service.Secret.{
  Secret, RawCiphertext, AuditPayload, across_keys, across_items, SecretService, World, decrypt,
}
use env_vault.Service.Secret.Batch.{is_empty}
use env_vault.Service.Secret.FolderReveal.{decode, shown_after}

pub record EnvSecretValue : Type 0 where
  pub folder_id : String
  pub value : String
  pub version : ℕ
  pub comment : String
  pub id : String
  pub sort_order : ℕ
  pub updated_at : Time

-- `map[string]*EnvSecretValue`, in the order of its first insertions; nil is none.
abbrev pub EnvValues : Type 0
EnvValues = List (String × Option EnvSecretValue)

pub record SecretAcrossEnvs : Type 0 where
  pub project_code : String
  pub key : String
  pub comment : String
  pub envs : EnvValues

pub record GroupState : Type 0 where
  pub project_code : String
  pub comment : String
  pub envs : EnvValues
  pub has_hit : Bool

-- by folder code and key, in the order of their first secrets
abbrev pub GroupStates : Type 0
GroupStates = List ((String × String) × GroupState)

abbrev pub passed_over : List String → String → Bool
passed_over seen e = str_eq e "" || member e seen

-- the environments without blanks and repetitions, after those already seen
unfoldable pub clean_envs : List String → List String → List String
unfolding trim_space
clean_envs seen [] = []
clean_envs seen (e ∷ es) =
    let again = passed_over seen (trim_space e) in
    let rest = clean_envs (if again then seen else trim_space e ∷ seen) es in
    if again then rest else trim_space e ∷ rest

abbrev check_key : String → Result (Unit {0})
check_key k = require (str_eq k "" || is_secret_key k) (failure "key must match ^[A-Z][A-Z0-9_]*$")

-- the keys likewise, each of which has the form of a key
unfoldable pub clean_keys : List String → List String → Result (List String)
unfolding trim_space is_secret_key
clean_keys seen [] = ok []
clean_keys seen (k ∷ ks) =
    let again = passed_over seen (trim_space k) in
    let rest = clean_keys (if again then seen else trim_space k ∷ seen) ks in
    check_key (trim_space k) >> rest >>= λ cleaned.
    ok (if again then cleaned else trim_space k ∷ cleaned)

-- every requested environment, without a value
abbrev pub no_values : List String → EnvValues
no_values = map (λ code. (code, none))

-- g.envs[code] = value
unfoldable pub put_value : String → EnvSecretValue → EnvValues → EnvValues
put_value code v [] = (code, some v) ∷ []
put_value code v ((code', v') ∷ envs) =
    let rest = put_value code v envs in
    if str_eq code' code then (code', some v) ∷ envs else (code', v') ∷ rest

abbrev pub env_value : Secret → String → EnvSecretValue
env_value x plaintext = record {
  folder_id = x.folder_id;
  value = plaintext;
  version = x.version;
  comment = x.comment;
  id = x.id;
  sort_order = x.sort_order;
  updated_at = x.updated_at;
}

abbrev pub hit_group : Secret → String → GroupState → GroupState
hit_group x plaintext g = record g {
  comment = if g.has_hit then g.comment else x.comment;
  has_hit = true;
  envs = put_value x.environment_code (env_value x plaintext) g.envs;
}

-- the group of the secret's folder and key, made when it is missing, gets the value
unfoldable pub put_hit : List String → Secret → String → GroupStates → GroupStates
unfolding put_value
put_hit env_list x plaintext [] =
    (
      (x.folder_code, x.key),
      hit_group x plaintext (record {
        project_code = x.project_code;
        comment = "";
        envs = no_values env_list;
        has_hit = false;
      }),
    )
    ∷ []
put_hit env_list x plaintext (((folder_code, key), g) ∷ gs) =
    let rest = put_hit env_list x plaintext gs in
    if str_eq folder_code x.folder_code && str_eq key x.key
    then ((folder_code, key), hit_group x plaintext g) ∷ gs
    else ((folder_code, key), g) ∷ rest

-- the first project code that is not empty
unfoldable pub project_code_of : List (Secret × RawCiphertext) → String
project_code_of [] = ""
project_code_of ((x, raw) ∷ rows) =
    let rest = project_code_of rows in if str_eq x.project_code "" then rest else x.project_code

unfoldable pub count_values : EnvValues → ℕ
count_values [] = 0
count_values ((code, none) ∷ envs) = count_values envs
count_values ((code, some v) ∷ envs) = suc (count_values envs)

unfoldable pub total_hits : GroupStates → ℕ
unfolding count_values
total_hits [] = 0
total_hits ((gk, g) ∷ gs) = count_values g.envs + total_hits gs

abbrev pub payload : String → List String → List String → GroupStates → AuditPayload
payload folder_code keys env_list gs =
    if is_empty keys
    then across_items env_list (total_hits gs) (map (λ g. g.0) gs)
    else across_keys folder_code keys env_list (total_hits gs)

abbrev pub group_answer : (String × String) × GroupState → SecretAcrossEnvs
group_answer ((folder_code, key), g) = record {
  project_code = g.project_code;
  key = key;
  comment = g.comment;
  envs = g.envs;
}

abbrev pub hit_keys : GroupStates → List String
hit_keys = map (λ g. g.0.1)

-- an entry without values for each requested key that no group has
unfoldable pub placeholders :
    String → List String → List String → List String → List SecretAcrossEnvs
placeholders project_code env_list hits [] = []
placeholders project_code env_list hits (k ∷ ks) =
    let rest = placeholders project_code env_list hits ks in
    if member k hits
    then rest
    else (record { project_code = project_code; key = k; comment = ""; envs = no_values env_list }
        ∷ rest)

unfoldable pub answer :
    List (Secret × RawCiphertext) → List String → List String → GroupStates → List SecretAcrossEnvs
answer rows keys env_list gs =
    map group_answer gs ++ placeholders (project_code_of rows) env_list (hit_keys gs) keys

pub record Query : Type 0 where
  pub project_id : String
  pub folder_code : String
  pub keys : List String
  pub env_list : List String

-- what is checked before the repository is asked, and the request that is left
unfoldable pub clean_query : UserInfo → String → String → List String → List String → Result Query
unfolding clean_keys clean_envs trim_space
clean_query user project_id folder_code keys env_list = do
  require (not (is_blank user.user_id)) permission_denied
  require (not (is_blank project_id)) (failure "projectId is required")
  cleaned_keys ← clean_keys [] keys
  require (not (ltb 32 (length cleaned_keys))) (failure "keyList exceeds max length 32")
  require (is_empty cleaned_keys || not (is_blank folder_code))
      (failure "folderCode is required when keyList is provided")
  let cleaned = clean_envs [] env_list
  require (not (is_empty cleaned)) (failure "envList must contain at least one non-empty env code")
  require (not (ltb 32 (length cleaned))) (failure "envList exceeds max length 32")
  ok (record {
    project_id = trim_space project_id;
    folder_code = trim_space folder_code;
    keys = cleaned_keys;
    env_list = cleaned;
  })

module _ {D C : Type 0} (s : SecretService D C) where
  unfoldable pub fetch : UserInfo → Query → D → Result (List (Secret × RawCiphertext))
  fetch user q d =
      if is_empty q.keys
      then s.repo.list_secrets_in_project_by_envs user.user_id "secret:read" q.project_id
          q.folder_code q.env_list d
      else s.repo.list_secrets_by_project_folder_key user.user_id "secret:read" q.project_id
          q.folder_code q.keys q.env_list d

  -- the loop over the rows, until the first that cannot be opened
  unfoldable pub group_rows :
      List String → List (Secret × RawCiphertext) → GroupStates → Result GroupStates
  unfolding put_hit
  group_rows env_list [] gs = ok gs
  group_rows env_list ((x, raw) ∷ rows) gs = do
    ciphertext ← decode raw
    plaintext ← decrypt s ciphertext
    group_rows env_list rows (put_hit env_list x plaintext gs)

  unfoldable pub audit_groups : String → Query → GroupStates → Action (World D C) (Unit {0})
  audit_groups actor q [] w = (ok tt, w)
  audit_groups actor q (g ∷ gs) w =
      let (r, d) =
        s.repo.record_audit actor "project" q.project_id "reveal_batch"
          (payload q.folder_code q.keys q.env_list (g ∷ gs)) w.db in
      (r, record w { db = d })

  abbrev pub fetched : UserInfo → Query → D → Result (List (Secret × RawCiphertext) × GroupStates)
  fetched user q d = do rows ← fetch user q d; gs ← group_rows q.env_list rows []; ok (rows, gs)

  abbrev pub answered : UserInfo → String → Query → Action (World D C) (List SecretAcrossEnvs)
  answered user actor q w = elim (fetched user q w.db) [
    | err e ↦ (err e, w)
    | ok (rows, gs) ↦ shown_after s (answer rows q.keys q.env_list gs) (audit_groups actor q gs w)
  ]

  unfoldable pub list_across_envs :
      UserInfo
      → String
      → String
      → List String
      → List String
      → String
      → Action (World D C) (List SecretAcrossEnvs)
  list_across_envs user project_id folder_code keys env_list actor w =
      elim (clean_query user project_id folder_code keys env_list) [
        | err e ↦ (err e, w)
        | ok q ↦ answered user actor q w
      ]
