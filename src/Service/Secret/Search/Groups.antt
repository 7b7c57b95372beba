-- ===== src/Service/Secret/Search/Groups.antt =====
-- internal/service/secret_service.go, aggregateSecretsByProject: what the groups hold.
use env_vault.Base.{
  String, ◌≡◌, refl, ap, ◌∙◌, ◌≢◌, Bool, false, ◌&&◌, Option, none, some, List, [], ◌∷◌, inl, inr,
  Bool-cases, arith, str_eq, eq_iff, if◌then◌else◌,
}
use env_vault.Service.Secret.{Secret}
use env_vault.Service.Secret.Search.{
  SecretGroup, Groups, put_env, with_env, add_record, add_records,
}

-- The secret of a key in an environment, as the groups show it.
abbrev pub find_env : String → List (String × Secret) → Option Secret
find_env code [] = none
find_env code ((code', x) ∷ envs) =
    let rest = find_env code envs in if str_eq code' code then some x else rest

abbrev pub find : String → String → String → Groups → Option Secret
find folder_code key code [] = none
find folder_code key code (((folder_code', key'), g) ∷ gs) =
    let rest = find folder_code key code gs in
    if str_eq folder_code' folder_code && str_eq key' key then find_env code g.envs else rest

-- The last of the records in a folder, with a key, in an environment: the reference.
abbrev pub is_at : String → String → String → Secret → Bool
is_at folder_code key code x =
    str_eq x.folder_code folder_code && str_eq x.key key && str_eq x.environment_code code

abbrev pub last_at : String → String → String → List Secret → Option Secret → Option Secret
last_at folder_code key code [] found = found
last_at folder_code key code (x ∷ xs) found =
    last_at folder_code key code xs (if is_at folder_code key code x then some x else found)

find_env-put_env :
    (code code' : String) (x : Secret) (envs : List (String × Secret))
    → find_env code (put_env code' x envs)
      ≡ (if str_eq code' code then some x else find_env code envs)
unfolding put_env
find_env-put_env code code' x [] = refl
find_env-put_env code code' x ((code'', y) ∷ envs) = ground (
  arith,
  eq_iff code'' code',
  eq_iff code'' code,
  eq_iff code' code,
  find_env-put_env code code' x envs,
)

find_env-with_env :
    (code : String) (x : Secret) (g : SecretGroup)
    → str_eq code "" ≡ false
    → find_env code (with_env x g).envs
      ≡ (if str_eq x.environment_code code then some x else find_env code g.envs)
find_env-with_env code x g named = ground (
  arith,
  eq_iff x.environment_code "",
  eq_iff x.environment_code code,
  eq_iff code "",
  find_env-put_env code x.environment_code x g.envs,
)

find-add_record :
    (folder_code key code : String) (x : Secret) (gs : Groups)
    → str_eq code "" ≡ false
    → find folder_code key code (add_record x gs)
      ≡ (if is_at folder_code key code x then some x else find folder_code key code gs)
unfolding add_record
find-add_record folder_code key code x [] named =
    rw (find_env-with_env code x (record { key = x.key; envs = [] }) named) (ground arith)
find-add_record folder_code key code x (((folder_code', key'), g) ∷ gs) named =
    elim (Bool-cases (str_eq folder_code' x.folder_code && str_eq key' x.key)) [
      | inl same ↦ ground (
        arith,
        eq_iff folder_code' x.folder_code,
        eq_iff key' x.key,
        find_env-with_env code x g named,
      )
      | inr other ↦ ground (
        arith,
        eq_iff folder_code' x.folder_code,
        eq_iff key' x.key,
        eq_iff x.folder_code folder_code,
        eq_iff folder_code' folder_code,
        eq_iff key' key,
        eq_iff x.key key,
        find-add_record folder_code key code x gs named,
      )
    ]

find-add_records :
    (folder_code key code : String) (xs : List Secret) (gs : Groups)
    → str_eq code "" ≡ false
    → find folder_code key code (add_records xs gs)
      ≡ last_at folder_code key code xs (find folder_code key code gs)
unfolding add_records
find-add_records folder_code key code [] gs named = refl
find-add_records folder_code key code (x ∷ xs) gs named =
    find-add_records folder_code key code xs (add_record x gs) named
    ∙ ap (last_at folder_code key code xs) (find-add_record folder_code key code x gs named)

-- In the groups of a project's search, the secret under a folder's code, a key and an environment
-- is the last of the records that have all three, for an environment's code that is not empty.
pub grouped_is_last :
    (folder_code key code : String) (xs : List Secret)
    → code ≢ ""
    → find folder_code key code (add_records xs []) ≡ last_at folder_code key code xs none
grouped_is_last folder_code key code xs named =
    find-add_records folder_code key code xs [] (ground (arith, eq_iff code ""))
