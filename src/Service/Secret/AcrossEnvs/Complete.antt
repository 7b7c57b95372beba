-- ===== src/Service/Secret/AcrossEnvs/Complete.antt =====
-- internal/service/secret_service.go, ListAcrossEnvs: what its answer covers.
use env_vault.Base.{
  String, Bool, true, ◌&&◌, ◌||◌, ◌≡◌, refl, ap, ◌∙◌, any-append, inl, inr, List, [], ◌∷◌, ◌++◌,
  map, any, all, arith, str_eq, ok, Result-cases, Bool-cases, eq_iff, eq_refl,
}
use env_vault.Auth.{UserInfo, member}
use env_vault.Service.Secret.{Secret, RawCiphertext, SecretService, World, decrypt}
use env_vault.Service.Secret.FolderReveal.{decode}
use env_vault.Service.Secret.AcrossEnvs.Cases.{across_envs-ok}
use env_vault.Service.Secret.AcrossEnvs.{
  EnvSecretValue, GroupState, env_value, hit_group, EnvValues, SecretAcrossEnvs, GroupStates, Query,
  no_values, put_value, put_hit, group_answer, hit_keys, placeholders, project_code_of, answer,
  clean_query, group_rows, list_across_envs,
}

abbrev pub has_env : String → EnvValues → Bool
has_env code envs = member code (map (λ e. e.0) envs)

has_env-no_values :
    (code : String) (codes : List String) → has_env code (no_values codes) ≡ member code codes
has_env-no_values code [] = refl
has_env-no_values code (c ∷ codes) = ground (arith, has_env-no_values code codes)

has_env-put_value :
    (c code : String) (v : EnvSecretValue) (envs : EnvValues)
    → has_env c envs ≡ true
    → has_env c (put_value code v envs) ≡ true
unfolding put_value
has_env-put_value c code v [] h = absurd (ground arith)
has_env-put_value c code v ((code', v') ∷ envs) h = elim (Bool-cases (str_eq code' code)) [
  | inl same ↦ ground arith
  | inr other ↦ elim (Bool-cases (str_eq c code')) [
    | inl here ↦ ground arith
    | inr there ↦ ground (arith, has_env-put_value c code v envs)
  ]
]

has_env-hit_group :
    (c : String) (x : Secret) (plaintext : String) (g : GroupState)
    → has_env c g.envs ≡ true
    → has_env c (hit_group x plaintext g).envs ≡ true
has_env-hit_group c x plaintext g =
    has_env-put_value c x.environment_code (env_value x plaintext) g.envs

abbrev all_have : String → GroupStates → Bool
all_have c = all (λ g. has_env c g.1.envs)

all_have-put_hit :
    (c : String) (env_list : List String) (x : Secret) (plaintext : String) (gs : GroupStates)
    → member c env_list ≡ true
    → all_have c gs ≡ true
    → all_have c (put_hit env_list x plaintext gs) ≡ true
unfolding put_hit
all_have-put_hit c env_list x plaintext [] asked h = ground (
  arith,
  has_env-put_value c x.environment_code (env_value x plaintext) (no_values env_list),
  has_env-no_values c env_list,
)
all_have-put_hit c env_list x plaintext (((folder_code, key), g) ∷ gs) asked h =
    elim (Bool-cases (str_eq folder_code x.folder_code && str_eq key x.key)) [
      | inl same ↦ ground (arith, has_env-hit_group c x plaintext g)
      | inr other ↦ ground (arith, all_have-put_hit c env_list x plaintext gs)
    ]

all_have-group_rows :
    {D C : Type 0} (s : SecretService D C) (c : String) (env_list : List String)
    (rows : List (Secret × RawCiphertext)) (gs out : GroupStates)
    → member c env_list ≡ true
    → all_have c gs ≡ true
    → group_rows s env_list rows gs ≡ ok out
    → all_have c out ≡ true
unfolding group_rows
all_have-group_rows s c env_list [] gs out asked h done = ground arith
all_have-group_rows s c env_list ((x, raw) ∷ rows) gs out asked h done =
    elim (Result-cases (decode raw)) [
      | inr (e, failed) ↦ absurd (ground arith)
      | inl (ciphertext, decoded) ↦ elim (Result-cases (decrypt s ciphertext)) [
        | inr (e, failed) ↦ absurd (ground arith)
        | inl (plaintext, opened) ↦
            all_have-group_rows s c env_list rows (put_hit env_list x plaintext gs) out asked
              (all_have-put_hit c env_list x plaintext gs asked h) (ground arith)
      ]
    ]

abbrev pub all_list : String → List SecretAcrossEnvs → Bool
all_list c = all (λ a. has_env c a.envs)

abbrev pub has_key : String → List SecretAcrossEnvs → Bool
has_key k = any (λ a. str_eq k a.key)

all_list-append :
    (c : String) (xs ys : List SecretAcrossEnvs)
    → all_list c xs ≡ true
    → all_list c ys ≡ true
    → all_list c (xs ++ ys) ≡ true
all_list-append c [] ys h k = k
all_list-append c (x ∷ xs) ys h k = ground (arith, all_list-append c xs ys)

all_list-groups : (c : String) (gs : GroupStates) → all_list c (map group_answer gs) ≡ all_have c gs
all_list-groups c [] = refl
all_list-groups c (g ∷ gs) = ground (arith, all_list-groups c gs)

has_key-groups :
    (k : String) (gs : GroupStates) → has_key k (map group_answer gs) ≡ member k (hit_keys gs)
has_key-groups k [] = refl
has_key-groups k (g ∷ gs) = ground (arith, has_key-groups k gs)

all_list-placeholders :
    (c project_code : String) (env_list hits ks : List String)
    → member c env_list ≡ true
    → all_list c (placeholders project_code env_list hits ks) ≡ true
unfolding placeholders
all_list-placeholders c project_code env_list hits [] asked = refl
all_list-placeholders c project_code env_list hits (k ∷ ks) asked =
    elim (Bool-cases (member k hits)) [
      | inl hit ↦ ground (arith, all_list-placeholders c project_code env_list hits ks)
      | inr missed ↦ ground (
        arith,
        all_list-placeholders c project_code env_list hits ks,
        has_env-no_values c env_list,
      )
    ]

-- A requested key is among the hits or has a placeholder.
has_key-placeholders :
    (key project_code : String) (env_list hits ks : List String)
    → member key ks ≡ true
    → (member key hits || has_key key (placeholders project_code env_list hits ks)) ≡ true
unfolding placeholders
has_key-placeholders key project_code env_list hits [] asked = absurd (ground arith)
has_key-placeholders key project_code env_list hits (k ∷ ks) asked =
    elim (Bool-cases (str_eq key k)) [
      | inl same ↦
          let equal : key ≡ k = ground (arith, eq_iff key k) in
          elim (Bool-cases (member k hits)) [ inl hit ↦ ground arith | inr missed ↦ ground arith ]
      | inr other ↦ elim (Bool-cases (member k hits)) [
        | inl hit ↦ ground (arith, has_key-placeholders key project_code env_list hits ks)
        | inr missed ↦ ground (arith, has_key-placeholders key project_code env_list hits ks)
      ]
    ]

answer-has_key :
    (rows : List (Secret × RawCiphertext)) (keys env_list : List String) (gs : GroupStates)
    (k : String)
    → member k keys ≡ true
    → has_key k (answer rows keys env_list gs) ≡ true
unfolding answer
answer-has_key rows keys env_list gs k key_asked =
    let project_code = project_code_of rows in
    let missing = placeholders project_code env_list (hit_keys gs) keys in
    any-append (λ a. str_eq k a.key) (map group_answer gs) missing
    ∙ ap (λ b. b || has_key k missing) (has_key-groups k gs)
    ∙ has_key-placeholders k project_code env_list (hit_keys gs) keys key_asked

answer-all_list :
    (rows : List (Secret × RawCiphertext)) (keys env_list : List String) (gs : GroupStates)
    (c : String)
    → member c env_list ≡ true
    → all_have c gs ≡ true
    → all_list c (answer rows keys env_list gs) ≡ true
unfolding answer
answer-all_list rows keys env_list gs c env_asked h =
    let project_code = project_code_of rows in
    let missing = placeholders project_code env_list (hit_keys gs) keys in
    all_list-append c (map group_answer gs) missing (all_list-groups c gs ∙ h)
      (all_list-placeholders c project_code env_list (hit_keys gs) keys env_asked)

-- A test that every member of a list passes holds of the whole list.
all-member :
    (p : String → Bool) (xs : List String)
    → ((x : String) → member x xs ≡ true → p x ≡ true)
    → all p xs ≡ true
all-member p [] h = refl
all-member p (x ∷ xs) h =
    let here : p x ≡ true = h x (ground (arith, eq_refl x)) in
    let later : all p xs ≡ true = all-member p xs (λ y there. h y (ground arith)) in rw here later

-- A list across environments that returns has an entry for every requested key, and each of its entries
-- has every requested environment, for the keys and environments that the request is left with
-- once blanks and repetitions are dropped; also when no key is requested, which lists them all.
pub across_envs_complete :
    {D C : Type 0} (s : SecretService D C) (user : UserInfo) (project_id folder_code : String)
    (keys env_list : List String) (actor : String) (w : World D C) (q : Query)
    (out : List SecretAcrossEnvs)
    → clean_query user project_id folder_code keys env_list ≡ ok q
    → (list_across_envs s user project_id folder_code keys env_list actor w).0 ≡ ok out
    → (all (λ k. has_key k out) q.keys ≡ true) × (all (λ c. all_list c out) q.env_list ≡ true)
across_envs_complete s user project_id folder_code keys env_list actor w q out cleaned h =
    let (q', rows, gs, cleaned', grouped, _, same, _) =
      across_envs-ok s user actor w project_id folder_code keys env_list out h in
    let one : q' ≡ q = ground arith in
    let complete : (all (λ k. has_key k out) q'.keys ≡ true)
        × (all (λ c. all_list c out) q'.env_list ≡ true) =
      rw same (
        all-member _ q'.keys (answer-has_key rows q'.keys q'.env_list gs),
        all-member _ q'.env_list (λ c asked.
            answer-all_list rows q'.keys q'.env_list gs c asked
              (all_have-group_rows s c q'.env_list rows [] gs asked refl grouped)),
      ) in
    rw (← one) complete
