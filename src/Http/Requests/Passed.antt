-- ===== src/Http/Requests/Passed.antt =====
-- internal/http/controller/resource_secret_batch.go: what a request to create passes on to the service.
use env_vault.Base.{
  ◌≡◌, refl, Bool, false, not, List, [], ◌∷◌, map, All, arith, Result, ok, Failure, require,
  then-ok, require-ok, bind-ok,
}
use env_vault.Text.{is_blank, is_secret_key}
use env_vault.Service.Secret.Batch.{
  BatchCreateEnvTarget, BatchCreateSecretSpec, is_empty, collect, each, check_folder,
  check_create_spec,
}
use env_vault.Http.Requests.{
  SecretBatchEnvValue, SecretBatchCreateItem, target_of, check_env_code_uniqueness,
  check_folder_id_uniqueness, env_target, repeats, extract_envs, create_spec, create_request,
}

-- A loop over what a loop has made, element by element.
each-collect :
    {A B : Type 0} (f : A → Result B) (g : B → Result (Unit {0}))
    → ((x : A) (y : B) → f x ≡ ok y → g y ≡ ok tt)
    → (xs : List A) (ys : List B) → collect f xs ≡ ok ys
    → each g ys ≡ ok tt
each-collect f g passes [] ys h = let e : [] ≡ ys = ground arith in rw (← e) refl
each-collect f g passes (x ∷ xs) ys h =
    let (y, made, h1) = bind-ok (f x) _ h in
    let (zs, rest, h2) = bind-ok (collect f xs) _ h1 in
    let e : y ∷ zs ≡ ys = ground arith in
    rw (← e) (rw (passes x y made, each-collect f g passes xs zs rest) refl)

env_target-folder :
    (e : SecretBatchEnvValue) (t : BatchCreateEnvTarget)
    → env_target e ≡ ok t
    → check_folder t ≡ ok tt
env_target-folder e t h =
    let (_, h1) = then-ok (require (not (is_blank e.env_code)) _) _ h in
    let (given, h2) = then-ok (require (not (is_blank e.folder_id)) _) _ h1 in
    let same : target_of e ≡ t = ground arith in rw (← same) given

-- What a loop over some elements makes is not empty.
collect-nonempty :
    {A B : Type 0} (f : A → Result B) (xs : List A) (ys : List B)
    → is_empty xs ≡ false
    → collect f xs ≡ ok ys
    → is_empty ys ≡ false
collect-nonempty f [] ys some_x h = absurd (ground arith)
collect-nonempty f (x ∷ xs) ys some_x h =
    let (y, _, h1) = bind-ok (f x) _ h in
    let (zs, _, h2) = bind-ok (collect f xs) _ h1 in
    let e : y ∷ zs ≡ ys = ground arith in rw (← e) refl

abbrev HasDistinct : List BatchCreateEnvTarget → Type 0
HasDistinct envs =
    (repeats (map (λ e. e.env_code) envs) ≡ false) × (repeats (map (λ e. e.folder_id) envs) ≡ false)

-- No environment and no folder is named twice.
abbrev pub IsDistinct : BatchCreateSecretSpec → Type 0
IsDistinct spec = HasDistinct spec.envs

not-true : (b : Bool) (e : Failure) → require (not b) e ≡ ok tt → b ≡ false
not-true b e h = let passed = require-ok (not b) e h in ground arith

extract_envs-passes :
    (item : SecretBatchCreateItem) (envs : List BatchCreateEnvTarget)
    → extract_envs item ≡ ok envs
    → (is_empty envs ≡ false) × (each check_folder envs ≡ ok tt) × HasDistinct envs
unfolding extract_envs
extract_envs-passes item envs h =
    let (some_env, h1) = then-ok (require (not (is_empty item.env_list)) _) _ h in
    let (targets, made, h2) = bind-ok (collect env_target item.env_list) _ h1 in
    let (codes, h3) = then-ok (check_env_code_uniqueness targets) _ h2 in
    let (folders, h4) = then-ok (check_folder_id_uniqueness targets) _ h3 in
    let e : targets ≡ envs = ground arith in
    rw (← e) (
      collect-nonempty env_target item.env_list targets (not-true _ _ some_env) made,
      each-collect env_target check_folder env_target-folder item.env_list targets made,
      (not-true _ _ codes, not-true _ _ folders),
    )

create_spec-passes :
    (item : SecretBatchCreateItem) (spec : BatchCreateSecretSpec)
    → create_spec item ≡ ok spec
    → (check_create_spec spec ≡ ok tt) × IsDistinct spec
create_spec-passes item spec h =
    let (key, h1) = then-ok (require (is_secret_key item.key) _) _ h in
    let (envs, made, h2) = bind-ok (extract_envs item) _ h1 in
    let (some_env, folders, distinct) = extract_envs-passes item envs made in
    let e : record { key = item.key; comment = item.comment; envs = envs } ≡ spec = ground arith in
    rw (← e) (rw (key, some_env, folders) refl, distinct)

All-collected :
    {A B : Type 0} (f : A → Result B) (P : B → Type 0)
    → ((x : A) (y : B) → f x ≡ ok y → P y)
    → (xs : List A) (ys : List B) → collect f xs ≡ ok ys
    → All P ys
All-collected f P step [] ys h = let e : [] ≡ ys = ground arith in rw (← e) tt
All-collected f P step (x ∷ xs) ys h =
    let (y, made, h1) = bind-ok (f x) _ h in
    let (zs, rest, h2) = bind-ok (collect f xs) _ h1 in
    let e : y ∷ zs ≡ ys = ground arith in
    rw (← e) (step x y made, All-collected f P step xs zs rest)

-- A request to create secrets that the controller lets through passes the input checks of the service:
-- it is not empty, each of its specifications has a key of the right form and some environment, and
-- each environment a folder. Beyond these, no specification names an environment or a folder twice.
create_request_passes :
    (items : List SecretBatchCreateItem) (specs : List BatchCreateSecretSpec)
    → create_request items ≡ ok specs
    → (is_empty specs ≡ false) × (each check_create_spec specs ≡ ok tt) × All IsDistinct specs
unfolding create_request
create_request_passes items specs h =
    let (some_item, made) = then-ok (require (not (is_empty items)) _) _ h in
    (
      collect-nonempty create_spec items specs (not-true _ _ some_item) made,
      each-collect create_spec check_create_spec (λ x y made. (create_spec-passes x y made).0) items
          specs made,
      All-collected create_spec IsDistinct (λ x y made. (create_spec-passes x y made).1) items specs
          made,
    )
