-- ===== src/Store/Cache/Keys.antt =====
-- internal/store/redis/cache.go: the keys of different resources are different.
use Prim.Native.Char.{Char}
use Prim.Native.String
use Prim.Native.String.{◌∷◌}
use text.Mathlib.TextLemmas.{nil-append, cons-append, append_cancel_left, append_assoc}
use env_vault.Base.{
  String, ◌≡◌, ◌≢◌, refl, ap, sym, ◌∙◌, Bool, Option, none, some, arith, str_eq, eq_iff, eq_refl,
  if◌then◌else◌, ◌&&◌, true, false, inl, inr, Bool-cases,
}
use env_vault.Text.{cut}
use env_vault.Text.Cut.{Lacks, cut-append, Lacks-append_left}
use env_vault.Store.Cache.{
  ResourceType, org, project, env, folder, secret, type_name, Cache, type_ids_key, type_key,
  ids_key, secret_key, path_key,
}

abbrev colon : Char
colon = ":"

colon-append : (s : String) → String.◌++◌ ":" s ≡ colon ∷ s
colon-append s = rw cons-append (rw nil-append)

abbrev type_of_name : String → Option ResourceType
type_of_name s =
    if str_eq s "org"
    then some org
    else if str_eq s "project"
    then some project
    else if str_eq s "env"
    then some env
    else if str_eq s "folder"
    then some folder
    else if str_eq s "secret"
    then some secret
    else none

type_of_name-type_name : (t : ResourceType) → type_of_name (type_name t) ≡ some t
type_of_name-type_name org = refl
type_of_name-type_name project = refl
type_of_name-type_name env = refl
type_of_name-type_name folder = refl
type_of_name-type_name secret = refl

type_name-Lacks : (t : ResourceType) → Lacks b':' (type_name t)
type_name-Lacks org = omega arith
type_name-Lacks project = omega arith
type_name-Lacks env = omega arith
type_name-Lacks folder = omega arith
type_name-Lacks secret = omega arith

-- The type and the id, from a key without its prefix.
cut-type :
    (t : ResourceType) (id : String)
    → cut b':' (String.◌++◌ (type_name t) (String.◌++◌ ":" id)) ≡ some (type_name t, id)
cut-type t id = rw colon-append (cut-append colon (type_name t) id (type_name-Lacks t))

-- Two resources with the same key are the same resource.
pub type_key_inj :
    (c : Cache) (t t' : ResourceType) (id id' : String)
    → type_key c t id ≡ type_key c t' id'
    → (t ≡ t') × (id ≡ id')
unfolding type_key
type_key_inj c t t' id id' h =
    let tails = append_cancel_left ":" _ _ (append_cancel_left c.prefix _ _ h) in
    let parts : ◌≡◌ {A = Option (String × String)} (some (type_name t, id))
        (some (type_name t', id')) =
      sym (cut-type t id) ∙ ap (cut b':') tails ∙ cut-type t' id' in
    let names : type_name t ≡ type_name t' = cc parts in
    let same : some t ≡ some t' =
      sym (type_of_name-type_name t) ∙ ap type_of_name names ∙ type_of_name-type_name t' in
    let ids : id ≡ id' = cc parts in let types : t ≡ t' = cc same in (types, ids)

-- The set of the ids stands where a resource of the id `ids` would.
pub type_ids_key_lem : (c : Cache) (t : ResourceType) → type_ids_key c t ≡ type_key c t "ids"
unfolding type_ids_key type_key
type_ids_key_lem c t = refl

pub ids_key_lem : (c : Cache) → ids_key c ≡ type_ids_key c secret
unfolding ids_key type_ids_key
ids_key_lem c = refl

pub secret_key_lem : (c : Cache) (id : String) → secret_key c id ≡ type_key c secret id
unfolding secret_key type_key
secret_key_lem c id =
    ap (String.◌++◌ c.prefix)
      (append_assoc ":" "secret:" id ∙ ap (String.◌++◌ ":") (append_assoc "secret" ":" id))

pub path_key_lem :
    (c : Cache) (path : String) → path_key c path ≡ type_key c secret (String.◌++◌ "path:" path)
unfolding path_key type_key
path_key_lem c path = ap (String.◌++◌ c.prefix) (
    append_assoc ":" "secret:path:" path
    ∙ ap (String.◌++◌ ":") (
        append_assoc "secret" ":path:" path
        ∙ ap (String.◌++◌ "secret") (append_assoc ":" "path:" path)))

abbrev pub same_type : ResourceType → ResourceType → Bool
same_type t u = str_eq (type_name t) (type_name u)

type_key_cong :
    (c : Cache) (t u : ResourceType) (id j : String)
    → type_name t ≡ type_name u
    → id ≡ j
    → type_key c t id ≡ type_key c u j
unfolding type_key
type_key_cong c t u id j types ids = cc

pub type_key_eq :
    (c : Cache) (t u : ResourceType) (id j : String)
    → str_eq (type_key c t id) (type_key c u j) ≡ (same_type t u && str_eq id j)
type_key_eq c t u id j = elim (Bool-cases (str_eq (type_key c t id) (type_key c u j))) [
  | inl same ↦
      let (types, ids) = type_key_inj c t u id j ((eq_iff _ _).0 same) in
      let names : type_name t ≡ type_name u = ap type_name types in
      ground (arith, eq_iff (type_name t) (type_name u), eq_iff id j)
  | inr other ↦ elim (Bool-cases (same_type t u && str_eq id j)) [
    | inl both ↦
        let types : type_name t ≡ type_name u =
          ground (arith, eq_iff (type_name t) (type_name u)) in
        let ids : id ≡ j = ground (arith, eq_iff id j) in
        let equal : str_eq (type_key c t id) (type_key c u j) ≡ true =
          (eq_iff _ _).1 (type_key_cong c t u id j types ids) in
        absurd (ground arith)
    | inr apart ↦ other ∙ sym apart
  ]
]

pub type_ids_key_eq :
    (c : Cache) (t u : ResourceType) → str_eq (type_ids_key c t) (type_ids_key c u) ≡ same_type t u
type_ids_key_eq c t u =
    rw (type_ids_key_lem c t, type_ids_key_lem c u)
      (ground (arith, type_key_eq c t u "ids" "ids", eq_refl "ids"))

pub type_key-ne-ids :
    (c : Cache) (t u : ResourceType) (id : String)
    → id ≢ "ids"
    → str_eq (type_key c t id) (type_ids_key c u) ≡ false
type_key-ne-ids c t u id h =
    rw (type_ids_key_lem c u) (ground (arith, type_key_eq c t u id "ids", eq_iff id "ids"))

path-has-colon : (path : String) → ¬ Lacks b':' (String.◌++◌ "path:" path)
path-has-colon path lacks =
    let front : Lacks b':' "path:" = Lacks-append_left b':' "path:" path lacks in omega arith

-- A resource without a colon in its id is no path.
pub path_key-ne-type_key :
    (c : Cache) (path : String) (u : ResourceType) (id : String)
    → Lacks b':' id
    → str_eq (path_key c path) (type_key c u id) ≡ false
path_key-ne-type_key c path u id lacks =
    rw (path_key_lem c path) (elim (Bool-cases (str_eq (String.◌++◌ "path:" path) id)) [
      | inl same ↦
          let equal : String.◌++◌ "path:" path ≡ id = (eq_iff _ _).0 same in
          absurd (path-has-colon path (rw (← equal) at lacks))
      | inr other ↦ ground (arith, type_key_eq c secret u (String.◌++◌ "path:" path) id)
    ])

pub str_eq-sym_false : (s t : String) → str_eq s t ≡ false → str_eq t s ≡ false
str_eq-sym_false s t h = ground (arith, eq_iff s t, eq_iff t s)

-- Neither a resource nor a set of ids stands at the key of a path.
pub type_key-ne-path_key :
    (c : Cache) (path : String) (u : ResourceType) (id : String)
    → Lacks b':' id
    → str_eq (type_key c u id) (path_key c path) ≡ false
type_key-ne-path_key c path u id lacks =
    str_eq-sym_false _ _ (path_key-ne-type_key c path u id lacks)

pub path_key-ne-ids :
    (c : Cache) (path : String) (u : ResourceType)
    → str_eq (path_key c path) (type_ids_key c u) ≡ false
path_key-ne-ids c path u =
    rw (type_ids_key_lem c u) (path_key-ne-type_key c path u "ids" (omega arith))

pub ids-ne-path_key :
    (c : Cache) (path : String) (u : ResourceType)
    → str_eq (type_ids_key c u) (path_key c path) ≡ false
ids-ne-path_key c path u = str_eq-sym_false _ _ (path_key-ne-ids c path u)
