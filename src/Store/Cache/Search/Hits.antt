-- ===== src/Store/Cache/Search/Hits.antt =====
-- internal/store/redis/cache.go, searchType and GlobalSearch: which hits a search returns.
use env_vault.Base.{
  ℕ, zero, suc, ◌-◌, ◌≤◌, String, ◌≡◌, ◌⊎◌, refl, ap, true, Option, none, some, List, [], ◌∷◌,
  length, take, length-take, leb, bind-ok, eq_refl, Result, ok, All, arith, inl, inr, Bool-cases,
  Option-cases,
}
use env_vault.Auth.{member}
use env_vault.Store.Cache.{org, project, env, folder, secret, ResourceType, Fields, field, Codec}
use env_vault.Store.Cache.Search.{
  GlobalSearchHit, first_hits, contains_fold, decrypt_cached_value, match_keyword_on_fields,
  build_hit, is_secret,
}
use env_vault.Service.Secret.{Encryptor}
use env_vault.Service.Secret.Batch.{collect}

-- The reference: all the hits, in the order of the hashes.
abbrev add_hit : Option GlobalSearchHit → List GlobalSearchHit → List GlobalSearchHit
add_hit none hits = hits
add_hit (some x) hits = x ∷ hits

abbrev pub all_hits : (Fields → Option GlobalSearchHit) → List Fields → List GlobalSearchHit
all_hits hit [] = []
all_hits hit (h ∷ hs) = add_hit (hit h) (all_hits hit hs)

-- The loop that ends at the limit finds the first hits.
pub first_hits-take :
    (room : ℕ) (hit : Fields → Option GlobalSearchHit) (hs : List Fields)
    → 1 ≤ room
    → first_hits room hit hs ≡ take room (all_hits hit hs)
unfolding first_hits
first_hits-take zero hit hs pos = absurd (omega arith)
first_hits-take (suc room) hit [] pos = refl
first_hits-take (suc room) hit (h ∷ hs) pos =
    let whole : suc room - 0 ≡ suc room = omega arith in
    let less : suc room - 1 ≡ room = omega arith in
    elim (Option-cases (hit h)) [
      | inl missed ↦ rw (missed, whole) (first_hits-take (suc room) hit hs pos)
      | inr (x, found) ↦ elim (Bool-cases (leb (suc room) 1)) [
        | inl last ↦
            let none_left : room ≡ 0 = ground arith in rw (found, less, last) (rw none_left refl)
        | inr more ↦
            rw (found, less, more)
              (ap (λ (xs : List GlobalSearchHit). x ∷ xs)
                (first_hits-take room hit hs (ground arith)))
      ]
    ]

pub length-first_hits :
    (room : ℕ) (hit : Fields → Option GlobalSearchHit) (hs : List Fields)
    → 1 ≤ room
    → length (first_hits room hit hs) ≤ room
length-first_hits room hit hs pos =
    rw (first_hits-take room hit hs pos) (omega (arith, length-take room (all_hits hit hs)))

pub All-first_hits :
    (Q : Fields → Type 0) (P : GlobalSearchHit → Type 0) (room : ℕ)
    (hit : Fields → Option GlobalSearchHit) (hs : List Fields)
    → ((h : Fields) (x : GlobalSearchHit) → Q h → hit h ≡ some x → P x)
    → All Q hs
    → All P (first_hits room hit hs)
unfolding first_hits
All-first_hits Q P room hit [] step q = tt
All-first_hits Q P room hit (h ∷ hs) step q = elim (Option-cases (hit h)) [
  | inl missed ↦ rw missed (All-first_hits Q P (room - 0) hit hs step q.1)
  | inr (x, found) ↦ elim (Bool-cases (leb room 1)) [
    | inl last ↦ rw (found, last) (step h x q.0 found, tt)
    | inr more ↦
        rw (found, more) (step h x q.0 found, All-first_hits Q P (room - 1) hit hs step q.1)
  ]
]

All-collect_in :
    {B : Type 0} (read : String → Result B) (all_ids ids : List String) (out : List B)
    → ((id : String) → member id ids ≡ true → member id all_ids ≡ true)
    → collect read ids ≡ ok out
    → All (λ b. (id : String) × (member id all_ids ≡ true) × (read id ≡ ok b)) out
All-collect_in read all_ids [] out inside h = let empty : [] ≡ out = ground arith in rw (← empty) tt
All-collect_in read all_ids (id ∷ ids) out inside h =
    let (b, found, h1) = bind-ok (read id) _ h in
    let (bs, rest, h2) = bind-ok (collect read ids) _ h1 in
    let all_out : b ∷ bs ≡ out = ground arith in
    rw (← all_out) (
      (id, inside id (ground (arith, eq_refl id)), found),
      All-collect_in read all_ids ids bs (λ j there. inside j (ground arith)) rest,
    )

pub All-collect :
    {B : Type 0} (read : String → Result B) (ids : List String) (out : List B)
    → collect read ids ≡ ok out
    → All (λ b. (id : String) × (member id ids ≡ true) × (read id ≡ ok b)) out
All-collect read ids out h = All-collect_in read ids ids out (λ id there. there) h

-- What a hit shows of its hash: the field that it names has the keyword, or the value has.
abbrev pub Shows :
    Codec → Option Encryptor → ResourceType → String → Fields → GlobalSearchHit → Type 0
Shows codec encryptor t keyword h x =
    (contains_fold codec (field x.match_field h) keyword ≡ true)
    ⊎ (t ≡ secret)
      × (x.match_field ≡ "value")
      × ((plain : String) × (decrypt_cached_value codec encryptor (field "value_ciphertext" h)
            ≡ some plain)
          × (contains_fold codec plain keyword ≡ true))

match_field-build_hit :
    (t : ResourceType) (values : Fields) (f : String) → (build_hit t values f).match_field ≡ f
unfolding build_hit
match_field-build_hit org values f = refl
match_field-build_hit project values f = refl
match_field-build_hit env values f = refl
match_field-build_hit folder values f = refl
match_field-build_hit secret values f = refl

secret_of_name : (t : ResourceType) → is_secret t ≡ true → t ≡ secret
secret_of_name org h = absurd (ground arith)
secret_of_name project h = absurd (ground arith)
secret_of_name env h = absurd (ground arith)
secret_of_name folder h = absurd (ground arith)
secret_of_name secret h = refl

-- The field that is named, before the hit is built.
pub match-Shows :
    (codec : Codec) (encryptor : Option Encryptor) (t : ResourceType) (keyword f : String)
    (h : Fields)
    → match_keyword_on_fields codec encryptor t keyword h ≡ some f
    → Shows codec encryptor t keyword h (build_hit t h f)
unfolding match_keyword_on_fields
match-Shows codec encryptor t keyword f h m =
    rw (match_field-build_hit t h f)
      (elim (Bool-cases (contains_fold codec (field "code" h) keyword)) [
        | inl code ↦ let e : "code" ≡ f = ground arith in inl (rw (← e) code)
        | inr no_code ↦ elim (Bool-cases (contains_fold codec (field "name" h) keyword)) [
          | inl name ↦ let e : "name" ≡ f = ground arith in inl (rw (← e) name)
          | inr no_name ↦ elim (Bool-cases (contains_fold codec (field "comment" h) keyword)) [
            | inl comment ↦ let e : "comment" ≡ f = ground arith in inl (rw (← e) comment)
            | inr no_comment ↦
                elim (Option-cases
                  (decrypt_cached_value codec encryptor (field "value_ciphertext" h))) [
                    | inl shut ↦ absurd (ground arith)
                    | inr (plain, found) ↦ inr (
                      secret_of_name t (ground arith),
                      ground arith,
                      (plain, found, ground arith),
                    )
                  ]
          ]
        ]
      ])
