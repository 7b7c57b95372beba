-- ===== src/Service/Secret/Batch/AllOrNothing.antt =====
-- internal/service/secret_service.go, BatchCreate and BatchUpdate: a batch is written as a whole or
-- not at all, and only when each of its targets is permitted.
use mathlib.Core.List.{map-append}
use env_vault.Base.{
  String, ◌≡◌, refl, ◌∙◌, ◌⊎◌, inl, inr, List, [], ◌∷◌, ◌++◌, map, All, arith, Result, ok, err,
  Failure, Result-cases,
}
use env_vault.Auth.{UserInfo}
use env_vault.Service.Secret.{
  BatchCreateSecretItem, BatchUpdateSecretItem, SecretService, World, encrypt,
}
use env_vault.Service.Secret.Batch.{
  BatchCreateEnvTarget, BatchCreateSecretSpec, BatchUpdateSecretSpec, each, collect, create_target,
  create_targets, update_target, may_create, may_update, batch_written, create_items, batch_create,
  update_items, write_updates, batch_update,
}

each-ok :
    {A : Type 0} (f : A → Result (Unit {0})) (xs : List A)
    → each f xs ≡ ok tt
    → All (λ x. f x ≡ ok tt) xs
each-ok f [] h = tt
each-ok f (x ∷ xs) h = elim (Result-cases (f x)) [
  | inr (e, failed) ↦ absurd (ground arith)
  | inl (_, passed) ↦ (passed, each-ok f xs (ground arith))
]

-- What is collected keeps a label that each element keeps.
collect-labels :
    {A B : Type 0} (f : A → Result B) (label : A → String) (label' : B → String)
    → ((x : A) (y : B) → f x ≡ ok y → label' y ≡ label x)
    → (xs : List A) (ys : List B) → collect f xs ≡ ok ys
    → map label' ys ≡ map label xs
collect-labels f label label' keeps [] ys h = let same : [] ≡ ys = ground arith in rw (← same) refl
collect-labels f label label' keeps (x ∷ xs) ys h = elim (Result-cases (f x)) [
  | inr (e, failed) ↦ absurd (ground arith)
  | inl (y, made) ↦ elim (Result-cases (collect f xs)) [
    | inr (e, failed) ↦ absurd (ground arith)
    | inl (ys', rest) ↦
        let same : y ∷ ys' ≡ ys = ground arith in
        rw (← same) (rw (keeps x y made, collect-labels f label label' keeps xs ys' rest) refl)
  ]
]

-- The folders that a batch names, in its order.
abbrev pub folders_of : List BatchCreateSecretSpec → List String
folders_of [] = []
folders_of (item ∷ items) = map (λ e. e.folder_id) item.envs ++ folders_of items

module _ {D C : Type 0} (s : SecretService D C) where
  create_target-folder :
      (actor key comment : String) (e : BatchCreateEnvTarget) (t : BatchCreateSecretItem)
      → create_target s actor key comment e ≡ ok t
      → t.folder_id ≡ e.folder_id
  create_target-folder actor key comment e t h = elim (Result-cases (encrypt s e.value)) [
    | inr (f, failed) ↦ absurd (ground arith)
    | inl (c, made) ↦ ground arith
  ]

  update_target-id :
      (actor : String) (item : BatchUpdateSecretSpec) (t : BatchUpdateSecretItem)
      → update_target s actor item ≡ ok t
      → t.id ≡ item.id
  update_target-id actor item t h = elim (Result-cases (encrypt s item.value)) [
    | inr (f, failed) ↦ absurd (ground arith)
    | inl (c, made) ↦ ground arith
  ]

  create_targets-folders :
      (actor : String) (specs : List BatchCreateSecretSpec) (items : List BatchCreateSecretItem)
      → create_targets s actor specs ≡ ok items
      → map (λ t. t.folder_id) items ≡ folders_of specs
  unfolding create_targets
  create_targets-folders actor [] items h = let same : [] ≡ items = ground arith in rw (← same) refl
  create_targets-folders actor (spec ∷ specs) items h =
      elim (Result-cases (collect (create_target s actor spec.key spec.comment) spec.envs)) [
        | inr (e, failed) ↦ absurd (ground arith)
        | inl (first, made) ↦ elim (Result-cases (create_targets s actor specs)) [
          | inr (e, failed) ↦ absurd (ground arith)
          | inl (more, rest) ↦
              let same : first ++ more ≡ items = ground arith in
              let here : map (λ t. t.folder_id) first ≡ map (λ e. e.folder_id) spec.envs =
                collect-labels (create_target s actor spec.key spec.comment) (λ e. e.folder_id)
                  (λ t. t.folder_id) (create_target-folder actor spec.key spec.comment) spec.envs
                  first made in
              rw (← same) (
                map-append (λ t. t.folder_id) first more
                ∙ rw (here, create_targets-folders actor specs more rest) refl)
        ]
      ]

  create_items-ok :
      (user : UserInfo) (specs : List BatchCreateSecretSpec) (actor : String) (d : D)
      (items : List BatchCreateSecretItem)
      → create_items s user specs actor d ≡ ok items
      → (create_targets s actor specs ≡ ok items) × (each (may_create s user d) items ≡ ok tt)
  unfolding create_items
  create_items-ok user specs actor d items h = elim (Result-cases (create_targets s actor specs)) [
    | inr (e, failed) ↦ absurd (ground arith)
    | inl (items', made) ↦ elim (Result-cases (each (may_create s user d) items')) [
      | inr (e, failed) ↦ absurd (ground arith)
      | inl (_, allowed) ↦ let same : items' ≡ items = ground arith in rw (← same) (made, allowed)
    ]
  ]

  update_items-ok :
      (user : UserInfo) (specs : List BatchUpdateSecretSpec) (actor : String) (d : D)
      (items : List BatchUpdateSecretItem)
      → update_items s user specs actor d ≡ ok items
      → (collect (update_target s actor) specs ≡ ok items)
        × (each (may_update s user d) items ≡ ok tt)
  unfolding update_items
  update_items-ok user specs actor d items h =
      elim (Result-cases (collect (update_target s actor) specs)) [
        | inr (e, failed) ↦ absurd (ground arith)
        | inl (items', made) ↦ elim (Result-cases (each (may_update s user d) items')) [
          | inr (e, failed) ↦ absurd (ground arith)
          | inl (_, allowed) ↦
              let same : items' ≡ items = ground arith in rw (← same) (made, allowed)
        ]
      ]

-- A batch of new secrets is either refused as a whole, and then neither the database nor the cache
-- is touched, or the caller may create in every folder that it names, and it is then one write of
-- the repository, of one item for each named folder in their order.
pub batch_create_cases :
    {D C : Type 0} (s : SecretService D C) (user : UserInfo) (specs : List BatchCreateSecretSpec)
    (actor : String) (w : World D C)
    → ((items : List BatchCreateSecretItem) × (map (λ t. t.folder_id) items ≡ folders_of specs)
        × All (λ t. may_create s user w.db t ≡ ok tt) items
        × (batch_create s user specs actor w ≡ (
            let (r, d) = s.repo.batch_create_secrets items w.db in
            batch_written s (map (λ t. t.ciphertext) items) r (record w { db = d }))))
      ⊎ ((e : Failure) × (batch_create s user specs actor w ≡ (err e, w)))
unfolding batch_create
batch_create_cases s user specs actor w =
    elim (Result-cases (create_items s user specs actor w.db)) [
      | inr (e, refused) ↦ inr (e, rw (batch_create, refused) refl)
      | inl (items, passed) ↦
          let (made, allowed) = create_items-ok s user specs actor w.db items passed in
          inl (
            items,
            create_targets-folders s actor specs items made,
            each-ok (may_create s user w.db) items allowed,
            rw (batch_create, passed) refl,
          )
    ]

-- A batch of updates is either refused as a whole, and then neither the database nor the cache is
-- touched, or the caller may update every secret that it names, and it is then one write of the
-- repository, of one item for each named secret in their order.
pub batch_update_cases :
    {D C : Type 0} (s : SecretService D C) (user : UserInfo) (specs : List BatchUpdateSecretSpec)
    (actor : String) (w : World D C)
    → ((items : List BatchUpdateSecretItem) × (map (λ t. t.id) items ≡ map (λ item. item.id) specs)
        × All (λ t. may_update s user w.db t ≡ ok tt) items
        × (batch_update s user specs actor w ≡ write_updates s items w))
      ⊎ ((e : Failure) × (batch_update s user specs actor w ≡ (err e, w)))
unfolding batch_update
batch_update_cases s user specs actor w =
    elim (Result-cases (update_items s user specs actor w.db)) [
      | inr (e, refused) ↦ inr (e, rw (batch_update, refused) refl)
      | inl (items, passed) ↦
          let (made, allowed) = update_items-ok s user specs actor w.db items passed in
          inl (
            items,
            collect-labels (update_target s actor) (λ item. item.id) (λ t. t.id)
                (update_target-id s actor) specs items made,
            each-ok (may_update s user w.db) items allowed,
            rw (batch_update, passed) refl,
          )
    ]
