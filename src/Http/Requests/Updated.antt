-- ===== src/Http/Requests/Updated.antt =====
-- internal/http/controller/resource_secret_batch.go, BatchUpdateSecret: what a success stands for.
use env_vault.Base.{
  ◌≤◌, String, ◌≡◌, refl, ap, Bool, true, false, ◌&&◌, not, List, [], ◌∷◌, map, All, length, ltb,
  leb, inl, inr, arith, Result, ok, err, Failure, Bool-cases, Result-cases, eq_iff, require,
  then-ok, require-ok, permission_denied, not_found, conflict,
}
use env_vault.Base.Int.{pos, negsuc}
use env_vault.Text.{is_blank, is_secret_key}
use env_vault.Auth.{UserInfo, member}
use env_vault.Service.Secret.{SecretService, World}
use env_vault.Service.Secret.Batch.{is_empty}
use env_vault.Service.Secret.Batch.ByIds.{
  BatchUpdateByIdsValueSpec, BatchUpdateByIdsRequest, check_ids, by_ids_items, batch_update_by_ids,
}
use env_vault.Http
use env_vault.Http.{
  Reply, Checked, answered, passed, check, matches_uuid, then-passed, check-passed, Checked-cases,
}
use env_vault.Http.Requests.{
  repeats, batch_error, batch_update_error, answer, invalid, check_value, check_values,
  update_request, batch_update_secret,
}

check_values-uuids :
    (vs : List BatchUpdateByIdsValueSpec) {u : Unit {0}}
    → check_values vs ≡ passed u
    → All (λ v. matches_uuid v.id ≡ true) vs
unfolding check_values
check_values-uuids [] h = tt
check_values-uuids (v ∷ vs) h =
    let (one, more) = then-passed (check_value v) (check_values vs) h in
    let (_, uuid) = then-passed (check (not (is_blank v.id)) _) (check (matches_uuid v.id) _) one in
    (check-passed _ _ uuid, check_values-uuids vs more)

abbrev ids_of : List BatchUpdateByIdsValueSpec → List String
ids_of = map (λ v. v.id)

unseen :
    (x : String) (seen : List String) (vs : List BatchUpdateByIdsValueSpec)
    → All (λ v. member v.id (x ∷ seen) ≡ false) vs
    → (member x (ids_of vs) ≡ false) × All (λ v. member v.id seen ≡ false) vs
unseen x seen [] h = (refl, tt)
unseen x seen (v ∷ vs) (here, there) =
    let (apart, more) = unseen x seen vs there in
    (ground (arith, eq_iff x v.id, eq_iff v.id x), (ground arith, more))

check_ids-repeats :
    (seen : List String) (vs : List BatchUpdateByIdsValueSpec)
    → check_ids seen vs ≡ ok tt
    → All (λ v. member v.id seen ≡ false) vs × (repeats (ids_of vs) ≡ false)
unfolding repeats
check_ids-repeats seen [] h = (tt, refl)
check_ids-repeats seen (v ∷ vs) h =
    let (_, h1) = then-ok (require (not (is_blank v.id)) _) _ h in
    let (new, h2) = then-ok (require (not (member v.id seen)) _) _ h1 in
    let fresh = require-ok (not (member v.id seen)) _ new in
    let (later, distinct) = check_ids-repeats (v.id ∷ seen) vs h2 in
    let (apart, old) = unseen v.id seen vs later in ((ground arith, old), rw (apart, distinct) refl)

no_values-bounds :
    (vs : List BatchUpdateByIdsValueSpec)
    → is_empty vs ≡ true
    → (length vs ≤ 32) × (repeats (ids_of vs) ≡ false)
unfolding repeats
no_values-bounds [] h = (omega arith, refl)
no_values-bounds (v ∷ vs) h = absurd (ground arith)

batch_error-code :
    (prefix missing clash : String) (e : Failure)
    → (batch_error prefix missing clash e).code ≡ negsuc 0
unfolding batch_error
batch_error-code prefix missing clash permission_denied = refl
batch_error-code prefix missing clash not_found = refl
batch_error-code prefix missing clash conflict = refl
batch_error-code prefix missing clash e = refl

answer-success :
    (r : Result (Unit {0})) → (answer (batch_update_error "更新失败") r).code ≡ pos 0 → r ≡ ok tt
answer-success (ok _) h = refl
answer-success (err e) h =
    absurd (ground (arith, batch_error-code "更新失败" "，secret 不存在" "，secret 冲突" e))

update_request-passed :
    (req : BatchUpdateByIdsRequest) {u : Unit {0}}
    → update_request req ≡ passed u
    → (is_secret_key req.key ≡ true) × All (λ v. matches_uuid v.id ≡ true) req.values
unfolding update_request
update_request-passed req h =
    let (_, h1) = then-passed (check (not (is_blank req.key)) _) _ h in
    let (keyed, h2) = then-passed (check (is_secret_key req.key) _) _ h1 in
    let (_, h3) = then-passed (check (leb (length req.values) 100) _) _ h2 in
    let (uuids, _) = then-passed (check_values req.values) _ h3 in
    (check-passed _ _ keyed, check_values-uuids req.values uuids)

-- Whatever body a check writes has the code of an invalid request.
abbrev Refuses : Checked (Unit {0}) (Unit {0}) → Type 0
Refuses c = (r : Reply (Unit {0})) → c ≡ answered r → r.code ≡ pos 1002

Refuses-then :
    (c k : Checked (Unit {0}) (Unit {0})) → Refuses c → Refuses k → Refuses (Http.◌>>◌ c k)
Refuses-then (passed _) k one two r h = two r h
Refuses-then (answered q) k one two r h = one r h

Refuses-check : (b : Bool) (msg : String) → Refuses (check b (invalid msg))
Refuses-check true msg r h = absurd (ground arith)
Refuses-check false msg r h = let e : invalid msg ≡ r = ground arith in rw (← e) refl

check_values-Refuses : (vs : List BatchUpdateByIdsValueSpec) → Refuses (check_values vs)
unfolding check_values
check_values-Refuses [] = λ r h. absurd (ground arith)
check_values-Refuses (v ∷ vs) =
    Refuses-then (check_value v) (check_values vs)
      (Refuses-then (check (not (is_blank v.id)) (invalid "id is empty"))
        (check (matches_uuid v.id) (invalid "id is no UUID"))
        (Refuses-check (not (is_blank v.id)) "id is empty")
        (Refuses-check (matches_uuid v.id) "id is no UUID"))
      (check_values-Refuses vs)

update_request-Refuses : (req : BatchUpdateByIdsRequest) → Refuses (update_request req)
unfolding update_request
update_request-Refuses req =
    Refuses-then _ _ (Refuses-check (not (is_blank req.key)) "key is empty") (
      Refuses-then _ _ (Refuses-check (is_secret_key req.key) "key format") (
        Refuses-then _ _ (Refuses-check (leb (length req.values) 100) "values max length is 100") (
          Refuses-then _ _ (check_values-Refuses req.values) (
            Refuses-check (not (is_empty req.values && is_blank req.comment))
              "values and comment are empty"))))

module _ {D C : Type 0} (s : SecretService D C) (user : UserInfo) (actor : String) where
  by_ids_items-bounds :
      (req : BatchUpdateByIdsRequest) (d : D) {items : _}
      → by_ids_items s req actor d ≡ ok items
      → (length req.values ≤ 32) × (repeats (ids_of req.values) ≡ false)
  unfolding by_ids_items
  by_ids_items-bounds req d h =
      let (short, h1) = then-ok (require (not (ltb 32 (length req.values))) _) _ h in
      let (ids, h2) = then-ok (check_ids [] req.values) _ h1 in
      let few = require-ok (not (ltb 32 (length req.values))) _ short in
      (ground arith, (check_ids-repeats [] req.values ids).1)

  updated-bounds :
      (req : BatchUpdateByIdsRequest) (w : World D C)
      → (batch_update_by_ids s user req actor w).0 ≡ ok tt
      → (length req.values ≤ 32) × (repeats (ids_of req.values) ≡ false)
  unfolding batch_update_by_ids
  updated-bounds req w h = elim (Bool-cases (is_blank user.user_id)) [
    | inl nobody ↦ absurd (ground arith)
    | inr named ↦ elim (Bool-cases (is_blank req.key)) [
      | inl blank ↦ absurd (ground arith)
      | inr keyed ↦ elim (Bool-cases (is_empty req.values)) [
        | inl empty ↦ no_values-bounds req.values empty
        | inr some_value ↦ elim (Result-cases (by_ids_items s req actor w.db)) [
          | inl (items, made) ↦ by_ids_items-bounds req w.db made
          | inr (e, failed) ↦ absurd (ground arith)
        ]
      ]
    ]
  ]

  -- A success of BatchUpdateSecret says that the service has updated what it was asked to, and that the
  -- request had a key of the right form and at most 32 values, though the controller lets a hundred
  -- through, each with the UUID of a secret and no UUID twice.
  pub batch_update_success :
      (req : BatchUpdateByIdsRequest) (w : World D C)
      → (batch_update_secret s user actor req w).0.code ≡ pos 0
      → (is_secret_key req.key ≡ true)
        × (length req.values ≤ 32)
        × All (λ v. matches_uuid v.id ≡ true) req.values
        × (repeats (ids_of req.values) ≡ false)
        × (batch_update_by_ids s user req actor w
            ≡ (ok tt, (batch_update_secret s user actor req w).1))
  unfolding batch_update_secret
  batch_update_success req w h = elim (Checked-cases (update_request req)) [
    | inr (r, stops) ↦ absurd (ground (arith, update_request-Refuses req r stops, h))
    | inl (_, passes) ↦
        let (keyed, uuids) = update_request-passed req passes in
        let done : (batch_update_by_ids s user req actor w).0 ≡ ok tt =
          answer-success _ (rw passes at h) in
        let (few, distinct) = updated-bounds req w done in
        (
          keyed,
          few,
          uuids,
          distinct,
          rw passes (ap (λ r. (r, (batch_update_by_ids s user req actor w).1)) done),
        )
  ]
