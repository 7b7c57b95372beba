-- ===== src/Service/Secret/Batch/ByIds.antt =====
-- internal/service/secret_service.go: BatchUpdateByIDs.
use env_vault.Base.{
  String, not, ◌==◌, List, [], ◌∷◌, map, length, ltb, any, str_eq, Result, ok, err, failure,
  permission_denied, require, Action, ◌>>=◌, ◌>>◌, if◌then◌else◌,
}
use env_vault.Text.{is_blank}
use env_vault.Auth.{UserInfo, member}
use env_vault.Service.Secret.{BatchUpdateSecretItem, SecretService, World}
use env_vault.Service.Secret.Batch.{is_empty, collect, update_target, write_updates}

pub record BatchUpdateByIdsValueSpec : Type 0 where
  pub id : String
  pub value : String

pub record BatchUpdateByIdsRequest : Type 0 where
  pub values : List BatchUpdateByIdsValueSpec
  pub key : String
  pub comment : String

-- Each id is given, and none of them twice.
abbrev pub check_ids : List String → List BatchUpdateByIdsValueSpec → Result (Unit {0})
check_ids seen [] = ok tt
check_ids seen (v ∷ vs) =
    let rest = check_ids (v.id ∷ seen) vs in
    require (not (is_blank v.id)) (failure "id is empty")
    >> (require (not (member v.id seen)) (failure "id repeated") >> rest)

-- All keys are the first one.
abbrev same_keys : List String → Result (Unit {0})
same_keys [] = ok tt
same_keys (first ∷ keys) =
    require (not (any (λ k. not (str_eq k first)) keys)) (failure "keys differ")

module _ {D C : Type 0} (s : SecretService D C) where
  -- the items of an update by ids, which asks for no permission
  unfoldable pub by_ids_items :
      BatchUpdateByIdsRequest → String → D → Result (List BatchUpdateSecretItem)
  by_ids_items req actor d = do
    require (not (ltb 32 (length req.values))) (failure "too many values")
    check_ids [] req.values
    let ids = map (λ v. v.id) req.values
    existing_keys ← s.repo.get_secrets_keys ids d
    require (length existing_keys == length ids) (failure "some secrets do not exist")
    same_keys existing_keys
    collect
        (λ v.
          update_target s actor
            (record { id = v.id; key = req.key; value = v.value; comment = req.comment }))
        req.values

  -- no values: only the comments of all secrets with the key
  abbrev pub update_comments : BatchUpdateByIdsRequest → String → Action (World D C) (Unit {0})
  update_comments req actor w = elim (s.repo.get_secret_ids_by_key req.key w.db) [
    | err e ↦ (err e, w)
    | ok ids ↦
        if is_empty ids
        then (err (failure "no secret with the key"), w)
        else (let (r, d) = s.repo.batch_update_comment_by_ids ids req.comment actor w.db in
            (r, record w { db = d }))
  ]

  abbrev pub update_values : BatchUpdateByIdsRequest → String → Action (World D C) (Unit {0})
  update_values req actor w = elim (by_ids_items req actor w.db) [
    | err e ↦ (err e, w)
    | ok items ↦ write_updates s items w
  ]

  unfoldable pub batch_update_by_ids :
      UserInfo → BatchUpdateByIdsRequest → String → Action (World D C) (Unit {0})
  batch_update_by_ids user req actor w =
      if is_blank user.user_id
      then (err permission_denied, w)
      else if is_blank req.key
      then (err (failure "key is empty"), w)
      else if is_empty req.values
      then update_comments req actor w
      else update_values req actor w
