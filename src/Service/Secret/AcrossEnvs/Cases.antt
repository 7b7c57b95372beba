-- ===== src/Service/Secret/AcrossEnvs/Cases.antt =====
-- internal/service/secret_service.go, ListAcrossEnvs: it fails and leaves everything as it was, or it
-- gets to its audit.
use env_vault.Base.{
  String, ◌≡◌, refl, ◌⊎◌, inl, inr, List, [], arith, ok, err, Failure, Result-cases,
}
use env_vault.Auth.{UserInfo}
use env_vault.Service.Secret.{Secret, RawCiphertext, SecretService, World}
use env_vault.Service.Secret.AcrossEnvs.{
  Query, SecretAcrossEnvs, GroupStates, answer, clean_query, fetch, fetched, group_rows,
  audit_groups, answered, list_across_envs,
}

module _ {D C : Type 0} (s : SecretService D C) (user : UserInfo) (actor : String)
    (w : World D C) where
  fetched_cases :
      (q : Query)
      → ((rows : List (Secret × RawCiphertext)) × (gs : GroupStates) × (group_rows s q.env_list rows
              []
            ≡ ok gs)
          × (fetched s user q w.db ≡ ok (rows, gs)))
        ⊎ ((e : Failure) × (fetched s user q w.db ≡ err e))
  fetched_cases q = elim (Result-cases (fetch s user q w.db)) [
    | inr (e, failed) ↦ inr (e, rw failed refl)
    | inl (rows, found) ↦ elim (Result-cases (group_rows s q.env_list rows [])) [
      | inr (e, failed) ↦ inr (e, rw (found, failed) refl)
      | inl (gs, grouped) ↦ inl (rows, gs, grouped, rw (found, grouped) refl)
    ]
  ]

  -- What a list that returns has gone through.
  pub across_envs-ok :
      (project_id folder_code : String) (keys env_list : List String) (out : List SecretAcrossEnvs)
      → (list_across_envs s user project_id folder_code keys env_list actor w).0 ≡ ok out
      → (q : Query) × (rows : List (Secret × RawCiphertext)) × (gs : GroupStates) × (clean_query
            user project_id folder_code keys env_list
          ≡ ok q)
        × (group_rows s q.env_list rows [] ≡ ok gs)
        × ((audit_groups s actor q gs w).0 ≡ ok tt)
        × (out ≡ answer rows q.keys q.env_list gs)
        × ((list_across_envs s user project_id folder_code keys env_list actor w).1
            ≡ (audit_groups s actor q gs w).1)
  unfolding list_across_envs
  across_envs-ok project_id folder_code keys env_list out h =
      elim (Result-cases (clean_query user project_id folder_code keys env_list)) [
        | inr (e, failed) ↦ absurd (ground arith)
        | inl (q, cleaned) ↦ elim (fetched_cases q) [
          | inr (e, failed) ↦ absurd (ground arith)
          | inl (rows, gs, grouped, got) ↦ elim (Result-cases (audit_groups s actor q gs w).0) [
            | inr (e, failed) ↦ absurd (ground arith)
            | inl (_, recorded) ↦ (
              q,
              rows,
              gs,
              cleaned,
              grouped,
              recorded,
              ground arith,
              rw (list_across_envs, cleaned, answered, got, recorded) refl,
            )
          ]
        ]
      ]
