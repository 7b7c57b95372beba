-- ===== src/Service/Secret/Batch/Unchecked.antt =====
-- internal/service/secret_service.go, BatchUpdateByIDs against BatchUpdate: the first asks for no
-- permission.
use env_vault.Base.{String, ◌≡◌, false, true, [], ◌∷◌, arith, ok, err, Failure}
use env_vault.Text.{is_blank, is_secret_key}
use env_vault.Auth.{UserInfo}
use env_vault.Service.Secret.{Ciphertext, SecretService, World, secret_scope, encrypt}
use env_vault.Service.Secret.Batch.{update_items, batch_update, write_updates}
use env_vault.Service.Secret.Batch.ByIds.{by_ids_items, batch_update_by_ids}

-- A caller whom the authorizer refuses `secret:update` on a secret is refused by a batch of that
-- one update, which writes nothing, and yet writes the same update when it is asked for by ids:
-- for an id and a key of the right form, a secret that exists, and a value that can be encrypted.
by_ids_unchecked :
    {D C : Type 0} (s : SecretService D C) (user : UserInfo)
    (id key value comment actor stored_key : String) (c : Ciphertext) (e : Failure) (w : World D C)
    → is_blank user.user_id ≡ false
    → is_blank id ≡ false
    → is_blank key ≡ false
    → is_secret_key key ≡ true
    → encrypt s value ≡ ok c
    → s.repo.get_secrets_keys (id ∷ []) w.db ≡ ok (stored_key ∷ [])
    → s.authorizer.allow user "secret:update" (secret_scope id) w.db ≡ err e
    → (batch_update s user
          (record { id = id; key = key; value = value; comment = comment } ∷ [])
          actor
          w
        ≡ (err e, w))
      × (batch_update_by_ids s user
            (record {
              values = record { id = id; value = value } ∷ [];
              key = key;
              comment = comment;
            })
            actor
            w
          ≡ write_updates s
              (record { id = id; key = key; comment = comment; actor = actor; ciphertext = c } ∷ [])
              w)
unfolding batch_update update_items batch_update_by_ids by_ids_items
by_ids_unchecked s user id key value comment actor stored_key c e w named given keyed fits encrypted
      there refused =
    (ground arith, ground arith)
