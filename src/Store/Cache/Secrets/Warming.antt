-- ===== src/Store/Cache/Secrets/Warming.antt =====
-- internal/store/redis/cache.go, deletePathKeys and WarmSecrets: the loop over the cursors.
use env_vault.Base.{
  ℕ, zero, suc, ◌<◌, ◌==◌, String, ◌≡◌, ◌⊎◌, refl, Option, some, List, [], ◌∷◌, Result, ok, err,
  arith, inl, inr, Result-cases, Bool-cases,
}
use env_vault.Service.Secret.{SecretCacheRecord}
use env_vault.Store.Cache.{CacheOps, Codec, Cache, ids_key, path_key}
use env_vault.Store.Cache.Secrets.{
  delete_found, after, delete_path_keys, upsert_secrets, warm_secrets,
}

-- A SCAN whose cursors can be ranked: each step returns the cursor 0 or one of a lower rank.
abbrev pub CursorsFall : {R : Type 0} → CacheOps R → (ℕ → ℕ) → Type 0
CursorsFall {R} ops rank =
    (cursor : ℕ) (pattern : String) (count : ℕ) (s : R) (keys : List String) (next : ℕ)
    → ops.scan cursor pattern count s ≡ ok (keys, next)
    → (next ≡ 0) ⊎ (rank next < rank cursor)

module _ {R : Type 0} (ops : CacheOps R) (codec : Codec) (c : Cache) (rank : ℕ → ℕ) where
  after_ends :
      (out : Result (Unit {0}) × R) (more : R → Option (Result (Unit {0}) × R))
      → ((s : R) → (end : Result (Unit {0}) × R) × (more s ≡ some end))
      → (end : Result (Unit {0}) × R) × (after ops codec c out more ≡ some end)
  after_ends (err e, s) more ends = ((err e, s), refl)
  after_ends (ok _, s) more ends = ends s

  delete_path_keys_ends :
      (fuel cursor : ℕ) (s : R)
      → CursorsFall ops rank
      → rank cursor < fuel
      → (end : Result (Unit {0}) × R) × (delete_path_keys ops codec c fuel cursor s ≡ some end)
  unfolding delete_path_keys
  delete_path_keys_ends zero cursor s falls h = absurd (omega arith)
  delete_path_keys_ends (suc fuel) cursor s falls h =
      elim (Result-cases (ops.scan cursor (path_key c "*") 100 s)) [
        | inr (e, failed) ↦ ((err e, s), rw (delete_path_keys, failed) refl)
        | inl ((keys, next), found) ↦
            rw (delete_path_keys, found)
              (after_ends (delete_found ops codec c keys s) _ (λ s'. elim (Bool-cases (next == 0)) [
                | inl last ↦ ((ok tt, s'), rw last refl)
                | inr more ↦ rw more (
                    delete_path_keys_ends fuel next s' falls
                      (elim (falls cursor (path_key c "*") 100 s keys next found) [
                        | inl zero_next ↦ absurd (ground arith)
                        | inr nearer ↦ omega arith
                      ]))
              ]))
      ]

-- With fuel for the rank of the first cursor, on a SCAN whose cursors can be ranked, warming the secrets
-- returns.
warm_secrets_ends :
    {R : Type 0} (ops : CacheOps R) (codec : Codec) (c : Cache) (rank : ℕ → ℕ) (fuel : ℕ)
    (records : List SecretCacheRecord) (s : R)
    → CursorsFall ops rank
    → rank 0 < fuel
    → (out : Result (Unit {0}) × R) × (warm_secrets ops codec c fuel records s ≡ some out)
unfolding warm_secrets
warm_secrets_ends ops codec c rank fuel records s falls h =
    after_ends ops codec c rank (ops.del (ids_key c ∷ []) s) _ (λ s'.
      let (gone, ended) = delete_path_keys_ends ops codec c rank fuel 0 s' falls h in
      rw ended (
        after_ends ops codec c rank gone _ (λ s''. (upsert_secrets ops codec c records s'', refl))))
