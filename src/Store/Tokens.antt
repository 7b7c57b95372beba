-- ===== src/Store/Tokens.antt =====
-- internal/store/postgres/pat.go: PATStore. Its statements on the table access_tokens are given, with
-- what they are documented to do as laws; what it makes of their answers is here.
pub mod Access
use env_vault.Base.{
  ℕ, zero, suc, String, ◌≡◌, ◌≢◌, Bool, true, false, Option, none, some, List, ltb, Result, ok, err,
  Failure, not_found, Action, if◌then◌else◌,
}
use env_vault.Domain.{Time}
use env_vault.Service.AccessTokens.{AccessToken, AccessTokenRepository}

pub record TokenRow : Type 0 where
  pub user_id : String
  pub token_hash : String
  pub expires_at : Option Time

pub record TokenSql (S : Type 0) : Type 0 where
  -- insert into access_tokens: id, user, name, hash, prefix, expiry, created
  pub insert : String → String → String → String → String → Option Time → Time → Action S (Unit {0})
  pub select_by_user : String → S → Result (List AccessToken)
  -- update … set deleted_at = now() where id = … and user_id = …: the rows affected
  pub mark_deleted : String → String → Action S ℕ
  -- select user_id, expires_at … where token_hash = … and deleted_at is null; sql.ErrNoRows is none
  pub select_by_hash : String → S → Result (Option (String × Option Time))
  -- update … set last_used_at = now(), whose error is ignored
  pub touch : String → S → S

-- The statements on a table whose rows have the ids as keys, and hashes that are unique among the
-- rows that are not deleted.
pub record TokenTable {S : Type 0} (sql : TokenSql S) : Type 0 where
  -- the row of an id that is not deleted
  pub row : String → S → Option TokenRow
  pub inserted :
      (id user name hash prefix : String) (expires : Option Time) (now : Time) (s : S)
      → (sql.insert id user name hash prefix expires now s).0 ≡ ok tt
      → row id (sql.insert id user name hash prefix expires now s).1
        ≡ some (record { user_id = user; token_hash = hash; expires_at = expires })
  pub selected :
      (id : String) (r : TokenRow) (s : S) (a : Option (String × Option Time))
      → row id s ≡ some r
      → sql.select_by_hash r.token_hash s ≡ ok a
      → a ≡ some (r.user_id, r.expires_at)
  pub deleted :
      (id : String) (r : TokenRow) (s : S) (n : ℕ) (a : Option (String × Option Time))
      → row id s ≡ some r
      → (sql.mark_deleted id r.user_id s).0 ≡ ok n
      → sql.select_by_hash r.token_hash (sql.mark_deleted id r.user_id s).1 ≡ ok a
      → a ≡ none
  pub foreign :
      (id user : String) (r : TokenRow) (s : S) (n : ℕ)
      → row id s ≡ some r
      → r.user_id ≢ user
      → (sql.mark_deleted id user s).0 ≡ ok n
      → n ≡ 0

-- `expiresAt.Time.Before(time.Now())`
abbrev pub is_expired : Time → Option Time → Bool
is_expired now none = false
is_expired now (some t) = ltb t now

abbrev inserted_token : {S : Type 0} → AccessToken → Result (Unit {0}) × S → Result AccessToken × S
inserted_token token (err e, s) = (err e, s)
inserted_token token (ok _, s) = (ok token, s)

abbrev affected : {S : Type 0} → Result ℕ × S → Result (Unit {0}) × S
affected (err e, s) = (err e, s)
affected (ok zero, s) = (err not_found, s)
affected (ok (suc n), s) = (ok tt, s)

module _ {S : Type 0} (sql : TokenSql S) where
  -- the id is that of NewUUID, which may fail
  unfoldable pub create_token :
      Result String → Time → String → String → String → String → Option Time → Action S AccessToken
  create_token (err e) now user name hash prefix expires s = (err e, s)
  create_token (ok id) now user name hash prefix expires s =
      inserted_token
        (record {
          id = id;
          user_id = user;
          name = name;
          token_prefix = prefix;
          expires_at = expires;
          last_used_at = none;
          created_at = now;
        })
        (sql.insert id user name hash prefix expires now s)

  unfoldable pub soft_delete_token : String → String → Action S (Unit {0})
  soft_delete_token id user s = affected (sql.mark_deleted id user s)

  abbrev validated : Time → String → Result (Option (String × Option Time)) → Action S String
  validated now hash (err e) s = (err e, s)
  validated now hash (ok none) s = (err not_found, s)
  validated now hash (ok (some (user, expires))) s =
      if is_expired now expires then (err not_found, s) else (ok user, sql.touch hash s)

  unfoldable pub validate_pat : Time → String → Action S String
  validate_pat now hash s = validated now hash (sql.select_by_hash hash s) s

  abbrev pub pat_store : Result String → Time → AccessTokenRepository S
  pat_store new_uuid now = record {
    create_token = create_token new_uuid now;
    list_tokens_by_user = sql.select_by_user;
    soft_delete_token = soft_delete_token;
    validate_pat = validate_pat now;
  }
