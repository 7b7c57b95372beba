-- ===== src/Tests/Tokens.antt =====
-- Access tokens, on a table of at most one row.
use Prim.Native.String
use env_vault.Base.{
  ℕ, String, ◌≡◌, ◌≢◌, refl, ◌&&◌, inl, inr, Option, none, some, [], arith, str_eq, eq_iff, eq_refl,
  ok, err, Action, conflict, invalid_pat, Bool-cases, if◌then◌else◌,
}
use env_vault.Domain.{Time}
use env_vault.Text.{trim_space, first_chars}
use env_vault.Auth.Middleware.{JwtConfig, accept, abort, pat_claims, combined_auth}
use env_vault.Service.AccessTokens.{AccessToken, token_of, create_pat, delete_pat, display_prefix}
use env_vault.Store.Tokens.{
  TokenRow, TokenSql, TokenTable, create_token, soft_delete_token, pat_store,
}
use env_vault.Store.Tokens.Access.{
  header_of, pat_config_at, created_token_logs_in, deleted_token_refused,
}

abbrev Table : Type 0
Table = Option (String × TokenRow)

abbrev insert_row : String → TokenRow → Action Table (Unit {0})
insert_row id r none = (ok tt, some (id, r))
insert_row id r (some x) = (err conflict, some x)

abbrev find_row : String → Table → Option (String × Option Time)
find_row hash none = none
find_row hash (some (id, r)) =
    if str_eq r.token_hash hash then some (r.user_id, r.expires_at) else none

abbrev delete_row : String → String → Action Table ℕ
delete_row id user none = (ok 0, none)
delete_row id user (some (j, r)) =
    if str_eq j id && str_eq r.user_id user then (ok 1, none) else (ok 0, some (j, r))

abbrev row_of : String → Table → Option TokenRow
row_of id none = none
row_of id (some (j, r)) = if str_eq j id then some r else none

abbrev sql : TokenSql Table
sql = record {
  insert = λ id user name hash prefix expires now s.
      insert_row id (record { user_id = user; token_hash = hash; expires_at = expires }) s;
  select_by_user = λ user s. ok [];
  mark_deleted = delete_row;
  select_by_hash = λ hash s. ok (find_row hash s);
  touch = λ hash s. s;
}

inserted_row :
    (id : String) (r : TokenRow) (s : Table)
    → (insert_row id r s).0 ≡ ok tt
    → row_of id (insert_row id r s).1 ≡ some r
inserted_row id r none h = rw (eq_refl id) refl
inserted_row id r (some x) h = absurd (ground arith)

selected_row :
    (id : String) (r : TokenRow) (s : Table)
    → row_of id s ≡ some r
    → find_row r.token_hash s ≡ some (r.user_id, r.expires_at)
selected_row id r none h = absurd (ground arith)
selected_row id r (some (j, q)) h = elim (Bool-cases (str_eq j id)) [
  | inl same ↦ let e : q ≡ r = ground arith in rw (e, eq_refl r.token_hash) refl
  | inr other ↦ absurd (ground arith)
]

deleted_row :
    (id : String) (r : TokenRow) (s : Table)
    → row_of id s ≡ some r
    → find_row r.token_hash (delete_row id r.user_id s).1 ≡ none
deleted_row id r none h = refl
deleted_row id r (some (j, q)) h = elim (Bool-cases (str_eq j id)) [
  | inl same ↦ let e : q ≡ r = ground arith in rw (e, same, eq_refl r.user_id) refl
  | inr other ↦ absurd (ground arith)
]

foreign_row :
    (id user : String) (r : TokenRow) (s : Table)
    → row_of id s ≡ some r
    → r.user_id ≢ user
    → (delete_row id user s).0 ≡ ok 0
foreign_row id user r none h other = refl
foreign_row id user r (some (j, q)) h other = elim (Bool-cases (str_eq j id)) [
  | inl same ↦ let e : q ≡ r = ground arith in ground (arith, eq_iff q.user_id user)
  | inr apart ↦ absurd (ground arith)
]

read_row :
    (id : String) (r : TokenRow) (s : Table) (a : Option (String × Option Time))
    → row_of id s ≡ some r
    → ok (find_row r.token_hash s) ≡ ok a
    → a ≡ some (r.user_id, r.expires_at)
read_row id r s a live read = ground (arith, selected_row id r s live)

hidden_row :
    (id : String) (r : TokenRow) (s : Table) (n : ℕ) (a : Option (String × Option Time))
    → row_of id s ≡ some r
    → (delete_row id r.user_id s).0 ≡ ok n
    → ok (find_row r.token_hash (delete_row id r.user_id s).1) ≡ ok a
    → a ≡ none
hidden_row id r s n a live marked read = ground (arith, deleted_row id r s live)

untouched_row :
    (id user : String) (r : TokenRow) (s : Table) (n : ℕ)
    → row_of id s ≡ some r
    → r.user_id ≢ user
    → (delete_row id user s).0 ≡ ok n
    → n ≡ 0
untouched_row id user r s n live other marked = ground (arith, foreign_row id user r s live other)

abbrev table : TokenTable sql
table = record {
  row = row_of;
  inserted = λ id user name hash prefix expires now s h. inserted_row id _ s h;
  selected = read_row;
  deleted = hidden_row;
  foreign = untouched_row;
}

abbrev hash : String → String
hash plain = String.◌++◌ "#" plain

abbrev plain : String
plain = token_of "aBcDeFgHiJ"

abbrev row : TokenRow
row = record { user_id = "alice"; token_hash = hash plain; expires_at = some 50 }

abbrev kept : Table
kept = some ("t1", row)

abbrev token : AccessToken
token = record {
  id = "t1";
  user_id = "alice";
  name = "laptop";
  token_prefix = "envvault-aBcDeFgH...";
  expires_at = some 50;
  last_used_at = none;
  created_at = 10;
}

created :
    create_pat (pat_store sql (ok "t1") 10) hash "alice" " laptop" (some 50) (ok "aBcDeFgHiJ") none
    ≡ (ok (token, plain), kept)
unfolding create_pat create_token trim_space display_prefix first_chars
created = refl

deleted : delete_pat (pat_store sql (ok "t1") 10) "alice" "t1" kept ≡ (ok tt, none)
unfolding delete_pat soft_delete_token
deleted = refl

abbrev jwt_config : JwtConfig
jwt_config = record { key_error = none; parse = λ t. err conflict; user_resolver = none }

abbrev names : String → String
names user = user

created_token_logs_in_example :
    (combined_auth
      (pat_config_at sql 20 hash names kept)
      jwt_config
      (ok 0)
      (header_of plain)
      none).0
    ≡ accept (pat_claims (pat_config_at sql 20 hash names kept) "alice")
created_token_logs_in_example =
    created_token_logs_in sql table hash names (ok "t1") (ok "aBcDeFgHiJ") 10 20 "alice" " laptop"
      (some 50) none kept token plain (some ("alice", some 50)) jwt_config (ok 0) none created refl

deleted_token_refused_example :
    (row.user_id ≡ "alice")
    × ((combined_auth
          (pat_config_at sql 20 hash names none)
          jwt_config
          (ok 0)
          (header_of plain)
          none).0
        ≡ abort 401 invalid_pat)
deleted_token_refused_example =
    deleted_token_refused sql table hash names (ok "t1") 10 20 "alice" "t1" "aBcDeFgHiJ" row kept
      none jwt_config (ok 0) none refl refl deleted
