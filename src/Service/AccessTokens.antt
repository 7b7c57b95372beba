-- ===== src/Service/AccessTokens.antt =====
-- internal/service/pat_service.go: the access tokens of a user. The 32 random bytes in base64, or the
-- error of the random source, are an argument, as is the hash of a token, HashPAT. A token is ASCII,
-- so the bytes that its prefix is cut by are its characters.
use Prim.Native.String
use Prim.Native.String.{count}
use env_vault.Base.{
  String, ◌||◌, not, Option, List, leb, Result, ok, err, failure, Action, ◌>>◌, require, str_eq,
  if◌then◌else◌,
}
use env_vault.Domain.{Time}
use env_vault.Text.{trim_space, first_chars}
use env_vault.Auth.Bearer.{pat_prefix}

pub record AccessToken : Type 0 where
  pub id : String
  pub user_id : String
  pub name : String
  pub token_prefix : String
  pub expires_at : Option Time
  pub last_used_at : Option Time
  pub created_at : Time

-- AccessTokenRepository of internal/store/store.go on a database `S`
pub record AccessTokenRepository (S : Type 0) : Type 0 where
  -- the user, the name, the hash, the prefix and the expiry
  pub create_token : String → String → String → String → Option Time → Action S AccessToken
  pub list_tokens_by_user : String → S → Result (List AccessToken)
  -- the token and the user
  pub soft_delete_token : String → String → Action S (Unit {0})
  pub validate_pat : String → Action S String

abbrev pub token_of : String → String
token_of random = String.◌++◌ pat_prefix random

abbrev pub generate_token : Result String → Result String
generate_token (err e) = err e
generate_token (ok random) = ok (token_of random)

unfoldable pub display_prefix : String → String
unfolding first_chars
display_prefix plain =
    if leb (count plain) 17
    then String.◌++◌ plain "..."
    else String.◌++◌ (first_chars 17 plain) "..."

abbrev pub create_checks : String → String → Result String → Result String
create_checks user_id name random = do
  require (not (str_eq (trim_space name) "")) (failure "token name is required")
  require (not (str_eq user_id "")) (failure "userId is required")
  generate_token random

abbrev pub with_plain :
    {S : Type 0} → String → Result AccessToken × S → Result (AccessToken × String) × S
with_plain plain (err e, s) = (err e, s)
with_plain plain (ok token, s) = (ok (token, plain), s)

module _ {S : Type 0} (store : AccessTokenRepository S) (hash_pat : String → String) where
  abbrev pub stored :
      String → String → Option Time → Result String → Action S (AccessToken × String)
  stored user_id name expires_at (err e) s = (err e, s)
  stored user_id name expires_at (ok plain) s = with_plain plain (
      store.create_token user_id (trim_space name) (hash_pat plain) (display_prefix plain)
        expires_at s)

  unfoldable pub create_pat :
      String → String → Option Time → Result String → Action S (AccessToken × String)
  unfolding trim_space display_prefix
  create_pat user_id name expires_at random s =
      stored user_id name expires_at (create_checks user_id name random) s

unfoldable pub list_pats :
    {S : Type 0} → AccessTokenRepository S → String → S → Result (List AccessToken)
list_pats store user_id s = do
  require (not (str_eq user_id "")) (failure "userId is required")
  store.list_tokens_by_user user_id s

unfoldable pub delete_pat :
    {S : Type 0} → AccessTokenRepository S → String → String → Action S (Unit {0})
delete_pat store user_id token_id s =
    if str_eq user_id "" || str_eq token_id ""
    then (err (failure "userId and tokenId are required"), s)
    else store.soft_delete_token token_id user_id s
