-- ===== src/Http.antt =====
-- internal/http: the controllers. A handler's answer is the list of the bodies that it writes, in
-- their order, since gin writes each body after the other; the status line is that of the first.
-- Binding a request's JSON, logging, and the texts of the sentinel errors are left aside.
pub mod Access
pub mod Search
pub mod Requests
pub mod Folders
pub mod Resources
pub mod Lists
use env_vault.Base.{
  ℕ, String, Bool, true, false, ◌&&◌, Option, none, some, List, [], ◌∷◌, ◌++◌, Result, ok, err,
  Failure, permission_denied, not_found, conflict, str_eq, if◌then◌else◌, ◌≡◌, refl, ◌⊎◌, inl, inr,
  arith,
}
use env_vault.Base.Int.{ℤ, pos, negsuc}
use env_vault.Text.{trim_space}
use env_vault.Auth.{UserInfo, Authorizer}
use env_vault.Auth.Bearer.{is_uuid}

-- The text of an error, a text, or the text of an error after another text.
pub data Message : Type 0 where
  error : Failure → Message
  text : String → Message
  prefixed : String → Failure → Message

-- Body of internal/http/response/response.go with its status. `none` is null.
pub record Reply (A : Type 0) : Type 0 where
  pub status : ℕ
  pub code : ℤ
  pub msg : Message
  pub content : Option A

abbrev pub ok_reply : {A : Type 0} → A → Reply A
ok_reply a = record { status = 200; code = pos 0; msg = text "success"; content = some a }

abbrev pub fail : {A : Type 0} → ℕ → ℤ → Message → Reply A
fail status code msg = record { status = status; code = code; msg = msg; content = none }

abbrev pub fail_with_msg : {A : Type 0} → Message → Reply A
fail_with_msg msg = record { status = 200; code = negsuc 0; msg = msg; content = none }

-- OKWithCode without data
abbrev pub coded : {A : Type 0} → ℤ → Message → Reply A
coded code msg = record { status = 200; code = code; msg = msg; content = none }

-- What the client sees as the status: that of the first body.
abbrev pub status_of : {A : Type 0} → List (Reply A) → Option ℕ
status_of [] = none
status_of (r ∷ rs) = some r.status

-- `write` of internal/http/controller/resource_common.go
unfoldable pub write : {A : Type 0} → Result A → Reply A
write (ok a) = ok_reply a
write (err permission_denied) = fail 403 (pos 1403) (error permission_denied)
write (err not_found) = fail 404 (pos 1404) (error not_found)
write (err conflict) = fail 409 (pos 1409) (error conflict)
write (err e) = fail_with_msg (error e)

abbrev pub resource_type : String → String
resource_type t = if str_eq (trim_space t) "" then "global" else trim_space t

-- what `allowScope` writes of an error
abbrev pub refusal : {A : Type 0} → Result (Unit {0}) → Bool × List (Reply A)
refusal (ok _) = (true, [])
refusal (err not_found) = (false, fail 404 (pos 1404) (error not_found) ∷ [])
refusal (err permission_denied) = (false, fail 403 (pos 1403) (error permission_denied) ∷ [])
refusal (err e) = (false, write (err e) ∷ [])

-- `allowScope` of internal/http/controller/rbac_helpers.go: the answer, and what it has written
unfoldable pub allow_scope :
    {S A : Type 0}
    → Option (Authorizer S)
    → UserInfo
    → String
    → String
    → String
    → S
    → Bool × List (Reply A)
unfolding trim_space
allow_scope none user permission scope_type scope_id s = refusal (err permission_denied)
allow_scope (some authorizer) user permission scope_type scope_id s =
    refusal (
      authorizer.allow user permission (record { kind = resource_type scope_type; id = scope_id })
        s)

-- What a check finds: the body that it writes, which ends the handler, or what the handler goes on
-- with.
pub data Checked (A : Type 0) (B : Type 0) : Type 0 where
  answered : Reply A → Checked A B
  passed : B → Checked A B

-- `^[0-9a-fA-F]{8}-…$`: the form that IsUUID reads, without space around it
abbrev pub matches_uuid : String → Bool
matches_uuid id = is_uuid id && str_eq (trim_space id) id

infixl 5 ◌>>=◌ ◌>>◌
abbrev pub ◌>>=◌ : {A B C : Type 0} → Checked A B → (B → Checked A C) → Checked A C
(◌>>=◌) (answered r) f = answered r
(◌>>=◌) (passed b) f = f b

abbrev pub ◌>>◌ : {A C : Type 0} → Checked A (Unit {0}) → Checked A C → Checked A C
(◌>>◌) (answered r) k = answered r
(◌>>◌) (passed _) k = k

abbrev pub check : {A : Type 0} → Bool → Reply A → Checked A (Unit {0})
check true r = passed tt
check false r = answered r

pub Checked-cases :
    {A B : Type 0} (c : Checked A B)
    → ((b : B) × (c ≡ passed b)) ⊎ ((r : Reply A) × (c ≡ answered r))
Checked-cases (passed b) = inl (b, refl)
Checked-cases (answered r) = inr (r, refl)

-- What a chain of checks that is passed has gone through.
pub then-passed :
    {A C : Type 0} (c : Checked A (Unit {0})) (k : Checked A C) {d : C}
    → ◌>>◌ c k ≡ passed d
    → (c ≡ passed tt) × (k ≡ passed d)
then-passed (passed _) k h = (refl, h)
then-passed (answered r) k h = absurd (ground arith)

pub bind-passed :
    {A B C : Type 0} (c : Checked A B) (f : B → Checked A C) {d : C}
    → ◌>>=◌ c f ≡ passed d
    → (b : B) × (c ≡ passed b) × (f b ≡ passed d)
bind-passed (passed b) f h = (b, refl, h)
bind-passed (answered r) f h = absurd (ground arith)

pub check-passed :
    {A : Type 0} (b : Bool) (r : Reply A) {u : Unit {0}} → check b r ≡ passed u → b ≡ true
check-passed true r h = refl
check-passed false r h = absurd (ground arith)
