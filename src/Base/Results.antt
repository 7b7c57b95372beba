-- ===== src/Base/Results.antt =====
-- Go's `(value, error)` results: the sentinel errors that the program compares by `errors.Is`
-- are constructors (an error wrapped by `%w` is the error that it wraps), any other error keeps
-- its text. An action on a state returns the state that it leaves beside its result.
use Prim.Native.String.{String}
use mathlib.Core.Path.{◌≡◌, refl}
use mathlib.Core.Bool.{Bool, true, false}
use mathlib.Core.Logic.{◌⊎◌, inl, inr}

pub data Failure : Type 0 where
  permission_denied not_found conflict : Failure
  rate_limited invalid_argument email_already_exists bad_credentials : Failure
  missing_bearer_token missing_public_key invalid_public_key : Failure
  invalid_user_id token_revoked token_invalid_claims invalid_pat : Failure
  failure : String → Failure

pub data Result {ℓ} (A : Type ℓ) : Type ℓ where
  err : Failure → Result A
  ok : A → Result A

abbrev pub Action : Type 0 → Type 0 → Type 0
Action S A = S → Result A × S

-- `if !cond { return err }`
abbrev pub require : Bool → Failure → Result (Unit {0})
require false e = err e
require true e = ok tt

infixl 5 ◌>>=◌ ◌>>◌
-- `if err != nil { return err }` between a call and what uses its value
abbrev pub ◌>>=◌ {ℓ ℓ'} : {A : Type ℓ} {B : Type ℓ'} (r : Result A) → (A → Result B) → Result B
err e >>= next = err e
ok x >>= next = next x

-- the same for a call without a value
abbrev pub ◌>>◌ {ℓ} : {B : Type ℓ} (r : Result (Unit {0})) → Result B → Result B
err e >> next = err e
ok _ >> next = next

pub Result-cases {ℓ} :
    {A : Type ℓ} (r : Result A) → ((a : A) × (r ≡ ok a)) ⊎ ((e : Failure) × (r ≡ err e))
Result-cases (ok a) = inl (a, refl)
Result-cases (err e) = inr (e, refl)

-- What a chain that succeeds has gone through.
pub bind-ok {ℓ ℓ'} :
    {A : Type ℓ} {B : Type ℓ'} (r : Result A) (next : A → Result B) {b : B}
    → (r >>= next) ≡ ok b
    → (a : A) × (r ≡ ok a) × (next a ≡ ok b)
bind-ok (err e) next h = cc
bind-ok (ok a) next h = (a, refl, h)

pub then-ok :
    {B : Type 0} (r : Result (Unit {0})) (k : Result B) {b : B}
    → ◌>>◌ r k ≡ ok b
    → (r ≡ ok tt) × (k ≡ ok b)
then-ok (ok _) k h = (refl, h)
then-ok (err e) k h = cc

pub require-ok : (b : Bool) (e : Failure) {u : Unit {0}} → require b e ≡ ok u → b ≡ true
require-ok true e h = refl
require-ok false e h = cc
