-- ===== src/Tests.antt =====
-- Concrete inputs at which the theorems are applied, by part of the program. Here: what the tests
-- share.
mod RateLimit
mod Rbac
mod Sessions
mod Secrets
mod Trees
mod Cache
mod Tokens
mod Http
mod Requests
mod Resources
use env_vault.Base.{String, ◌≡◌, ◌≢◌, false, arith, str_eq, eq_iff, ok, List, [], ◌∷◌, some, none}
use env_vault.Auth.{UserInfo, Authorizer}

pub differ : (s t : String) → str_eq s t ≡ false → s ≢ t
differ s t h = ground (arith, eq_iff s t)

abbrev pub alice : UserInfo
alice = record { user_id = "alice"; name = "Alice"; jwt = ""; cookie = "" }

-- Allows everything.
abbrev pub open_door : {S : Type 0} → Authorizer S
open_door = record { allow = λ user action resource s. ok tt }
