-- ===== src/Auth/TokensCache/Refresh.antt =====
-- internal/auth/tokens_cache.go: the background refresh and the requests that read a row against the
-- logouts: what is loaded from the database before a logout and stored after it brings the old value
-- back.
use env_vault.Base.{
  String, ◌≡◌, ◌≢◌, Bool, false, Option, none, some, ◌∷◌, ◌++◌, any, All, Result, arith, str_eq,
  eq_iff, eq_refl,
}
use env_vault.Domain.{Time}
use env_vault.Auth.TokensCache.{
  TimeMap, TokensCache, lookup, insert, peek, keep, get, set, set_batch, lookup-insert,
}

-- The database's column, the cache, the snapshot that a refresh has loaded and not yet stored, and the
-- values that requests have loaded and not yet stored, and the times that logouts have written to the
-- database and not yet to the cache.
pub record World : Type 0 where
  pub db : TimeMap
  pub cache : TokensCache
  pub snapshot : Option TimeMap
  pub loads : TimeMap
  pub logouts : TimeMap

-- A logout writes the database and then the cache (Logout of auth_service.go): here the two without
-- anything between them, and one by one.
unfoldable pub log_out : String → Time → World → World
log_out user_id t w = record w { db = insert user_id t w.db; cache = set user_id t w.cache }

unfoldable pub write_logout : String → Time → World → World
write_logout user_id t w = record w {
  db = insert user_id t w.db;
  logouts = (user_id, t) ∷ w.logouts;
}

unfoldable pub end_logout : String → Time → TimeMap → World → World
end_logout user_id t others w = record w { cache = set user_id t w.cache; logouts = others }

unfoldable pub load_snapshot : World → World
load_snapshot w = record w { snapshot = some w.db }

unfoldable pub store_snapshot : TimeMap → World → World
store_snapshot m w = record w { cache = set_batch m w.cache; snapshot = none }

-- A user with no row, or with NULL in the column, has Go's zero time.
abbrev pub time_or_zero : Option Time → Time
time_or_zero none = 0
time_or_zero (some t) = t

abbrev pub valid_after : String → TimeMap → Time
valid_after user_id db = time_or_zero (lookup user_id db)

-- The first part of a request's Get that misses: its loader answers with the row of the database. A
-- Get that hits, and one whose loader fails, change nothing.
unfoldable pub load_row : String → World → World
load_row user_id w = record w { loads = (user_id, valid_after user_id w.db) ∷ w.loads }

-- The second part: the value is stored, and the others are still under way.
unfoldable pub store_row : String → Time → TimeMap → World → World
store_row user_id t others w = record w { cache = keep user_id t w.cache; loads = others }

-- That user is among the rows.
abbrev pub has_row : String → TimeMap → Bool
has_row user_id = any (λ l. str_eq l.0 user_id)

-- The steps. No logout writes the database while a snapshot, a load of that user's row or another
-- logout of that user is under way.
pub data QuietStep : World → World → Type 0 where
  logout :
      (w : World) (user_id : String) (t : Time)
      → user_id ≢ ""
      → w.snapshot ≡ none
      → has_row user_id w.loads ≡ false
      → has_row user_id w.logouts ≡ false
      → QuietStep w (write_logout user_id t w)
  settle :
      (w : World) (before after : TimeMap) (user_id : String) (t : Time)
      → user_id ≢ ""
      → w.logouts ≡ before ++ ((user_id, t) ∷ after)
      → QuietStep w (end_logout user_id t (before ++ after) w)
  load : (w : World) → QuietStep w (load_snapshot w)
  store : (w : World) (m : TimeMap) → w.snapshot ≡ some m → QuietStep w (store_snapshot m w)
  miss :
      (w : World) (user_id : String)
      → user_id ≢ ""
      → peek user_id w.cache ≡ none
      → QuietStep w (load_row user_id w)
  arrive :
      (w : World) (before after : TimeMap) (user_id : String) (t : Time)
      → w.loads ≡ before ++ ((user_id, t) ∷ after)
      → QuietStep w (store_row user_id t (before ++ after) w)

pub data QuietRun (w : World) : World → Type 0 where
  start : QuietRun w w
  next : {u v : World} → QuietRun w u → QuietStep u v → QuietRun w v

-- A loaded value is the one in the database.
abbrev IsCurrent : TimeMap → String × Time → Type 0
IsCurrent db l = l.1 ≡ valid_after l.0 db

-- What the cache shows of a user is what the database has, unless a logout of that user is between its
-- two writes; and so is what a snapshot under way shows, what requests have loaded, and what logouts
-- have yet to write to the cache.
pub record IsCoherent (w : World) : Type 0 where
  pub cached :
      (user_id : String) (t : Time)
      → has_row user_id w.logouts ≡ false
      → lookup user_id w.cache.values ≡ some t
      → t ≡ valid_after user_id w.db
  pub fresh :
      (m : TimeMap)
      → w.snapshot ≡ some m
      → (user_id : String) (t : Time) → lookup user_id m ≡ some t
      → t ≡ valid_after user_id w.db
  pub loading : All (IsCurrent w.db) w.loads
  pub ending : All (IsCurrent w.db) w.logouts

-- A logout between the load and the store of a refresh is forgotten by the cache: whenever a user
-- has a time in the database, the cache afterwards gives that old time, whatever the loader would
-- answer, while the database has the time of the logout.
pub logout_forgotten :
    (w : World) (user_id : String) (old new : Time) (answer : Result Time)
    → user_id ≢ ""
    → lookup user_id w.db ≡ some old
    → ((get user_id answer (store_snapshot w.db (log_out user_id new (load_snapshot w))).cache).0
        ≡ some old)
      × (lookup user_id (store_snapshot w.db (log_out user_id new (load_snapshot w))).db ≡ some new)
unfolding store_snapshot log_out load_snapshot get set set_batch
logout_forgotten w user_id old new answer named had = (
  ground (arith, eq_iff user_id ""),
  ground (arith, lookup-insert user_id user_id new w.db, eq_refl user_id),
)

-- A logout between the load and the store of a request is forgotten by the cache as well: whenever a
-- user has a time in the database and none in the cache, a request that has loaded the old time
-- stores it over that of the logout, which the cache then gives, whatever the loader would answer,
-- while the database has the time of the logout.
pub read_forgets_logout :
    (w : World) (user_id : String) (old new : Time) (answer : Result Time)
    → user_id ≢ ""
    → lookup user_id w.db ≡ some old
    → peek user_id w.cache ≡ none
    → let w' : World =
        store_row user_id
          (valid_after user_id w.db)
          w.loads
          (log_out user_id new (load_row user_id w)) in
      QuietStep w (load_row user_id w)
      × ((get user_id answer w'.cache).0 ≡ some old)
      × (lookup user_id w'.db ≡ some new)
unfolding store_row log_out load_row get set
read_forgets_logout w user_id old new answer named had missed = (
  miss w user_id named missed,
  ground (
    arith,
    eq_iff user_id "",
    eq_refl user_id,
    lookup-insert user_id user_id (valid_after user_id w.db) (insert user_id new w.cache.values),
  ),
  ground (arith, lookup-insert user_id user_id new w.db, eq_refl user_id),
)
