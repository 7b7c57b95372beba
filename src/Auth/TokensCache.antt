-- ===== src/Auth/TokensCache.antt =====
-- internal/auth/tokens_cache.go: a cache of each user's `tokens_valid_after`, filled on demand,
-- written through by a logout, and replaced by a background refresh. What is done while the lock is
-- held is one step; a nil cache is `none` where it is used. Get is two steps, `peek` under the read
-- lock and `keep` under the lock, with the load between them, when no lock is held; `get` is a Get
-- that nothing interrupts, and Refresh takes the steps apart. The refresh is two steps likewise:
-- the load of a snapshot from the database, and `SetBatch`.
pub mod Refresh
use env_vault.Base.{
  String, ◌≡◌, Bool, true, false, Option, none, some, List, [], ◌∷◌, Result, ok, err, arith, str_eq,
  eq_iff, if◌then◌else◌,
}
use env_vault.Domain.{Time}

-- A `map[string]time.Time`, by key.
abbrev pub TimeMap : Type 0
TimeMap = List (String × Time)

unfoldable pub lookup : String → TimeMap → Option Time
lookup k [] = none
lookup k ((j, t) ∷ m) = if str_eq j k then some t else lookup k m

unfoldable pub delete : String → TimeMap → TimeMap
delete k [] = []
delete k ((j, t) ∷ m) = let rest = delete k m in if str_eq j k then rest else (j, t) ∷ rest

unfoldable pub insert : String → Time → TimeMap → TimeMap
unfolding delete
insert k t m = (k, t) ∷ delete k m

pub lookup-delete :
    (k j : String) (m : TimeMap) → lookup j (delete k m) ≡ (if str_eq k j then none else lookup j m)
unfolding lookup delete
lookup-delete k j [] = ground arith
lookup-delete k j ((i, t) ∷ m) =
    ground (arith, lookup-delete k j m, eq_iff i k, eq_iff i j, eq_iff k j)

pub lookup-insert :
    (k j : String) (t : Time) (m : TimeMap)
    → lookup j (insert k t m) ≡ (if str_eq k j then some t else lookup j m)
unfolding insert lookup
lookup-insert k j t m = ground (arith, lookup-delete k j m)

-- The cache and its loader; the loader reads the database, so its answer is an argument.
pub record TokensCache : Type 0 where
  pub values : TimeMap
  pub has_loader : Bool

-- the part of Get under the read lock
abbrev pub peek : String → TokensCache → Option Time
peek user_id c = lookup user_id c.values

-- the part of Get under the lock, after the load
abbrev pub keep : String → Time → TokensCache → TokensCache
keep user_id t c = record c { values = insert user_id t c.values }

-- a value of the loader is kept, an error is not
abbrev loaded : String → Result Time → TokensCache → Option Time × TokensCache
loaded user_id (err e) c = (none, c)
loaded user_id (ok t) c = (some t, keep user_id t c)

abbrev hit_or_load : Option Time → String → Result Time → TokensCache → Option Time × TokensCache
hit_or_load (some t) user_id answer c = (some t, c)
hit_or_load none user_id answer c = if c.has_loader then loaded user_id answer c else (none, c)

-- Get when nothing happens between its steps: `(time.Time{}, false)` is `none`
unfoldable pub get : String → Result Time → TokensCache → Option Time × TokensCache
unfolding lookup
get user_id answer c =
    if str_eq user_id "" then (none, c) else hit_or_load (peek user_id c) user_id answer c

unfoldable pub set : String → Time → TokensCache → TokensCache
set user_id t c = if str_eq user_id "" then c else record c { values = insert user_id t c.values }

unfoldable pub invalidate : String → TokensCache → TokensCache
invalidate user_id c =
    if str_eq user_id "" then c else record c { values = delete user_id c.values }

-- what is copied of a map: the entry that counts for each key
unfoldable pub set_batch : TimeMap → TokensCache → TokensCache
set_batch values c = record c { values = values }
