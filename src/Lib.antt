-- ===== src/Lib.antt =====
-- EnvVault keeps the secrets of projects by organization, project, environment and folder, behind an
-- HTTP API with roles. Here its core is modelled and proved: who may do what, how callers are
-- authenticated, and what the services write, show and leave untouched.
--
-- The parts and how they interact
--   A request passes the middleware (internal/auth/jwt.go, internal/auth/pat.go), which turns the
--   Authorization header into claims and asks the cache of revocation times
--   (internal/auth/tokens_cache.go). A controller then calls a service of internal/service with the
--   caller. The services ask the authorizer (internal/auth/rbac.go) before they act, and write
--   through the repositories of internal/store/store.go. The login asks a limiter on Redis
--   (internal/auth/ratelimit/ratelimit.go). A logout writes the database and the cache.
--
-- The files
--   Base: the names, tests, lists, results and integers that all modules share.
--   Text: the functions of Go's `strings` and the two regular expressions, with laws of trimming,
--     affixes and cutting (Text/Trim, Text/Affix, Text/Cut).
--   Domain: the entities of internal/domain/rbac.go; Domain/Pagination: internal/domain/pagination.go.
--   Auth: UserInfo, Resource, Scope and RBACAuthorizer.Allow (internal/auth/rbac.go);
--     Auth/Permissions: what a permission rests on.
--   Auth/RateLimit: RedisLimiter; its Check and Record are `check` and `record_attempt`. Redis is a
--     record of operations, and Auth/RateLimit/Redis states their documented effect as laws;
--     Window and Lockout hold what follows.
--   Auth/TokensCache: TokensCache, a map in the order of its insertions; Refresh: the refresher, the
--     requests that load a row and the logouts, as steps that interleave.
--   Auth/Bearer, Auth/Middleware: bearerToken, IsPAT, IsUUID, JWTMiddleware,
--     CombinedAuthMiddleware; Middleware/Revocation: what an accepted request has shown.
--   Service/Rbac: the repository of internal/service/rbac_service.go; Codes (splitCode,
--     actionCovers, expandCoveredCodes), Coverage (checkCallerParentCoverage), Guards (the checks in
--     front of a write), Roles and Bindings (the methods); their children hold the proofs.
--   Service/Login: Login of internal/service/auth_service.go; Login/Account: Register, Logout,
--     ChangePassword; Credentials, BruteForce and Sessions hold what they guarantee.
--   Service/Secret: the data and what is given to internal/service/secret_service.go; Paths
--     (parseSecretPath), Single (Create to RevealByPath; its Laws and Writes), Batch (BatchCreate, BatchUpdate) and
--     Batch/ByIds (BatchUpdateByIDs), FolderReveal (BatchRevealByPath, BatchRevealByCode), Search (List, Search),
--     AcrossEnvs (ListAcrossEnvs).
--   Service/Tree: GetTree of internal/service/tree_service.go; Visible (the filters), Build
--     (buildTree), Answer (applyMaxDepth, GetTree), Project (GetProjectFolderTree), and Late, Orphans
--     and Depth on what the tree holds.
--   Service/AccessTokens: CreatePAT, ListPATs and DeletePAT of internal/service/pat_service.go.
--   Store/Tokens: PATStore of internal/store/postgres/pat.go over its SQL statements; Tokens/Access:
--     access tokens from their creation to the middleware.
--   Store/Cache: the keys of internal/store/redis/cache.go and what it is given (Redis, encodings);
--     Cache/Redis states the documented effect of the commands as laws. Meta: UpsertOrg to
--     DeleteFolder, ListAllMeta, WarmTree. Secrets: UpsertSecret, DeleteSecret, WarmSecrets. Search:
--     GlobalSearch, SearchSecrets. Refines: the cache as maps from ids to hashes.
--   Http: internal/http/response/response.go, with write (resource_common.go) and allowScope
--     (rbac_helpers.go) of internal/http/controller; Http/Access: whom allowScope lets through. Http/Search: GlobalSearch of search.go.
--     Http/Folders: BatchUpdateFolders of resource_folder_batch.go. Http/Requests: BatchCreateSecret
--     and BatchUpdateSecret of resource_secret_batch.go. Http/Resources: what the handlers of
--     resource_organization.go, resource_project.go, resource_environment.go and resource_folder.go
--     share, with cacheInvalidateCascade of controller.go; Resources/Handlers: these handlers. Http/Lists: the lists of
--     the same files.
--   Tests: concrete services and stores, and the theorems applied to them.
--
-- How the code is translated
--   A method that only reads is a function of the state of the database; one that writes returns the
--   state that it leaves beside its result. Sentinel errors are constructors of `Failure`, any other
--   error keeps its text, and an error that is wrapped is the error that it wraps. Errors of the
--   caches and of the records of attempts, which the code ignores or only logs, change nothing but
--   the state that is left. Numbers are native; page offsets are read as signed 64-bit integers.
--   Text is a list of code points. A loop is recursion on its list. The fuel of the decimal
--   digits of a number is 20, more than a 64-bit integer has digits. The loop over the cursors of SCAN
--   in WarmSecrets takes fuel, and a loop that runs out of it answers `none`; a SCAN of Redis on a set
--   of keys that stays bounded comes to an end. A handler of HTTP returns the bodies that it writes, in their order.
--
-- What is not modelled
--   The SQL of the repositories, AES-GCM, Argon2id, the parsing and signing of tokens, Redis, base64,
--   JSON and the layout of times are given by their interfaces. The wiring, logging, the binding of
--   requests and the other controllers are left out so far. Goroutines that
--   work on keys of their own stand one after the other.
pub mod Base
pub mod Text
pub mod Domain
pub mod Auth
pub mod Service
pub mod Store
pub mod Http
pub mod Tests
