-- ===== src/Store.antt =====
-- internal/store: what keeps the data. Of it, the cache on Redis is modelled; the repositories are
-- SQL, and the services take them by their interfaces.
pub mod Cache
pub mod Tokens
