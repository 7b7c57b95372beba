-- ===== src/Service.antt =====
-- internal/service: the business rules, over repositories that are given as records of operations.
pub mod Rbac
pub mod Login
pub mod Secret
pub mod Tree
pub mod AccessTokens
