-- ===== src/Domain.antt =====
-- The domain types: internal/domain and internal/domain/nauth.
pub mod Names
pub mod Creds
pub mod Cluster
pub mod Account
pub mod Adoptions
pub mod Errors
