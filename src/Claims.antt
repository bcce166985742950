-- ===== src/Claims.antt =====
-- internal/core/account_claims.go: the claims of an account, built from a request and read back.
pub mod Items
pub mod Merge
pub mod Limits
pub mod Builder
pub mod Convert
pub mod Hash
