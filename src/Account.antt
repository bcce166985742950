-- ===== src/Account.antt =====
-- internal/core/account.go: `AccountManager`.
pub mod Adopt
pub mod Keys
pub mod Create
pub mod Import
pub mod Delete
pub mod Sign
pub mod Connections
