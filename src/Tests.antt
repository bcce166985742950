-- ===== src/Tests.antt =====
-- The theorems about internal/core and internal/domain applied to a concrete cluster.
pub mod Libraries
pub mod Fixtures
pub mod Machinery
mod Controllers
pub mod Claimed
mod Watches
mod NatsClusters
mod Claims
mod Secrets
mod Adoptions
mod Accounts
mod Clusters
mod Users
