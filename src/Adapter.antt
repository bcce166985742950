-- ===== src/Adapter.antt =====
-- internal/adapter/outbound/k8s: the clients that read resources of the cluster for the core.
pub mod Clusters
pub mod Accounts
