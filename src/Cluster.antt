-- ===== src/Cluster.antt =====
-- cluster.go: the component that ties the others together.
pub mod Allocate
pub mod Candidates
pub mod Eligible
pub mod MultiRpc
pub mod Pinning
pub mod Global
pub mod Peers
pub mod Lifecycle
pub mod Building
pub mod StateSync
pub mod Queries
