-- ===== src/Rpc.antt =====
-- rpc_api.go: the methods by which components and peers call each other. Each takes and returns
-- serial forms.
pub mod Local
pub mod Trackers
pub mod Global
pub mod Syncing
pub mod Components
pub mod Statuses
