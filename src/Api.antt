-- ===== src/Api.antt =====
-- api/types.go: the types that the components exchange, and their serial forms.
pub mod Status
pub mod Types
pub mod Ids
pub mod Metrics
pub mod RoundTrip
