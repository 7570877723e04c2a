-- ===== src/Api.antt =====
-- internal/api/server.go: the HTTP interface on the loopback address.
pub mod Types
pub mod Search
pub mod Chat
pub mod Deletion
pub mod Timeline
pub mod Routing
pub mod Access
pub mod Tests
