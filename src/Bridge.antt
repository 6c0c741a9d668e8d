-- ===== src/Bridge.antt =====
-- The evidence of bridge transfers: apps/backend/internal/bridge/bridge.go.
pub mod Words
pub mod Events
pub mod Hashes
pub mod Transition
pub mod Messages
pub mod Destination
pub mod Resolve
