-- ===== src/Graph.antt =====
-- The tracing engine: apps/backend/internal/tracing/graph.go.
pub mod Controls
pub mod Confirmation
pub mod Items
pub mod Select
pub mod Traverse
pub mod Nodes
pub mod Coverage
pub mod Transitions
pub mod Resolve
