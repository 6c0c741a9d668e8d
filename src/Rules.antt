-- ===== src/Rules.antt =====
-- The deterministic rules over confirmation-backed transfers: apps/backend/internal/rules.
pub mod Catalog
pub mod Window
pub mod Leads
pub mod Fan
pub mod Onward
pub mod Chain
pub mod Evaluate
