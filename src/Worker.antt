-- ===== src/Worker.antt =====
-- The trace queue of one network, over the job table: apps/backend/internal/tracing/queue.go.
pub mod Retry
pub mod Run
pub mod Serve
