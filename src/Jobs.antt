-- ===== src/Jobs.antt =====
-- The durable trace-job table: apps/backend/internal/db/jobs.go over public.trace_jobs of
-- apps/backend/internal/db/migrations/0001_initial.sql. Each method is one transaction, an operation
-- on the whole table at the time `now` that Postgres's now() gives it; a database error is a rollback
-- and is not modelled. Times are natural numbers of nanoseconds.
pub mod Table
pub mod Enqueue
pub mod Lifecycle
pub mod Steps
pub mod Invariant
pub mod Updates
pub mod RowMaps
pub mod Accepted
pub mod Lookup
pub mod Finish
pub mod Reachable
pub mod Claimed
pub mod Capacity
pub mod Claiming
pub mod Cached
