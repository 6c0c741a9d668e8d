-- ===== src/Tests.antt =====
-- Runs of the definitions at concrete inputs, and the theorems at inputs that meet their hypotheses.
mod Jobs
mod Worker
mod RateLimit
mod Graph
mod Rules
mod Bridge
mod Deposit
mod Source
