-- ===== src/Jobs/Steps.antt =====
-- The transactions that change the table, as a step relation, and what is reachable by them from the
-- empty table, with any interleaving of API servers and workers.
use open_chain.Prelude.{ℕ, ◌≡◌, Bool, Text, []}
use open_chain.Jobs.Table.{trace_job_lease, trace_job_retention, Table, JobQuery, Job}
use open_chain.Jobs.Enqueue.{accepted, enqueue_trace_job}
use open_chain.Jobs.Lifecycle.{
  recover_expired_trace_jobs, claim_trace_job, complete_trace_job, fail_trace_job,
  requeue_trace_job, prune_finished_trace_jobs,
}

-- One committed transaction at the time `now`.
pub data Step (now : ℕ) (t : Table) : Table → Type 0 where
  enqueue :
      (q : JobQuery) (retry : Bool) (max_queued max_per_client : ℕ) {j : Job} {u : Table}
      → enqueue_trace_job t now q retry max_queued max_per_client ≡ accepted j u
      → Step now t u
  recover : (network : Text) → Step now t (recover_expired_trace_jobs t now network)
  claim : (network : Text) → Step now t (claim_trace_job t now network trace_job_lease).1
  complete : (id : ℕ) (result : Text) → Step now t (complete_trace_job t now id result)
  fail : (id : ℕ) (message : Text) → Step now t (fail_trace_job t now id message)
  requeue : (id : ℕ) → Step now t (requeue_trace_job t now id)
  prune :
      (network : Text) → Step now t (prune_finished_trace_jobs t now network trace_job_retention)

abbrev pub empty : Table
empty = record { rows = []; next_id = 1 }

pub data Reach : Table → Type 0 where
  start : Reach empty
  next : {t u : Table} (now : ℕ) → Reach t → Step now t u → Reach u
