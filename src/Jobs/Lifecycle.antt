-- ===== src/Jobs/Lifecycle.antt =====
-- The worker's side of apps/backend/internal/db/jobs.go: recovery, claim, completion, failure, requeue,
-- pruning and statistics.
use open_chain.Prelude.{
  ℕ, ◌+◌, ◌-◌, not, Bool, false, ◌&&◌, ◌||◌, Option, none, some, List, [], ◌∷◌, Text, same, ltb,
  leb, ◌==◌, if◌then◌else◌, keep, tally,
}
use open_chain.Jobs.Table.{
  has_id, update_where, trace_failure_window, Row, Table, Job, scan_trace_job, is_running,
  is_succeeded, is_failed, queued_in, running_in, older_than, queued, running, succeeded, failed,
}

abbrev pub on_rows : (List Row → List Row) → Table → Table
on_rows f t = record t { rows = f t.rows }

unfoldable pub release : ℕ → Row → Row
release now r = record r { status = queued; lease_expires_at = none; updated_at = now }

unfoldable pub lease_expired : Text → ℕ → Row → Bool
lease_expired network now r = running_in network r && older_than r.lease_expires_at 0 now

-- RecoverExpiredTraceJobs
unfoldable pub recover_expired_trace_jobs : Table → ℕ → Text → Table
recover_expired_trace_jobs t now network =
    on_rows (update_where (lease_expired network now) (release now)) t

-- ORDER BY created_at LIMIT 1 over the queued rows of a network.
unfoldable pub oldest_queued : Text → List Row → Option Row
oldest_queued network [] = none
oldest_queued network (r ∷ rs) =
    let rest = oldest_queued network rs in
    if queued_in network r
    then elim rest [
      | none ↦ some r
      | some s ↦ if ltb s.created_at r.created_at then some s else some r
    ]
    else rest

unfoldable pub start : ℕ → ℕ → Row → Row
start now lease r = record r {
  status = running;
  lease_expires_at = some (now + lease);
  updated_at = now;
}

-- ClaimTraceJob. The index trace_jobs_one_running_per_network_idx refuses a second running row of
-- the network; that unique violation is read as "no job".
unfoldable pub claim_trace_job : Table → ℕ → Text → ℕ → Option Job × Table
claim_trace_job t now network lease = elim (oldest_queued network t.rows) [
  | none ↦ (none, t)
  | some r ↦ if ltb 0 (tally (running_in network) t.rows) then (none, t) else (
    some (scan_trace_job (start now lease r)),
    on_rows (update_where (has_id r.id) (start now lease)) t,
  )
]

-- WHERE id = $1 AND status = 'running'
unfoldable pub running_id : ℕ → Row → Bool
running_id id r = id == r.id && is_running r.status

unfoldable pub succeed : ℕ → Text → Row → Row
succeed now result r = record r {
  status = succeeded;
  result = some result;
  error_message = none;
  lease_expires_at = none;
  completed_at = some now;
  updated_at = now;
}

unfoldable pub fail : ℕ → Text → Row → Row
fail now message r = record r {
  status = failed;
  error_message = some message;
  lease_expires_at = none;
  completed_at = some now;
  updated_at = now;
}

unfoldable pub complete_trace_job : Table → ℕ → ℕ → Text → Table
complete_trace_job t now id result = on_rows (update_where (running_id id) (succeed now result)) t

unfoldable pub fail_trace_job : Table → ℕ → ℕ → Text → Table
fail_trace_job t now id message = on_rows (update_where (running_id id) (fail now message)) t

unfoldable pub requeue_trace_job : Table → ℕ → ℕ → Table
requeue_trace_job t now id = on_rows (update_where (running_id id) (release now)) t

-- Status in ('succeeded', 'failed') and finished before the retention.
unfoldable pub outlived : Text → ℕ → ℕ → Row → Bool
outlived network retention now r =
    same network r.query.network
    && ((is_succeeded r.status || is_failed r.status) && older_than r.completed_at retention now)

-- PruneFinishedTraceJobs
unfoldable pub prune_finished_trace_jobs : Table → ℕ → Text → ℕ → Table
prune_finished_trace_jobs t now network retention =
    on_rows (keep (λ r. not (outlived network retention now r))) t

pub record JobStats : Type 0 where
  pub queued_count : ℕ
  pub running_count : ℕ
  pub failed_count : ℕ
  pub oldest_queued_age : ℕ

-- failed, and completed_at >= now() - 15 minutes
unfoldable pub failed_lately : Text → ℕ → Row → Bool
failed_lately network now r =
    same network r.query.network
    && (is_failed r.status
        && elim r.completed_at [ none ↦ false | some c ↦ leb now (c + trace_failure_window) ])

-- TraceJobStats; the age of the oldest queued row is in nanoseconds, and 0 if there is none.
unfoldable pub trace_job_stats : Table → ℕ → Text → JobStats
trace_job_stats t now network = record {
  queued_count = tally (queued_in network) t.rows;
  running_count = tally (running_in network) t.rows;
  failed_count = tally (failed_lately network now) t.rows;
  oldest_queued_age = elim (oldest_queued network t.rows) [
    | none ↦ 0
    | some r ↦ now - r.created_at
  ];
}
