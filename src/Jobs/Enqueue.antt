-- ===== src/Jobs/Enqueue.antt =====
-- EnqueueTraceJob and TraceJob of apps/backend/internal/db/jobs.go. The advisory lock of the network
-- makes an enqueue one step; a refusal rolls the transaction back.
use open_chain.Prelude.{ℕ, ◌+◌, Bool, Option, none, some, [], ◌∷◌, ◌++◌, leb, if◌then◌else◌, tally}
use open_chain.Jobs.Table.{
  update_where, same_key, QueueError, JobQuery, Row, Table, Job, scan_trace_job,
  normalize_trace_job_query, same_key, find_key, queued_in, client_queued_in, starts_over, queued,
  queue_full, client_queue_full,
}

-- ON CONFLICT … DO UPDATE
unfoldable pub refresh : Bool → ℕ → Row → Row
refresh retry now r =
    let again = starts_over retry now r in
    record r {
      status = if again then queued else r.status;
      result = if again then none else r.result;
      error_message = if again then none else r.error_message;
      completed_at = if again then none else r.completed_at;
      updated_at = now;
    }

unfoldable pub new_row : ℕ → ℕ → JobQuery → Row
new_row id now q = record {
  id = id;
  query = q;
  status = queued;
  result = none;
  error_message = none;
  lease_expires_at = none;
  created_at = now;
  updated_at = now;
  completed_at = none;
}

-- The outcome of EnqueueTraceJob: the job with the new table, or the error.
pub data Enqueued : Type 0 where
  accepted : Job → Table → Enqueued
  refused : QueueError → Enqueued

-- INSERT … ON CONFLICT … RETURNING: the sequence advances on a conflict too.
unfoldable pub insert_job : Table → ℕ → JobQuery → Enqueued
unfolding new_row
insert_job t now q =
    let row = new_row t.next_id now q in
    accepted (scan_trace_job row) (record { rows = t.rows ++ row ∷ []; next_id = t.next_id + 1 })

unfoldable pub refresh_job : Table → ℕ → JobQuery → Bool → Row → Enqueued
refresh_job t now q retry r = accepted (scan_trace_job (refresh retry now r)) (record {
  rows = update_where (λ s. same_key q s.query) (refresh retry now) t.rows;
  next_id = t.next_id + 1;
})

-- EnqueueTraceJob behind the advisory lock of its network; a refusal rolls back.
unfoldable pub enqueue_trace_job : Table → ℕ → JobQuery → Bool → ℕ → ℕ → Enqueued
enqueue_trace_job t now query retry max_queued max_per_client =
    let q = normalize_trace_job_query query in
    let waiting = tally (queued_in q.network) t.rows in
    let mine = tally (client_queued_in q.network q.client_key) t.rows in
    elim (find_key q t.rows) [
      | some r ↦ refresh_job t now q retry r
      | none ↦
          if leb max_queued waiting
          then refused queue_full
          else if leb max_per_client mine
          then refused client_queue_full
          else insert_job t now q
    ]

-- TraceJob: reads, and changes nothing.
unfoldable pub trace_job : Table → JobQuery → Option Job
trace_job t query = elim (find_key (normalize_trace_job_query query) t.rows) [
  | some r ↦ some (scan_trace_job r)
  | none ↦ none
]
