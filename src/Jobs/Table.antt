-- ===== src/Jobs/Table.antt =====
-- The rows of public.trace_jobs (db/migrations/0001_initial.sql:214-250), the query types of
-- apps/backend/internal/db/jobs.go, and the WHERE tests of its statements.
use open_chain.Prelude.{
  ℕ, ◌+◌, ◌*◌, Bool, true, false, ◌&&◌, ◌||◌, Option, none, some, List, [], ◌∷◌, Text, codes, same,
  ltb, ◌==◌, if◌then◌else◌, is_empty,
}

abbrev pub second : ℕ
second = 1_000_000_000

abbrev pub trace_result_cache_ttl : ℕ
trace_result_cache_ttl = 5 * 60 * second

-- traceJobLease and traceJobRetention of internal/tracing/queue.go.
abbrev pub trace_job_lease : ℕ
trace_job_lease = 2 * 60 * second

abbrev pub trace_job_retention : ℕ
trace_job_retention = 24 * 60 * 60 * second

abbrev pub trace_failure_window : ℕ
trace_failure_window = 15 * 60 * second

pub data Status : Type 0 where
  queued running succeeded failed : Status

pub data QueueError : Type 0 where
  queue_full client_queue_full job_not_found : QueueError

pub record JobQuery : Type 0 where
  pub network : Text
  pub address : Text
  pub direction : Text
  pub cursor : Text
  pub client_key : Text
  pub limit : ℕ
  pub counterparty_limit : ℕ
  pub ranking : Text
  pub max_depth : ℕ

-- A row of the table; a nullable column is an `Option`.
pub record Row : Type 0 where
  pub id : ℕ
  pub query : JobQuery
  pub status : Status
  pub result : Option Text
  pub error_message : Option Text
  pub lease_expires_at : Option ℕ
  pub created_at : ℕ
  pub updated_at : ℕ
  pub completed_at : Option ℕ

-- The rows in the order of insertion, and the sequence behind BIGSERIAL.
pub record Table : Type 0 where
  pub rows : List Row
  pub next_id : ℕ

-- What `scanTraceJob` reads back of a row: no NULL error message.
pub record Job : Type 0 where
  pub id : ℕ
  pub query : JobQuery
  pub status : Status
  pub result : Option Text
  pub error_message : Text

unfoldable pub scan_trace_job : Row → Job
scan_trace_job r = record {
  id = r.id;
  query = r.query;
  status = r.status;
  result = r.result;
  error_message = elim r.error_message [ none ↦ [] | some m ↦ m ];
}

unfoldable pub normalize_trace_job_query : JobQuery → JobQuery
normalize_trace_job_query q = record q {
  counterparty_limit = if q.counterparty_limit == 0 then 10 else q.counterparty_limit;
  ranking = if is_empty q.ranking then codes "most_recent" else q.ranking;
  max_depth = if q.max_depth == 0 then 1 else q.max_depth;
}

abbrev pub is_queued : Status → Bool
is_queued queued = true
is_queued _ = false

abbrev pub is_running : Status → Bool
is_running running = true
is_running _ = false

abbrev pub is_succeeded : Status → Bool
is_succeeded succeeded = true
is_succeeded _ = false

abbrev pub is_failed : Status → Bool
is_failed failed = true
is_failed _ = false

-- The columns of the unique index trace_jobs_query_idx; the client key is not one of them.
unfoldable pub same_key : JobQuery → JobQuery → Bool
same_key p q =
    same p.network q.network
    && (same p.address q.address
        && (same p.direction q.direction
            && (same p.cursor q.cursor
                && (p.limit == q.limit
                    && (p.counterparty_limit == q.counterparty_limit
                        && (same p.ranking q.ranking && p.max_depth == q.max_depth))))))

-- WHERE network = $1 AND address = $2 AND …: the one row that the unique index allows.
unfoldable pub find_key : JobQuery → List Row → Option Row
find_key q [] = none
find_key q (r ∷ rs) = if same_key q r.query then some r else find_key q rs

-- WHERE network = $1 AND status = 'queued'
unfoldable pub queued_in : Text → Row → Bool
queued_in network r = same network r.query.network && is_queued r.status

unfoldable pub running_in : Text → Row → Bool
running_in network r = same network r.query.network && is_running r.status

unfoldable pub client_queued_in : Text → Text → Row → Bool
client_queued_in network client r =
    same network r.query.network && (is_queued r.status && same client r.query.client_key)

-- `t < now() - d`, which is not true of NULL.
abbrev pub older_than : Option ℕ → ℕ → ℕ → Bool
older_than none d now = false
older_than (some t) d now = ltb (t + d) now

-- The CASE condition of the upsert.
unfoldable pub starts_over : Bool → ℕ → Row → Bool
starts_over retry now r =
    (retry && is_failed r.status)
    || (is_succeeded r.status && older_than r.completed_at trace_result_cache_ttl now)

abbrev pub has_id : ℕ → Row → Bool
has_id id r = id == r.id

-- UPDATE … WHERE: the rows that pass the test are replaced by their images.
unfoldable pub update_where : (Row → Bool) → (Row → Row) → List Row → List Row
update_where p f [] = []
update_where p f (r ∷ rs) = (if p r then f r else r) ∷ update_where p f rs
