-- ===== src/Tests/Jobs.antt =====
-- The job table through a day of one network: internal/db/jobs.go.
use open_chain.Prelude.{
  ℕ, ◌+◌, ◌≤◌, ◌<◌, ◌≡◌, refl, inl, true, false, none, some, [], ◌∷◌, ◌++◌, Text, codes, arith,
  tally, same, is_empty,
}
use open_chain.Jobs.Table.{
  Row, Table, Job, JobQuery, Status, queued, running, succeeded, failed, find_key, queued_in,
  running_in, client_queued_in, normalize_trace_job_query, scan_trace_job, same_key, update_where,
  trace_job_lease,
}
use open_chain.Jobs.Enqueue.{accepted, new_row, insert_job, enqueue_trace_job, trace_job}
use open_chain.Jobs.Lifecycle.{
  oldest_queued, start, claim_trace_job, fail, succeed, running_id, lease_expired, fail_trace_job,
  complete_trace_job, recover_expired_trace_jobs, requeue_trace_job,
}
use open_chain.Jobs.Steps.{Step, Reach, empty}
use open_chain.Jobs.Invariant.{IsConsistent}
use open_chain.Jobs.Reachable.{Reach-IsConsistent}
use open_chain.Jobs.Lookup.{trace_job-enqueue}
use open_chain.Jobs.Capacity.{enqueue_within_limits, retry_over_limit}
use open_chain.Jobs.Claiming.{Claims, claim_oldest, claim-recover_progress}
use open_chain.Jobs.Finish.{Unclaimed, finish_once}
use open_chain.Jobs.Cached.{IsFresh, cached_result}

abbrev base : Text
base = codes "base"

abbrev ask : Text → JobQuery
ask address = record {
  network = base;
  address = address;
  direction = codes "both";
  cursor = codes "";
  client_key = codes "c";
  limit = 50;
  counterparty_limit = 10;
  ranking = codes "most_recent";
  max_depth = 1;
}

abbrev first_query : JobQuery
first_query = ask (codes "0xa")

abbrev second_query : JobQuery
second_query = ask (codes "0xb")

abbrev row_of : ℕ → JobQuery → ℕ → Row
row_of id q at = record {
  id = id;
  query = q;
  status = queued;
  result = none;
  error_message = none;
  lease_expires_at = none;
  created_at = at;
  updated_at = at;
  completed_at = none;
}

abbrev job_of : ℕ → JobQuery → Status → Job
job_of id q s = record { id = id; query = q; status = s; result = none; error_message = [] }

abbrev one_queued : Table
one_queued = record { rows = row_of 1 first_query 3 ∷ []; next_id = 2 }

enqueued :
    enqueue_trace_job empty 3 first_query false 25 3
    ≡ accepted (job_of 1 first_query queued) one_queued
unfolding enqueue_trace_job insert_job find_key normalize_trace_job_query new_row scan_trace_job
    is_empty same_key same
enqueued = refl

reach_queued : Reach one_queued
reach_queued = Reach.next 3 Reach.start (Step.enqueue first_query false 25 3 enqueued)

Reach-IsConsistent_example : IsConsistent one_queued
Reach-IsConsistent_example = Reach-IsConsistent reach_queued

trace_job-enqueue_example : trace_job one_queued first_query ≡ some (job_of 1 first_query queued)
trace_job-enqueue_example =
    trace_job-enqueue empty 3 first_query false 25 3 (job_of 1 first_query queued) one_queued
      enqueued

nothing_found : find_key (normalize_trace_job_query first_query) empty.rows ≡ none
unfolding find_key
nothing_found = refl

enqueue_within_limits_example :
    (tally (queued_in base) one_queued.rows ≤ 25)
    × (tally (client_queued_in base (codes "c")) one_queued.rows ≤ 3)
enqueue_within_limits_example =
    enqueue_within_limits empty 3 first_query false 25 3 (job_of 1 first_query queued) one_queued
      nothing_found enqueued

-- The first query failed, and the second one fills a queue of one.
abbrev failed_row : Row
failed_row = record {
  id = 1;
  query = first_query;
  status = failed;
  result = none;
  error_message = some (codes "HTTP 400");
  lease_expires_at = none;
  created_at = 3;
  updated_at = 5;
  completed_at = some 5;
}

abbrev one_failed : Table
one_failed = record { rows = failed_row ∷ []; next_id = 2 }

abbrev full : Table
full = record { rows = failed_row ∷ row_of 2 second_query 6 ∷ []; next_id = 3 }

failing :
    fail_trace_job (claim_trace_job one_queued 4 base trace_job_lease).1 5 1 (codes "HTTP 400")
    ≡ one_failed
unfolding fail_trace_job claim_trace_job oldest_queued queued_in running_in update_where start fail
    running_id same
failing = refl

filled :
    enqueue_trace_job one_failed 6 second_query false 1 3
    ≡ accepted (job_of 2 second_query queued) full
unfolding enqueue_trace_job insert_job find_key normalize_trace_job_query new_row scan_trace_job
    is_empty same_key same queued_in client_queued_in
filled = refl

reach_failed : Reach one_failed
reach_failed =
    rw failing at
      (Reach.next 5 (Reach.next 4 reach_queued (Step.claim base)) (Step.fail 1 (codes "HTTP 400")))

reach_full : Reach full
reach_full = Reach.next 6 reach_failed (Step.enqueue second_query false 1 3 filled)

found_failed : find_key (normalize_trace_job_query first_query) full.rows ≡ some failed_row
unfolding find_key normalize_trace_job_query same_key same is_empty
found_failed = refl

one_waits : tally (queued_in base) full.rows ≡ 1
unfolding queued_in same
one_waits = refl

retry_over_limit_example :
    (j : Job) × (u : Table) × (enqueue_trace_job full 9 first_query true 1 3 ≡ accepted j u)
    × (tally (queued_in base) u.rows ≡ 2)
retry_over_limit_example =
    retry_over_limit full 9 first_query 1 3 failed_row (Reach-IsConsistent reach_full) found_failed
      refl one_waits

claims_first : (claim_trace_job one_queued 4 base 10).0 ≡ some (job_of 1 first_query running)
unfolding claim_trace_job oldest_queued queued_in running_in update_where start scan_trace_job same
claims_first = refl

claim_oldest_example : (r : Row) × Claims one_queued 4 base 10 (job_of 1 first_query running) r
claim_oldest_example = claim_oldest one_queued 4 base 10 (job_of 1 first_query running) claims_first

-- A worker that died at time 4 left the first job running until time 14.
abbrev left_running : Table
left_running = record {
  rows = (record (row_of 1 first_query 3) { status = running; lease_expires_at = some 14 }) ∷ [];
  next_id = 2;
}

one_left : 0 < tally (queued_in base) left_running.rows + tally (running_in base) left_running.rows
unfolding queued_in running_in same
one_left = omega arith

claim-recover_progress_example :
    (j : Job) × ((claim_trace_job (recover_expired_trace_jobs left_running 15 base) 15 base 10).0
      ≡ some j)
claim-recover_progress_example =
    claim-recover_progress left_running 15 base 10 ((λ _. refl), tt) one_left

-- The first job runs, the second one waits; the first is completed at 9, and the second handed out
-- at 10, after a recovery.
abbrev two_jobs : Table
two_jobs = record { rows = left_running.rows ++ row_of 2 second_query 4 ∷ []; next_id = 3 }

abbrev first_done : Table
first_done = complete_trace_job two_jobs 9 1 (codes "{}")

abbrev recovered : Table
recovered = recover_expired_trace_jobs first_done 10 base

abbrev second_runs : Table
second_runs = (claim_trace_job recovered 10 base trace_job_lease).1

second_handed_out :
    (claim_trace_job recovered 10 base trace_job_lease).0 ≡ some (job_of 2 second_query running)
unfolding complete_trace_job recover_expired_trace_jobs claim_trace_job oldest_queued queued_in
    running_in update_where start running_id succeed lease_expired scan_trace_job same
second_handed_out = refl

handed_out_after : Unclaimed 1 first_done second_runs
unfolding complete_trace_job recover_expired_trace_jobs claim_trace_job oldest_queued queued_in
    running_in update_where start running_id succeed lease_expired scan_trace_job same
handed_out_after =
    Unclaimed.step 10 (Unclaimed.step 10 Unclaimed.same (Step.recover base) refl) (Step.claim base)
      refl

finish_once_example :
    (complete_trace_job second_runs 12 1 (codes "[]") ≡ second_runs)
    × (fail_trace_job second_runs 12 1 (codes "y") ≡ second_runs)
    × (requeue_trace_job second_runs 12 1 ≡ second_runs)
finish_once_example =
    finish_once 1 two_jobs 9 (codes "{}") (codes "x") first_done second_runs (inl refl)
      handed_out_after 12 (codes "[]") (codes "y")

abbrev done_row : Row
done_row = record failed_row {
  status = succeeded;
  result = some (codes "{}");
  error_message = none;
}

abbrev one_done : Table
one_done = record { rows = done_row ∷ []; next_id = 2 }

finishing :
    complete_trace_job (claim_trace_job one_queued 4 base trace_job_lease).1 5 1 (codes "{}")
    ≡ one_done
unfolding complete_trace_job claim_trace_job oldest_queued queued_in running_in update_where start
    succeed running_id same
finishing = refl

reach_done : Reach one_done
reach_done =
    rw finishing at
      (Reach.next 5 (Reach.next 4 reach_queued (Step.claim base)) (Step.complete 1 (codes "{}")))

found_done : find_key (normalize_trace_job_query first_query) one_done.rows ≡ some done_row
unfolding find_key normalize_trace_job_query same_key same is_empty
found_done = refl

IsFresh-done : IsFresh 100 done_row
IsFresh-done = record { done = refl; completed = 5; at = refl; young = omega arith }

cached_result_example :
    trace_job (recover_expired_trace_jobs one_done 100 base) first_query
    ≡ some (scan_trace_job done_row)
cached_result_example =
    cached_result first_query done_row (Reach-IsConsistent reach_done) found_done IsFresh-done
      (Step.recover base)
