-- ===== src/Tests/Worker.antt =====
-- The retries, the worker's round and the request side of the queue: internal/tracing/queue.go,
-- internal/adapter/provider.go and the controls of internal/tracing/graph.go.
use mathlib.Core.Path.{subst}
use open_chain.Prelude.{
  ℕ, ◌*◌, ◌≤◌, ◌<◌, ◌≡◌, ◌≢◌, ◌↔◌, refl, Bool, true, false, Option, none, some, [], ◌∷◌, Text,
  codes, arith, All, length, ◌==◌, if◌then◌else◌, same,
}
use open_chain.Prelude.Int.{pos}
use open_chain.Provider.{second, ProviderError, provider_error, retry_delay}
use open_chain.Provider.Delay.{Transient, retry_delay_iff}
use open_chain.Graph.Controls.{
  graph_controls, graph_depth, page_limit, IsRanking, max_counterparty_limit, max_graph_depth,
  max_page_size, controls_bounds, controls_idem,
}
use open_chain.Worker.Retry.{
  Answer, answered, refused, resolved, exhausted, resolve_with_retry, FailsFor,
  resolve_with_retry_bounds, resolve_with_retry_resolves,
}
use open_chain.Worker.Run.{Round, run_once}
use open_chain.Worker.Run.Settled.{Settled, run_once_settles, after_recovery}
use open_chain.Worker.Serve.{
  TraceRequest, trace_graph, trace_status, trace_status-trace_graph, pending_graph, queue_error,
  result_for_job,
}
use open_chain.Jobs.Table.{
  Row, Table, Job, JobQuery, QueueError, queued, running, trace_job_lease, queued_in, running_in,
  update_where, scan_trace_job, find_key,
}
use open_chain.Jobs.Enqueue.{enqueue_trace_job, insert_job, new_row}
use open_chain.Jobs.Lifecycle.{
  claim_trace_job, oldest_queued, start, recover_expired_trace_jobs, lease_expired,
}
use open_chain.Jobs.Claimed.{Has}
use open_chain.Jobs.Steps.{empty}

abbrev busy : ProviderError
busy = record { provider = codes "alchemy"; status_code = 429; retry_after = pos 0 }

busy_delay : retry_delay (provider_error busy) 2 ≡ some (2 * second)
unfolding retry_delay
busy_delay = refl

retry_delay_iff_example :
    (retry_delay (provider_error busy) 2 ≢ none)
    ↔ ((p : ProviderError) × (provider_error busy ≡ provider_error p) × Transient p.status_code)
retry_delay_iff_example = retry_delay_iff (provider_error busy) 2

controls_bounds_example :
    (1 ≤ (graph_controls 40 (codes "x")).0)
    × ((graph_controls 40 (codes "x")).0 ≤ max_counterparty_limit)
    × IsRanking (graph_controls 40 (codes "x")).1
    × (1 ≤ graph_depth 9)
    × (graph_depth 9 ≤ max_graph_depth)
    × (1 ≤ page_limit 0)
    × (page_limit 0 ≤ max_page_size)
controls_bounds_example = controls_bounds 40 9 0 (codes "x")

controls_idem_example :
    (graph_controls (graph_controls 40 (codes "x")).0 (graph_controls 40 (codes "x")).1
      ≡ graph_controls 40 (codes "x"))
    × (graph_depth (graph_depth 9) ≡ graph_depth 9)
controls_idem_example = controls_idem 40 9 (codes "x")

-- The first call is refused by a busy provider, and the second one answers.
abbrev second_answers : ℕ → Answer ℕ
second_answers k = if k == 1 then refused (provider_error busy) else answered k

abbrev never : ℕ → Bool
never k = false

resolve_with_retry_bounds_example :
    (length (resolve_with_retry second_answers never).1 ≤ 2)
    × All (λ d. (second ≤ d) × (d ≤ 10 * second)) (resolve_with_retry second_answers never).1
    × ((resolve_with_retry second_answers never).0 ≢ exhausted)
resolve_with_retry_bounds_example = resolve_with_retry_bounds second_answers never

first_fails : (i : ℕ) → 1 ≤ i → i < 2 → FailsFor second_answers never i
unfolding retry_delay
first_fails i lo hi =
    let e : 1 ≡ i = omega arith in
    subst (FailsFor second_answers never) e (provider_error busy, second, refl, refl, refl)

resolve_with_retry_resolves_example : (resolve_with_retry second_answers never).0 ≡ resolved 2
resolve_with_retry_resolves_example =
    resolve_with_retry_resolves second_answers never 2 2 (omega arith) (omega arith) refl
      first_fails

abbrev query : TraceRequest
query = record {
  address = codes "0xa";
  direction = codes "both";
  limit = 50;
  cursor = codes "";
  max_counterparties = 0;
  ranking = codes "";
  max_depth = 0;
}

abbrev decode : Option Text → Option Text
decode o = o

first_reply :
    (trace_graph decode (codes "base") empty 3 query false (codes "c") 25 3).0
    ≡ pending_graph (codes "0xa") (codes "Trace retrieval is queued and will begin shortly.") true
unfolding trace_graph enqueue_trace_job insert_job find_key result_for_job new_row scan_trace_job
first_reply = refl

served :
    (e : QueueError)
    → (trace_graph decode (codes "base") empty 3 query false (codes "c") 25 3).0 ≢ queue_error e
served e h = cc first_reply

trace_status-trace_graph_example :
    trace_status decode
      (codes "base")
      (trace_graph decode (codes "base") empty 3 query false (codes "c") 25 3).1
      query
    ≡ (trace_graph decode (codes "base") empty 3 query false (codes "c") 25 3).0
trace_status-trace_graph_example =
    trace_status-trace_graph decode (codes "base") empty 3 query false (codes "c") 25 3 served

abbrev stored_query : JobQuery
stored_query = record {
  network = codes "base";
  address = codes "0xa";
  direction = codes "both";
  cursor = codes "";
  client_key = codes "c";
  limit = 50;
  counterparty_limit = 10;
  ranking = codes "most_recent";
  max_depth = 1;
}

abbrev one_queued : Table
one_queued = record {
  rows =
      (record {
        id = 1;
        query = stored_query;
        status = queued;
        result = none;
        error_message = none;
        lease_expires_at = none;
        created_at = 3;
        updated_at = 3;
        completed_at = none;
      })
      ∷ [];
  next_id = 2;
}

abbrev good_round : Round ℕ
good_round = record {
  recover_ok = true;
  claim_ok = true;
  write_ok = true;
  outcome = resolved 2;
  context_error = codes "";
  message_of = λ e. codes "retrieve base transfers: chain request failed";
  interrupted = false;
  encode = λ k. some (codes "{}");
  recovered_at = 4;
  claimed_at = 4;
  written_at = 5;
}

abbrev claimed_job : Job
claimed_job = record {
  id = 1;
  query = stored_query;
  status = running;
  result = none;
  error_message = [];
}

claimed :
    (claim_trace_job
      (after_recovery good_round one_queued (codes "base"))
      4
      (codes "base")
      trace_job_lease).0
    ≡ some claimed_job
unfolding claim_trace_job recover_expired_trace_jobs lease_expired oldest_queued queued_in
    running_in update_where start scan_trace_job same
claimed = refl

run_once_settles_example :
    ((run_once good_round one_queued (codes "base")).1 ≡ true)
    × ((s : Row) × Has s (run_once good_round one_queued (codes "base")).0.rows
        × (s.id ≡ 1)
        × Settled good_round (resolved 2) s)
run_once_settles_example =
    run_once_settles good_round one_queued (codes "base") claimed_job refl refl refl claimed
