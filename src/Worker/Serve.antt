-- ===== src/Worker/Serve.antt =====
-- The request side of the queue: TraceGraph, TraceStatus, resultForJob, Stats and Capacity. The graph
-- is opaque here; json.Unmarshal and PendingGraph's clock are arguments.
use open_chain.Prelude.{
  ℕ, ◌≡◌, refl, ◌≢◌, Bool, true, false, Option, none, some, Text, codes, inl, inr, ◌⊎◌,
}
use open_chain.Graph.Controls.{graph_controls, graph_depth}
use open_chain.Jobs.Table.{
  Table, Job, JobQuery, Status, queued, running, succeeded, failed, QueueError, job_not_found,
}
use open_chain.Jobs.Enqueue.{Enqueued, accepted, refused, enqueue_trace_job, trace_job}
use open_chain.Jobs.Lookup.{trace_job-enqueue, trace_job-client}

-- A reply: a finished graph, PendingGraph with its warning and its Pending flag, or an error.
pub data Reply (G : Type 0) : Type 0 where
  graph : G → Reply G
  pending_graph : Text → Text → Bool → Reply G
  undecodable : Reply G
  queue_error : QueueError → Reply G

abbrev retry_warning : Text
retry_warning = codes "Trace retrieval did not complete. Search again to retry."

abbrev progress_warning : Text
progress_warning = codes "Trace retrieval is in progress."

abbrev queued_warning : Text
queued_warning = codes "Trace retrieval is queued and will begin shortly."

-- What a client asks for.
pub record TraceRequest : Type 0 where
  pub address : Text
  pub direction : Text
  pub limit : ℕ
  pub cursor : Text
  pub max_counterparties : ℕ
  pub ranking : Text
  pub max_depth : ℕ

Enqueued-cases :
    (r : Enqueued)
    → ((e : QueueError) × (r ≡ refused e)) ⊎ ((j : Job) × (u : Table) × (r ≡ accepted j u))
Enqueued-cases (accepted j u) = inr (j, u, refl)
Enqueued-cases (refused e) = inl (e, refl)

module _ {G : Type 0} (decode : Option Text → Option G) (network : Text) where
  decoded : Option G → Reply G
  decoded none = undecodable
  decoded (some g) = graph g

  by_status : Text → Status → Option Text → Reply G
  unfolding decoded
  by_status address succeeded result = decoded (decode result)
  by_status address failed result = pending_graph address retry_warning false
  by_status address running result = pending_graph address progress_warning true
  by_status address queued result = pending_graph address queued_warning true

  -- resultForJob
  unfoldable pub result_for_job : Text → Job → Reply G
  unfolding by_status
  result_for_job address job = by_status address job.status job.result

  -- The key that both handlers build; TraceStatus leaves the client key empty.
  unfoldable pub job_query : TraceRequest → Text → JobQuery
  job_query q client =
      let (counterparties, ranking) = graph_controls q.max_counterparties q.ranking in
      record {
        network = network;
        address = q.address;
        direction = q.direction;
        cursor = q.cursor;
        client_key = client;
        limit = q.limit;
        counterparty_limit = counterparties;
        ranking = ranking;
        max_depth = graph_depth q.max_depth;
      }

  -- TraceGraph with a database: the reply, and the table that it leaves.
  unfoldable pub trace_graph : Table → ℕ → TraceRequest → Bool → Text → ℕ → ℕ → Reply G × Table
  trace_graph t now q retry client max_queued max_per_client =
      elim (enqueue_trace_job t now (job_query q client) retry max_queued max_per_client) [
        | accepted job u ↦ (result_for_job q.address job, u)
        | refused e ↦ (queue_error e, t)
      ]

  -- TraceStatus with a database: it only reads.
  unfoldable pub trace_status : Table → TraceRequest → Reply G
  trace_status t q = elim (trace_job t (job_query q (codes ""))) [
    | none ↦ queue_error job_not_found
    | some job ↦ result_for_job q.address job
  ]

  poll-client :
      (t : Table) (q : TraceRequest) (client : Text)
      → trace_job t (job_query q (codes "")) ≡ trace_job t (job_query q client)
  unfolding job_query
  poll-client t q client = trace_job-client t (job_query q client) (codes "")

  -- A poll right after a trace was accepted gives the trace's own reply, and asking cannot create work.
  pub trace_status-trace_graph :
      (t : Table) (now : ℕ) (q : TraceRequest) (retry : Bool) (client : Text)
      (max_queued max_per_client : ℕ)
      → ((e : QueueError)
          → (trace_graph t now q retry client max_queued max_per_client).0 ≢ queue_error e)
      → trace_status (trace_graph t now q retry client max_queued max_per_client).1 q
        ≡ (trace_graph t now q retry client max_queued max_per_client).0
  unfolding trace_graph trace_status
  trace_status-trace_graph t now q retry client mq mc served =
      elim (Enqueued-cases (enqueue_trace_job t now (job_query q client) retry mq mc)) [
        | inl (e, h) ↦ absurd (served e (rw (trace_graph, h) refl))
        | inr (job, u, h) ↦
            rw
              (
                trace_graph,
                h,
                trace_status,
                poll-client u q client,
                trace_job-enqueue t now (job_query q client) retry mq mc job u h,
              )
              refl
      ]
