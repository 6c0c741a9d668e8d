-- ===== src/Jobs/Accepted.antt =====
-- The two ways in which EnqueueTraceJob accepts a query.
use open_chain.Prelude.{
  ℕ, ◌+◌, ◌<◌, ◌≡◌, ◌⊎◌, inl, inr, Bool, none, some, [], ◌∷◌, ◌++◌, tally, arith, Option-cases,
}
use open_chain.Jobs.Table.{
  Row, Table, JobQuery, Job, same_key, find_key, update_where, scan_trace_job, queued_in,
  client_queued_in, normalize_trace_job_query,
}
use open_chain.Jobs.Enqueue.{accepted, refresh, new_row, insert_job, refresh_job, enqueue_trace_job}

module _ (t : Table) (now : ℕ) (q : JobQuery) (retry : Bool) (max_queued max_per_client : ℕ)
    (j : Job) (u : Table) where
  -- A row of its own, below both limits.
  pub record Inserted : Type 0 where
    pub fresh : find_key (normalize_trace_job_query q) t.rows ≡ none
    pub room : tally (queued_in q.network) t.rows < max_queued
    pub client_room : tally (client_queued_in q.network q.client_key) t.rows < max_per_client
    pub job : j ≡ scan_trace_job (new_row t.next_id now (normalize_trace_job_query q))
    pub table : u ≡ record {
      rows = t.rows ++ new_row t.next_id now (normalize_trace_job_query q) ∷ [];
      next_id = t.next_id + 1;
    }

  -- The row that holds the key, refreshed.
  pub record Refreshed (r : Row) : Type 0 where
    pub found : find_key (normalize_trace_job_query q) t.rows ≡ some r
    pub job : j ≡ scan_trace_job (refresh retry now r)
    pub table : u ≡ record {
      rows =
          update_where
            (λ s. same_key (normalize_trace_job_query q) s.query)
            (refresh retry now)
            t.rows;
      next_id = t.next_id + 1;
    }

  pub accepted_inv :
      enqueue_trace_job t now q retry max_queued max_per_client ≡ accepted j u
      → Inserted ⊎ ((r : Row) × Refreshed r)
  unfolding enqueue_trace_job insert_job refresh_job normalize_trace_job_query
  accepted_inv h = elim (Option-cases (find_key (normalize_trace_job_query q) t.rows)) [
    | inl e ↦ inl (record {
      fresh = e;
      room = ground arith;
      client_room = ground arith;
      job = ground arith;
      table = ground arith;
    })
    | inr (r, e) ↦ inr (r, record { found = e; job = ground arith; table = ground arith })
  ]
