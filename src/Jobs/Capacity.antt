-- ===== src/Jobs/Capacity.antt =====
-- What the queue limits bound, and what they do not.
use open_chain.Prelude.{
  ℕ, ◌+◌, ◌≤◌, ◌≡◌, refl, ap, ◌∙◌, same_iff, Bool, true, false, none, some, [], ◌∷◌, Text, same,
  same_refl, arith, tally, tally-append, inl, inr,
}
use open_chain.Jobs.Table.{
  Row, Table, JobQuery, Job, failed, find_key, queued_in, client_queued_in,
  normalize_trace_job_query, same_key, starts_over, scan_trace_job, update_where,
}
use open_chain.Jobs.Enqueue.{accepted, refresh, new_row, refresh_job, enqueue_trace_job}
use open_chain.Jobs.Invariant.{IsConsistent, same_key_iff}
use open_chain.Jobs.RowMaps.{refresh-KeepsKeys}
use open_chain.Jobs.Lookup.{tally-update_key, find_key-same}
use open_chain.Jobs.Accepted.{accepted_inv}

new_row-queued_in : (id now : ℕ) (q : JobQuery) → queued_in q.network (new_row id now q) ≡ true
unfolding queued_in new_row
new_row-queued_in id now q = rw (same_refl q.network)

module _ (t : Table) (now : ℕ) (q : JobQuery) (retry : Bool) (max_queued max_per_client : ℕ)
    (j : Job) (u : Table) where
  -- A query that has no row yet is accepted only below both limits, and after it neither its network's
  -- queue nor its client's share of it is over its limit.
  pub enqueue_within_limits :
      find_key (normalize_trace_job_query q) t.rows ≡ none
      → enqueue_trace_job t now q retry max_queued max_per_client ≡ accepted j u
      → (tally (queued_in q.network) u.rows ≤ max_queued)
        × (tally (client_queued_in q.network q.client_key) u.rows ≤ max_per_client)
  enqueue_within_limits fresh h =
      elim (accepted_inv t now q retry max_queued max_per_client j u h) [
        | inl i ↦
            let x = new_row t.next_id now (normalize_trace_job_query q) in
            rw i.table (
              ground (arith, i.room, tally-append (queued_in q.network) t.rows (x ∷ [])),
              ground (
                arith,
                i.client_room,
                tally-append (client_queued_in q.network q.client_key) t.rows (x ∷ []),
              ),
            )
        | inr (r, i) ↦ absurd (cc (i.found, fresh))
      ]

refresh_failed :
    (now : ℕ) (n : Text) (r : Row)
    → r.status ≡ failed
    → (same n r.query.network ≡ true)
    → (queued_in n r ≡ false) × (queued_in n (refresh true now r) ≡ true)
unfolding refresh queued_in starts_over
refresh_failed now n r f s = ground (arith, s, f)

normal_network :
    (q p : JobQuery) → same_key (normalize_trace_job_query q) p ≡ true → q.network ≡ p.network
unfolding normalize_trace_job_query
normal_network q p h = ((same_key_iff (normalize_trace_job_query q) p).0 h).0

-- Retrying a failed job skips both limits: at a full queue it is accepted, and the queue of its
-- network is then one over the limit, whatever the limits are.
pub retry_over_limit :
    (t : Table) (now : ℕ) (q : JobQuery) (max_queued max_per_client : ℕ) (r : Row)
    → IsConsistent t
    → find_key (normalize_trace_job_query q) t.rows ≡ some r
    → r.status ≡ failed
    → tally (queued_in q.network) t.rows ≡ max_queued
    → (j : Job) × (u : Table) × (enqueue_trace_job t now q true max_queued max_per_client
        ≡ accepted j u)
      × (tally (queued_in q.network) u.rows ≡ max_queued + 1)
unfolding enqueue_trace_job refresh_job
retry_over_limit t now q max_queued max_per_client r c found f full =
    let n = normalize_trace_job_query q in
    let here : same q.network r.query.network ≡ true =
      (same_iff _ _).1 (normal_network q r.query (find_key-same n t.rows r found)) in
    let flips = refresh_failed now q.network r f here in
    (
      scan_trace_job (refresh true now r),
      record {
        rows = update_where (λ s. same_key n s.query) (refresh true now) t.rows;
        next_id = t.next_id + 1;
      },
      rw (found, enqueue_trace_job) refl,
      tally-update_key n (refresh true now) (refresh-KeepsKeys true now) (queued_in q.network)
            t.rows r c.distinct_keys found flips.0 flips.1
          ∙ ap (λ m. m + 1) full,
    )
