-- ===== src/Jobs/Claiming.antt =====
-- What a claim does: first come, first served, one at a time, and always progress.
use open_chain.Prelude.{
  ℕ, ◌+◌, ◌≤◌, ◌<◌, ◌≡◌, refl, true, some, List, [], ◌∷◌, Text, arith, tally, All, inl, inr,
  Option-cases,
}
use open_chain.Jobs.Table.{
  Row, Table, Job, queued_in, running_in, update_where, has_id, scan_trace_job, older_than,
}
use open_chain.Jobs.Lifecycle.{
  oldest_queued, start, release, lease_expired, claim_trace_job, recover_expired_trace_jobs,
  on_rows,
}
use open_chain.Jobs.Claimed.{
  Has, oldest_queued-Has, oldest_queued_first, oldest_queued-queued, oldest_queued-some,
}

module _ (t : Table) (now : ℕ) (n : Text) (lease : ℕ) where
  -- The row behind a claimed job.
  pub record Claims (j : Job) (r : Row) : Type 0 where
    pub stored : Has r t.rows
    pub waiting : queued_in n r ≡ true
    pub oldest : All (λ s. queued_in n s ≡ true → r.created_at ≤ s.created_at) t.rows
    pub alone : tally (running_in n) t.rows ≡ 0
    pub job : j ≡ scan_trace_job (start now lease r)
    pub table :
        (claim_trace_job t now n lease).1 ≡ on_rows (update_where (has_id r.id) (start now lease)) t

  -- A claim hands out a stored job that waits in the network, none older than it waiting there, when no
  -- job of the network runs, and marks that row alone as running with its lease.
  pub claim_oldest : (j : Job) → (claim_trace_job t now n lease).0 ≡ some j → (r : Row) × Claims j r
  unfolding claim_trace_job
  claim_oldest j h = elim (Option-cases (oldest_queued n t.rows)) [
    | inl e ↦ absurd (ground arith)
    | inr (r, e) ↦ (
      r,
      record {
        stored = oldest_queued-Has n t.rows r e;
        waiting = oldest_queued-queued n t.rows r e;
        oldest = oldest_queued_first n t.rows r e;
        alone = ground arith;
        job = ground arith;
        table = ground arith;
      },
    )
  ]

  pub claim_some :
      tally (running_in n) t.rows ≡ 0
      → 0 < tally (queued_in n) t.rows
      → (j : Job) × ((claim_trace_job t now n lease).0 ≡ some j)
  unfolding claim_trace_job
  claim_some idle waiting =
      let (r, e) = oldest_queued-some n t.rows waiting in
      (scan_trace_job (start now lease r), ground (arith, e, idle))

recovered :
    (now : ℕ) (n : Text) (rs : List Row)
    → All (λ r. running_in n r ≡ true → older_than r.lease_expires_at 0 now ≡ true) rs
    → (tally (running_in n) (update_where (lease_expired n now) (release now) rs) ≡ 0)
      × (tally (queued_in n) (update_where (lease_expired n now) (release now) rs)
          ≡ tally (queued_in n) rs + tally (running_in n) rs)
unfolding update_where lease_expired release running_in queued_in
recovered now n [] h = (refl, refl)
recovered now n (r ∷ rs) (h, hs) = ground (arith, recovered now n rs hs)

-- A crashed worker blocks no network for good: once the lease of whatever runs in the network has
-- expired, recovering and claiming hands out a job whenever one is queued or left running.
pub claim-recover_progress :
    (t : Table) (now : ℕ) (n : Text) (lease : ℕ)
    → All (λ r. running_in n r ≡ true → older_than r.lease_expires_at 0 now ≡ true) t.rows
    → 0 < tally (queued_in n) t.rows + tally (running_in n) t.rows
    → (j : Job) × ((claim_trace_job (recover_expired_trace_jobs t now n) now n lease).0 ≡ some j)
unfolding recover_expired_trace_jobs
claim-recover_progress t now n lease expired some_left =
    let (none_run, all_wait) = recovered now n t.rows expired in
    claim_some (recover_expired_trace_jobs t now n) now n lease none_run (rw all_wait some_left)
