-- ===== src/Jobs/Cached.antt =====
-- A finished trace is served unchanged while it is fresh.
use open_chain.Prelude.{
  ℕ, ◌+◌, ◌≤◌, ◌≡◌, ◌⊎◌, refl, ap, ◌∙◌, Bool, true, false, not, some, List, [], ◌∷◌, ◌++◌, Text,
  ltb, arith, tally, inl, inr, if◌then◌else◌, Option-cases, Bool-cases, keep,
}
use open_chain.Jobs.Table.{
  Row, Table, JobQuery, succeeded, find_key, queued_in, running_in, update_where, has_id,
  scan_trace_job, same_key, normalize_trace_job_query, starts_over, trace_result_cache_ttl,
  trace_job_lease, trace_job_retention,
}
use open_chain.Jobs.Enqueue.{refresh, trace_job}
use open_chain.Jobs.Lifecycle.{
  oldest_queued, start, release, lease_expired, running_id, succeed, fail, outlived,
  claim_trace_job, recover_expired_trace_jobs, complete_trace_job, fail_trace_job,
  requeue_trace_job, prune_finished_trace_jobs,
}
use open_chain.Jobs.Steps.{Step}
use open_chain.Jobs.Invariant.{IsConsistent, KeepsKeys}
use open_chain.Jobs.RowMaps.{
  release-KeepsKeys, succeed-KeepsKeys, fail-KeepsKeys, start-KeepsKeys, refresh-KeepsKeys,
}
use open_chain.Jobs.Claimed.{Has, All-Has, one_row, oldest_queued-Has, oldest_queued-queued}
use open_chain.Jobs.Accepted.{accepted_inv}

module _ (q : JobQuery) where
  find_key-Has : (rs : List Row) (r : Row) → find_key q rs ≡ some r → Has r rs
  unfolding find_key
  find_key-Has [] r h = cc
  find_key-Has (s ∷ rs) r h = ground (arith, find_key-Has rs r)

  find_key-any_update :
      (p : Row → Bool) (f : Row → Row) (k : KeepsKeys f) (rs : List Row) (r : Row)
      → find_key q rs ≡ some r
      → find_key q (update_where p f rs) ≡ some (if p r then f r else r)
  unfolding find_key update_where
  find_key-any_update p f k [] r h = cc
  find_key-any_update p f k (s ∷ rs) r h =
      ground (arith, find_key-any_update p f k rs r, ap (same_key q) (k.query s))

  find_key-append_some :
      (rs : List Row) (r x : Row) → find_key q rs ≡ some r → find_key q (rs ++ x ∷ []) ≡ some r
  unfolding find_key
  find_key-append_some [] r x h = cc
  find_key-append_some (s ∷ rs) r x h = ground (arith, find_key-append_some rs r x)

  find_key-keep :
      (p : Row → Bool) (rs : List Row) (r : Row)
      → find_key q rs ≡ some r
      → p r ≡ true
      → find_key q (keep p rs) ≡ some r
  unfolding find_key
  find_key-keep p [] r h k = cc
  find_key-keep p (s ∷ rs) r h k = ground (arith, find_key-keep p rs r)

-- A row whose result is still fresh at the time `now`.
pub record IsFresh (now : ℕ) (r : Row) : Type 0 where
  pub done : r.status ≡ succeeded
  pub completed : ℕ
  pub at : r.completed_at ≡ some completed
  pub young : now ≤ completed + trace_result_cache_ttl

module _ {now : ℕ} {r : Row} (fresh : IsFresh now r) where
  stays-lease_expired : (n : Text) → lease_expired n now r ≡ false
  unfolding lease_expired running_in
  stays-lease_expired n = ground (arith, fresh.done)

  stays-running_id : (id : ℕ) → running_id id r ≡ false
  unfolding running_id
  stays-running_id id = ground (arith, fresh.done)

  stays-queued_in : (n : Text) → queued_in n r ≡ false
  unfolding queued_in
  stays-queued_in n = ground (arith, fresh.done)

  stays-outlived : (n : Text) → outlived n trace_job_retention now r ≡ false
  unfolding outlived
  stays-outlived n = ground (arith, fresh.done, fresh.at, fresh.young)

  scan-refresh : (retry : Bool) → scan_trace_job (refresh retry now r) ≡ scan_trace_job r
  unfolding scan_trace_job refresh starts_over
  scan-refresh retry = ground (arith, fresh.done, fresh.at, fresh.young)

-- What a poll reads, from the row of the normalized query.
reads :
    (u : Table) (q : JobQuery) (r s : Row)
    → find_key (normalize_trace_job_query q) u.rows ≡ some s
    → scan_trace_job s ≡ scan_trace_job r
    → trace_job u q ≡ some (scan_trace_job r)
unfolding trace_job
reads u q r s e k = rw (trace_job, e, k) refl

module _ {now : ℕ} {t : Table} (c : IsConsistent t) (q : JobQuery) {r : Row}
    (fresh : IsFresh now r) where
  -- An update that passes the row by, or leaves what is read of it.
  by_update :
      (p : Row → Bool) (f : Row → Row)
      → KeepsKeys f
      → (next : ℕ) → find_key (normalize_trace_job_query q) t.rows ≡ some r
      → (p r ≡ false) ⊎ (scan_trace_job (f r) ≡ scan_trace_job r)
      → trace_job (record { rows = update_where p f t.rows; next_id = next }) q
        ≡ some (scan_trace_job r)
  by_update p f k next e (inl passed) =
      reads _ q r r (find_key-any_update (normalize_trace_job_query q) p f k t.rows r e ∙ rw passed)
        refl
  by_update p f k next e (inr alike) =
      reads _ q r (if p r then f r else r)
        (find_key-any_update (normalize_trace_job_query q) p f k t.rows r e) (ground (arith, alike))

  -- The row that a claim takes is another one.
  other_row :
      (n : Text) (w : Row)
      → oldest_queued n t.rows ≡ some w
      → find_key (normalize_trace_job_query q) t.rows ≡ some r
      → has_id w.id r ≡ false
  other_row n w o e = elim (Bool-cases (has_id w.id r)) [
    | inl k ↦
        let only = one_row w t.rows c.distinct_ids (oldest_queued-Has n t.rows w o) in
        let it : r ≡ w =
          All-Has (λ s. has_id w.id s ≡ true → s ≡ w) r t.rows only (find_key-Has _ t.rows r e) k in
        absurd (cc (oldest_queued-queued n t.rows w o, stays-queued_in fresh n, it))
    | inr k ↦ k
  ]

  by_claim :
      (n : Text)
      → find_key (normalize_trace_job_query q) t.rows ≡ some r
      → trace_job (claim_trace_job t now n trace_job_lease).1 q ≡ some (scan_trace_job r)
  unfolding claim_trace_job
  by_claim n e = elim (Option-cases (oldest_queued n t.rows)) [
    | inl o ↦ rw (claim_trace_job, o) (reads t q r r e refl)
    | inr (w, o) ↦ elim (Bool-cases (ltb 0 (tally (running_in n) t.rows))) [
      | inl busy ↦ rw (claim_trace_job, o, busy) (reads t q r r e refl)
      | inr free ↦
          let other : has_id w.id r ≡ false = other_row n w o e in
          rw (claim_trace_job, o, free)
            (by_update (has_id w.id) (start now trace_job_lease)
              (start-KeepsKeys now trace_job_lease) t.next_id e (inl other))
    ]
  ]

-- While a succeeded job is at most five minutes old, whatever API servers and workers do next, a poll
-- of its query reads the same job with the same result.
pub cached_result :
    {now : ℕ} {t u : Table} (q : JobQuery) (r : Row)
    → IsConsistent t
    → find_key (normalize_trace_job_query q) t.rows ≡ some r
    → IsFresh now r
    → Step now t u
    → trace_job u q ≡ some (scan_trace_job r)
unfolding recover_expired_trace_jobs complete_trace_job fail_trace_job requeue_trace_job
    prune_finished_trace_jobs
cached_result {now} {t} {u} q r c e fresh (Step.enqueue p retry mq mc {j} h) =
    elim (accepted_inv t now p retry mq mc j u h) [
      | inl i ↦ rw i.table (reads _ q r r (find_key-append_some _ t.rows r _ e) refl)
      | inr (w, i) ↦ rw i.table (
          by_update c q fresh _ (refresh retry now) (refresh-KeepsKeys retry now) _ e
            (inr (scan-refresh fresh retry)))
    ]
cached_result {now} {t} q r c e fresh (Step.recover n) =
    by_update c q fresh (lease_expired n now) (release now) (release-KeepsKeys now) t.next_id e
      (inl (stays-lease_expired fresh n))
cached_result q r c e fresh (Step.claim n) = by_claim c q fresh n e
cached_result {now} {t} q r c e fresh (Step.complete id x) =
    by_update c q fresh (running_id id) (succeed now x) (succeed-KeepsKeys now x) t.next_id e
      (inl (stays-running_id fresh id))
cached_result {now} {t} q r c e fresh (Step.fail id x) =
    by_update c q fresh (running_id id) (fail now x) (fail-KeepsKeys now x) t.next_id e
      (inl (stays-running_id fresh id))
cached_result {now} {t} q r c e fresh (Step.requeue id) =
    by_update c q fresh (running_id id) (release now) (release-KeepsKeys now) t.next_id e
      (inl (stays-running_id fresh id))
cached_result {now} {t} q r c e fresh (Step.prune n) =
    reads _ q r r
      (find_key-keep _ (λ s. not (outlived n trace_job_retention now s)) t.rows r e
        (ground (arith, stays-outlived fresh n)))
      refl
