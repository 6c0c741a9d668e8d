-- ===== src/Jobs/Reachable.antt =====
-- Every reachable job table is consistent.
use native.Mathlib.Nat.{le_trans, le_refl}
use open_chain.Prelude.{
  ℕ, ◌+◌, ◌<◌, ◌≡◌, refl, Bool, false, not, none, some, List, [], ◌∷◌, ◌++◌, Text, same, same_iff,
  ltb, tally, All, All-map, All-keep, All-append, tally-append, arith, Bool-cases, Option-cases,
  inl, inr,
}
use open_chain.Jobs.Accepted.{accepted_inv}
use open_chain.Jobs.Claimed.{oldest_queued-Has, oldest_queued-queued, one_row, tally-update_id}
use open_chain.Jobs.Table.{
  trace_job_lease, trace_job_retention, Row, Table, JobQuery, Job, same_key, find_key, update_where,
  has_id, running_in, normalize_trace_job_query,
}
use open_chain.Jobs.Enqueue.{accepted, refresh, new_row, enqueue_trace_job}
use open_chain.Jobs.Lifecycle.{
  release, lease_expired, running_id, recover_expired_trace_jobs, claim_trace_job,
  complete_trace_job, fail_trace_job, requeue_trace_job, prune_finished_trace_jobs, oldest_queued,
  on_rows, start, succeed, fail, outlived,
}
use open_chain.Jobs.Steps.{Step, Reach}
use open_chain.Jobs.Invariant.{IsConsistent, FitsStatus, same_key_comm}
use open_chain.Jobs.Updates.{
  tally-keep, tally-update_where, DistinctIds-keep, DistinctKeys-keep, DistinctIds-append,
  DistinctKeys-append,
}
use open_chain.Jobs.RowMaps.{
  new_row-stops, parts-IsConsistent, on_rows-IsConsistent, release-KeepsKeys, succeed-KeepsKeys,
  fail-KeepsKeys, start-KeepsKeys, refresh-KeepsKeys, running_id-fits-release,
  lease_expired-fits-release, running_id-fits-succeed, running_id-fits-fail, refresh-fits,
  start-fits, release-stops, succeed-stops, fail-stops, refresh-starts_none, start-starts_in,
}

pub find_key-none :
    (q : JobQuery) (rs : List Row) → find_key q rs ≡ none → All (λ r. same_key q r.query ≡ false) rs
unfolding find_key
find_key-none q [] h = tt
find_key-none q (r ∷ rs) h = ground (arith, find_key-none q rs)

module _ {t : Table} (c : IsConsistent t) (now : ℕ) where
  recover-IsConsistent : (n : Text) → IsConsistent (recover_expired_trace_jobs t now n)
  unfolding recover_expired_trace_jobs
  recover-IsConsistent n =
      on_rows-IsConsistent (lease_expired n now) (release now) (release-KeepsKeys now) c
        (lease_expired-fits-release n now) (λ m r h k. cc (release-stops now m r)) t.next_id
        (le_refl _)

  requeue-IsConsistent : (id : ℕ) → IsConsistent (requeue_trace_job t now id)
  unfolding requeue_trace_job
  requeue-IsConsistent id =
      on_rows-IsConsistent (running_id id) (release now) (release-KeepsKeys now) c
        (running_id-fits-release now id) (λ m r h k. cc (release-stops now m r)) t.next_id
        (le_refl _)

  complete-IsConsistent :
      (id : ℕ) (result : Text) → IsConsistent (complete_trace_job t now id result)
  unfolding complete_trace_job
  complete-IsConsistent id x =
      on_rows-IsConsistent (running_id id) (succeed now x) (succeed-KeepsKeys now x) c
        (running_id-fits-succeed now id x) (λ m r h k. cc (succeed-stops now x m r)) t.next_id
        (le_refl _)

  fail-IsConsistent : (id : ℕ) (message : Text) → IsConsistent (fail_trace_job t now id message)
  unfolding fail_trace_job
  fail-IsConsistent id x =
      on_rows-IsConsistent (running_id id) (fail now x) (fail-KeepsKeys now x) c
        (running_id-fits-fail now id x) (λ m r h k. cc (fail-stops now x m r)) t.next_id (le_refl _)

  prune-IsConsistent :
      (n : Text) (retention : ℕ) → IsConsistent (prune_finished_trace_jobs t now n retention)
  unfolding prune_finished_trace_jobs
  prune-IsConsistent n retention =
      let p : Row → Bool = λ r. not (outlived n retention now r) in
      record {
        columns = All-keep FitsStatus p t.rows c.columns;
        ids_below = All-keep (λ r. r.id < t.next_id) p t.rows c.ids_below;
        distinct_ids = DistinctIds-keep p t.rows c.distinct_ids;
        distinct_keys = DistinctKeys-keep p t.rows c.distinct_keys;
        one_running = λ m. le_trans (tally-keep (running_in m) p t.rows) (c.one_running m);
      }

  insert-IsConsistent :
      (q : JobQuery)
      → find_key q t.rows ≡ none
      → IsConsistent
          (record { rows = t.rows ++ new_row t.next_id now q ∷ []; next_id = t.next_id + 1 })
  unfolding new_row
  insert-IsConsistent q e =
      let x = new_row t.next_id now q in
      record {
        columns = All-append FitsStatus t.rows (x ∷ []) c.columns ((refl, refl, refl, refl), tt);
        ids_below =
            All-append (λ r. r.id < t.next_id + 1) t.rows (x ∷ [])
              (All-map _ _ (λ r h. omega (arith, h)) t.rows c.ids_below) (omega arith, tt);
        distinct_ids =
            DistinctIds-append x t.rows (All-map _ _ (λ r h. ground (arith, h)) t.rows c.ids_below)
              c.distinct_ids;
        distinct_keys =
            DistinctKeys-append x t.rows
              (All-map _ _ (λ r h. cc (h, same_key_comm q r.query)) t.rows
                (find_key-none q t.rows e))
              c.distinct_keys;
        one_running = λ m.
            rw (tally-append (running_in m) t.rows (x ∷ []), new_row-stops t.next_id now q m)
              (omega (arith, c.one_running m));
      }

  refresh-IsConsistent :
      (q : JobQuery) (retry : Bool)
      → IsConsistent (record {
        rows = update_where (λ s. same_key q s.query) (refresh retry now) t.rows;
        next_id = t.next_id + 1;
      })
  refresh-IsConsistent q retry =
      on_rows-IsConsistent (λ s. same_key q s.query) (refresh retry now)
        (refresh-KeepsKeys retry now) c (λ r _ h. refresh-fits retry now r h)
        (λ m r _ h. refresh-starts_none retry now m r h) (t.next_id + 1) (omega arith)

  started-IsConsistent :
      (n : Text) (lease : ℕ) (r : Row)
      → oldest_queued n t.rows ≡ some r
      → tally (running_in n) t.rows ≡ 0
      → IsConsistent (on_rows (update_where (has_id r.id) (start now lease)) t)
  started-IsConsistent n lease r e idle =
      let only = one_row r t.rows c.distinct_ids (oldest_queued-Has n t.rows r e) in
      let waiting = oldest_queued-queued n t.rows r e in
      parts-IsConsistent (has_id r.id) (start now lease) (start-KeepsKeys now lease) c
        (All-map _ _ (λ s o h f. start-fits n now lease r s waiting (o h) f) t.rows only)
        (λ m. elim (Bool-cases (same m n)) [
          | inl k ↦ rw ((same_iff m n).0 k) (
              le_trans (tally-update_id (running_in n) (start now lease) r.id t.rows c.distinct_ids)
                (omega (arith, idle)))
          | inr k ↦
              le_trans
                (tally-update_where (has_id r.id) (start now lease) (running_in m) t.rows (
                  All-map _ _ (λ s o h g. start-starts_in now lease m n r s waiting k (o h) g)
                    t.rows only))
                (c.one_running m)
        ])
        t.next_id (le_refl _)

  claim-IsConsistent : (n : Text) (lease : ℕ) → IsConsistent (claim_trace_job t now n lease).1
  unfolding claim_trace_job
  claim-IsConsistent n lease = elim (Option-cases (oldest_queued n t.rows)) [
    | inl e ↦ rw (e, claim_trace_job) c
    | inr (r, e) ↦ elim (Bool-cases (ltb 0 (tally (running_in n) t.rows))) [
      | inl busy ↦ rw (e, busy, claim_trace_job) c
      | inr idle ↦ rw (e, idle, claim_trace_job) (started-IsConsistent n lease r e (ground arith))
    ]
  ]

  enqueue-IsConsistent :
      (q : JobQuery) (retry : Bool) (max_queued max_per_client : ℕ) (j : Job) (u : Table)
      → enqueue_trace_job t now q retry max_queued max_per_client ≡ accepted j u
      → IsConsistent u
  enqueue-IsConsistent q retry mq mc j u h = elim (accepted_inv t now q retry mq mc j u h) [
    | inl i ↦ rw i.table (insert-IsConsistent (normalize_trace_job_query q) i.fresh)
    | inr (r, i) ↦ rw i.table (refresh-IsConsistent (normalize_trace_job_query q) retry)
  ]

-- Every transaction of an API server or a worker keeps the table consistent.
pub step-IsConsistent : {now : ℕ} {t u : Table} → Step now t u → IsConsistent t → IsConsistent u
step-IsConsistent {now} (Step.enqueue q retry mq mc {j} {u} h) c =
    enqueue-IsConsistent c now q retry mq mc j u h
step-IsConsistent {now} (Step.recover n) c = recover-IsConsistent c now n
step-IsConsistent {now} (Step.claim n) c = claim-IsConsistent c now n trace_job_lease
step-IsConsistent {now} (Step.complete id result) c = complete-IsConsistent c now id result
step-IsConsistent {now} (Step.fail id message) c = fail-IsConsistent c now id message
step-IsConsistent {now} (Step.requeue id) c = requeue-IsConsistent c now id
step-IsConsistent {now} (Step.prune n) c = prune-IsConsistent c now n trace_job_retention

-- Every table reached from the empty one is consistent: the nullable columns of each row are those of
-- its status, ids and keys are unique, and no network has two running jobs.
pub Reach-IsConsistent : {t : Table} → Reach t → IsConsistent t
Reach-IsConsistent Reach.start = record {
  columns = tt;
  ids_below = tt;
  distinct_ids = tt;
  distinct_keys = tt;
  one_running = λ n. omega arith;
}
Reach-IsConsistent (Reach.next now r s) = step-IsConsistent s (Reach-IsConsistent r)
