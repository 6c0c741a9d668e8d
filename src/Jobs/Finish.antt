-- ===== src/Jobs/Finish.antt =====
-- The outcome of a job, CompleteTraceJob, FailTraceJob and RequeueTraceJob of internal/db/jobs.go,
-- among the transactions that follow it.
use open_chain.Prelude.{
  ℕ, ◌≡◌, Bool, true, false, not, Option, none, some, List, [], ◌∷◌, Text, ltb, ◌==◌, tally, arith,
  All, All-keep, All-append, All-of, ap, ◌⊎◌, inl, inr, Bool-cases, Option-cases,
}
use open_chain.Jobs.Table.{
  Row, Table, JobQuery, Job, update_where, has_id, running_in, trace_job_lease, trace_job_retention,
  scan_trace_job, same_key, normalize_trace_job_query,
}
use open_chain.Jobs.Enqueue.{accepted, refresh, new_row, enqueue_trace_job}
use open_chain.Jobs.Lifecycle.{
  running_id, succeed, fail, release, start, lease_expired, outlived, oldest_queued,
  recover_expired_trace_jobs, claim_trace_job, complete_trace_job, fail_trace_job,
  requeue_trace_job, prune_finished_trace_jobs,
}
use open_chain.Jobs.Steps.{Step}
use open_chain.Jobs.Updates.{All-update_where, update_where_none}
use open_chain.Jobs.Accepted.{accepted_inv}

-- A claim gave the job of an id.
abbrev pub is_job : ℕ → Option Job → Bool
is_job id none = false
is_job id (some j) = id == j.id

-- Only a claim hands out a job, and it hands out the one that it gives.
abbrev pub hands_out : {now : ℕ} → {t u : Table} → ℕ → Step now t u → Bool
hands_out {now} {t} id (Step.claim n) = is_job id (claim_trace_job t now n trace_job_lease).0
hands_out id (Step.enqueue q retry mq mc h) = false
hands_out id (Step.recover n) = false
hands_out id (Step.complete i x) = false
hands_out id (Step.fail i x) = false
hands_out id (Step.requeue i) = false
hands_out id (Step.prune n) = false

-- Transactions, none of which hands out the job of an id.
pub data Unclaimed (id : ℕ) (t : Table) : Table → Type 0 where
  same : Unclaimed id t t
  step :
      {u v : Table} (now : ℕ)
      → Unclaimed id t u
      → (s : Step now u v) → hands_out id s ≡ false
      → Unclaimed id t v

-- No row of the id runs.
abbrev IsIdle : ℕ → Table → Type 0
IsIdle id t = All (λ r. running_id id r ≡ false) t.rows

-- What a statement writes on a row does not run, unless it ran before or a claim hands it out.
module _ (id now : ℕ) where
  succeed-stops : (x : Text) (r : Row) → running_id id (succeed now x r) ≡ false
  unfolding running_id succeed
  succeed-stops x r = ground arith

  fail-stops : (x : Text) (r : Row) → running_id id (fail now x r) ≡ false
  unfolding running_id fail
  fail-stops x r = ground arith

  release-stops : (r : Row) → running_id id (release now r) ≡ false
  unfolding running_id release
  release-stops r = ground arith

  new_row-stops : (n : ℕ) (q : JobQuery) → running_id id (new_row n now q) ≡ false
  unfolding running_id new_row
  new_row-stops n q = ground arith

  refresh-stops :
      (retry : Bool) (r : Row)
      → running_id id r ≡ false
      → running_id id (refresh retry now r) ≡ false
  unfolding running_id refresh
  refresh-stops retry r h = ground arith

  start-stops :
      (lease n : ℕ) (r : Row)
      → has_id n r ≡ true
      → (id == n) ≡ false
      → running_id id (start now lease r) ≡ false
  unfolding running_id start
  start-stops lease n r h d = ground arith

-- The rows that run are all replaced by rows that do not.
stopped :
    (id : ℕ) (f : Row → Row)
    → ((r : Row) → running_id id (f r) ≡ false)
    → (rs : List Row) → All (λ r. running_id id r ≡ false) (update_where (running_id id) f rs)
unfolding update_where
stopped id f stops [] = tt
stopped id f stops (r ∷ rs) = elim (Bool-cases (running_id id r)) [
  | inl e ↦ rw e (stops r, stopped id f stops rs)
  | inr e ↦ rw e (e, stopped id f stops rs)
]

module _ (t : Table) (id now : ℕ) (idle : IsIdle id t) where
  -- A statement whose image never runs keeps the id idle, whichever rows it takes.
  update-IsIdle :
      (p : Row → Bool) (f : Row → Row)
      → ((r : Row) → running_id id (f r) ≡ false)
      → All (λ r. running_id id r ≡ false) (update_where p f t.rows)
  update-IsIdle p f stops =
      All-update_where p f (λ r. running_id id r ≡ false) t.rows
        (All-of _ (λ r _ _. stops r) t.rows) idle

  complete-IsIdle : (i : ℕ) (x : Text) → IsIdle id (complete_trace_job t now i x)
  unfolding complete_trace_job
  complete-IsIdle i x = update-IsIdle (running_id i) (succeed now x) (succeed-stops id now x)

  fail-IsIdle : (i : ℕ) (x : Text) → IsIdle id (fail_trace_job t now i x)
  unfolding fail_trace_job
  fail-IsIdle i x = update-IsIdle (running_id i) (fail now x) (fail-stops id now x)

  requeue-IsIdle : (i : ℕ) → IsIdle id (requeue_trace_job t now i)
  unfolding requeue_trace_job
  requeue-IsIdle i = update-IsIdle (running_id i) (release now) (release-stops id now)

  recover-IsIdle : (n : Text) → IsIdle id (recover_expired_trace_jobs t now n)
  unfolding recover_expired_trace_jobs
  recover-IsIdle n = update-IsIdle (lease_expired n now) (release now) (release-stops id now)

  prune-IsIdle : (n : Text) → IsIdle id (prune_finished_trace_jobs t now n trace_job_retention)
  unfolding prune_finished_trace_jobs
  prune-IsIdle n =
      All-keep (λ r. running_id id r ≡ false) (λ r. not (outlived n trace_job_retention now r))
        t.rows idle

  enqueue-IsIdle :
      (q : JobQuery) (retry : Bool) (max_queued max_per_client : ℕ) (j : Job) (u : Table)
      → enqueue_trace_job t now q retry max_queued max_per_client ≡ accepted j u
      → IsIdle id u
  enqueue-IsIdle q retry mq mc j u h =
      let m = normalize_trace_job_query q in
      elim (accepted_inv t now q retry mq mc j u h) [
        | inl i ↦ rw i.table (
            All-append (λ r. running_id id r ≡ false) t.rows (new_row t.next_id now m ∷ []) idle
              (new_row-stops id now t.next_id m, tt))
        | inr (r, i) ↦ rw i.table (
            All-update_where (λ s. same_key m s.query) (refresh retry now)
              (λ r. running_id id r ≡ false) t.rows
              (All-of _ (λ s _ k. refresh-stops id now retry s k) t.rows) idle)
      ]

  claim-IsIdle :
      (n : Text)
      → is_job id (claim_trace_job t now n trace_job_lease).0 ≡ false
      → IsIdle id (claim_trace_job t now n trace_job_lease).1
  unfolding claim_trace_job scan_trace_job start
  claim-IsIdle n h = elim (Option-cases (oldest_queued n t.rows)) [
    | inl e ↦ rw (e, claim_trace_job) idle
    | inr (r, e) ↦ elim (Bool-cases (ltb 0 (tally (running_in n) t.rows))) [
      | inl busy ↦ rw (e, busy, claim_trace_job) idle
      | inr few ↦
          let other : (id == r.id) ≡ false = ground (arith, h, e, few) in
          rw (e, few, claim_trace_job)
            (All-update_where (has_id r.id) (start now trace_job_lease)
              (λ s. running_id id s ≡ false) t.rows
              (All-of _ (λ s own _. start-stops id now trace_job_lease r.id s own other) t.rows)
              idle)
    ]
  ]

  -- Without a running row of the id, its outcome changes nothing.
  idle_unchanged :
      (x m : Text)
      → (complete_trace_job t now id x ≡ t)
        × (fail_trace_job t now id m ≡ t)
        × (requeue_trace_job t now id ≡ t)
  unfolding complete_trace_job fail_trace_job requeue_trace_job
  idle_unchanged x m = (
    ap (λ rs. record t { rows = rs })
        (update_where_none (running_id id) (succeed now x) t.rows idle),
    ap (λ rs. record t { rows = rs }) (update_where_none (running_id id) (fail now m) t.rows idle),
    ap (λ rs. record t { rows = rs }) (update_where_none (running_id id) (release now) t.rows idle),
  )

-- Every transaction but a claim that hands out the job keeps it idle.
step-IsIdle :
    {now : ℕ} {t u : Table} (id : ℕ) (s : Step now t u)
    → hands_out id s ≡ false
    → IsIdle id t
    → IsIdle id u
step-IsIdle {now} {t} id (Step.enqueue q retry mq mc {j} {u} h) c idle =
    enqueue-IsIdle t id now idle q retry mq mc j u h
step-IsIdle {now} {t} id (Step.recover n) c idle = recover-IsIdle t id now idle n
step-IsIdle {now} {t} id (Step.claim n) c idle = claim-IsIdle t id now idle n c
step-IsIdle {now} {t} id (Step.complete i x) c idle = complete-IsIdle t id now idle i x
step-IsIdle {now} {t} id (Step.fail i x) c idle = fail-IsIdle t id now idle i x
step-IsIdle {now} {t} id (Step.requeue i) c idle = requeue-IsIdle t id now idle i
step-IsIdle {now} {t} id (Step.prune n) c idle = prune-IsIdle t id now idle n

Unclaimed-IsIdle : (id : ℕ) {t u : Table} → Unclaimed id t u → IsIdle id t → IsIdle id u
Unclaimed-IsIdle id same idle = idle
Unclaimed-IsIdle id (step now path s c) idle = step-IsIdle id s c (Unclaimed-IsIdle id path idle)

-- What a worker does with the job it ran: it is completed, failed or requeued.
abbrev pub Ends : ℕ → Table → ℕ → Text → Text → Table → Type 0
Ends id t now result message u =
    (u ≡ complete_trace_job t now id result)
    ⊎ ((u ≡ fail_trace_job t now id message) ⊎ (u ≡ requeue_trace_job t now id))

-- After any of the three, no row of the id runs, whichever ran before.
Ends-IsIdle :
    (id : ℕ) (t : Table) (now : ℕ) (result message : Text) (u : Table)
    → Ends id t now result message u
    → IsIdle id u
unfolding complete_trace_job fail_trace_job requeue_trace_job
Ends-IsIdle id t now x m u (inl e) =
    rw e (stopped id (succeed now x) (succeed-stops id now x) t.rows)
Ends-IsIdle id t now x m u (inr (inl e)) =
    rw e (stopped id (fail now m) (fail-stops id now m) t.rows)
Ends-IsIdle id t now x m u (inr (inr e)) =
    rw e (stopped id (release now) (release-stops id now) t.rows)

-- Once a job was completed, failed or requeued, and whatever transactions follow that do not hand it
-- out again, a later completion, failure or requeue of its id changes nothing.
pub finish_once :
    (id : ℕ) (t : Table) (now : ℕ) (result message : Text) (u v : Table)
    → Ends id t now result message u
    → Unclaimed id u v
    → (later : ℕ) (next_result next_message : Text)
    → (complete_trace_job v later id next_result ≡ v)
      × (fail_trace_job v later id next_message ≡ v)
      × (requeue_trace_job v later id ≡ v)
finish_once id t now x m u v ends path later y n =
    idle_unchanged v id later (Unclaimed-IsIdle id path (Ends-IsIdle id t now x m u ends)) y n
