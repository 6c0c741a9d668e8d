-- ===== src/Worker/Run.antt =====
-- runOnce and pruneFinished: one round of the worker of a network. Which database calls fail, what the
-- engine's retries come to, and the clock are a `Round`.
pub mod Settled
use open_chain.Prelude.{
  ℕ, ◌+◌, ◌*◌, ◌-◌, Bool, true, false, not, Option, none, some, Text, codes, ◌++◌, if◌then◌else◌,
  take, ltb,
}
use open_chain.Provider.{FetchError}
use open_chain.Jobs.Table.{Table, Job, second, trace_job_lease, trace_job_retention}
use open_chain.Jobs.Lifecycle.{
  recover_expired_trace_jobs, claim_trace_job, complete_trace_job, fail_trace_job,
  requeue_trace_job, prune_finished_trace_jobs,
}
use open_chain.Worker.Retry.{Outcome, resolved, provider_failed, context_done, exhausted}

pub record Round {ℓ} (A : Type ℓ) : Type ℓ where
  pub recover_ok : Bool
  pub claim_ok : Bool
  pub write_ok : Bool
  -- What resolveWithRetry returns for the claimed job, and ctx.Err() if the context ended it.
  pub outcome : Outcome A
  pub context_error : Text
  -- err.Error() of the engine's error: the text of the cause within the texts that wrap it with %w.
  pub message_of : FetchError → Text
  -- errors.Is(jobContext.Err(), context.Canceled)
  pub interrupted : Bool
  -- json.Marshal, in the normal form in which the jsonb column gives the text back.
  pub encode : A → Option Text
  pub recovered_at : ℕ
  pub claimed_at : ℕ
  pub written_at : ℕ

-- The text of the error that resolveWithRetry returns.
failure_text : {A : Type 0} → Round A → Outcome A → Text
failure_text r (provider_failed e) = r.message_of e
failure_text r context_done = r.context_error
failure_text r exhausted = codes "trace provider retry attempts exhausted"
failure_text r (resolved x) = codes ""

abbrev pub did_not_complete : Text
did_not_complete = codes "Trace retrieval did not complete. Search again to retry."

-- The message that is stored, cut at 500 bytes.
unfoldable pub failure_message : Text → Text
failure_message m = take 500 (codes "Trace retrieval failed: " ++ m)

module _ {A : Type 0} (r : Round A) where
  -- The write of a round whose database call may fail.
  written : Table → Table → Table
  written t u = if r.write_ok then u else t

  settle_result : Table → ℕ → Option Text → Table
  settle_result t id (some encoded) = written t (complete_trace_job t r.written_at id encoded)
  settle_result t id none = written t (fail_trace_job t r.written_at id did_not_complete)

  -- What runOnce writes about the job that it claimed.
  unfoldable pub settle : Table → ℕ → Outcome A → Table
  unfolding settle_result written failure_text
  settle t id (resolved x) = settle_result t id (r.encode x)
  settle t id o = written t (
      if r.interrupted
      then requeue_trace_job t r.written_at id
      else fail_trace_job t r.written_at id (failure_message (failure_text r o)))

  -- The rounds that got no job end with `false`.
  settle_claimed : Option Job × Table → Table × Bool
  settle_claimed (none, t) = (t, false)
  settle_claimed (some j, t) = (settle t j.id r.outcome, true)

  -- runOnce
  unfoldable pub run_once : Table → Text → Table × Bool
  unfolding settle_claimed
  run_once t network =
      if not r.recover_ok
      then (t, false)
      else (let recovered = recover_expired_trace_jobs t r.recovered_at network in
          if not r.claim_ok
          then (recovered, false)
          else settle_claimed (claim_trace_job recovered r.claimed_at network trace_job_lease))

abbrev pub trace_job_prune_interval : ℕ
trace_job_prune_interval = 5 * 60 * second

-- pruneFinished: at most every five minutes; the time of the last try comes back with the table.
unfoldable pub prune_finished : Table → Text → ℕ → ℕ → Bool → Table × ℕ
prune_finished t network now last_pruned_at prune_ok =
    if ltb (now - last_pruned_at) trace_job_prune_interval
    then (t, last_pruned_at)
    else (if prune_ok then prune_finished_trace_jobs t now network trace_job_retention else t, now)
