-- ===== src/Worker/Run/Settled.antt =====
-- What a round of the worker leaves behind.
use open_chain.Prelude.{
  ℕ, ◌≤◌, ◌≡◌, refl, ap, Bool, true, false, Option, none, some, List, [], ◌∷◌, ◌++◌, Text, codes,
  arith, length, length-take, inl, inr, if◌then◌else◌, Bool-cases,
}
use open_chain.Jobs.Table.{
  Row, Table, Job, queued, succeeded, failed, update_where, has_id, scan_trace_job, trace_job_lease,
}
use open_chain.Jobs.Lifecycle.{
  start, release, succeed, fail, running_id, claim_trace_job, recover_expired_trace_jobs,
  complete_trace_job, fail_trace_job, requeue_trace_job,
}
use open_chain.Jobs.Claimed.{Has}
use open_chain.Jobs.Claiming.{claim_oldest}
use open_chain.Worker.Retry.{Outcome, resolved, provider_failed, context_done, exhausted}
use open_chain.Worker.Run.{
  Round, failure_message, did_not_complete, settle, settle_result, written, settle_claimed,
  run_once, failure_text,
}

Has-update_where :
    (p : Row → Bool) (f : Row → Row) (r : Row) (rs : List Row)
    → Has r rs
    → p r ≡ true
    → Has (f r) (update_where p f rs)
unfolding update_where
Has-update_where p f r [] h k = absurd h
Has-update_where p f r (s ∷ rs) (inl e) k = inl (ground (arith, ap p e, ap f e))
Has-update_where p f r (s ∷ rs) (inr h) k = inr (Has-update_where p f r rs h k)

-- The row that a round leaves of its job, by the outcome.
module _ {A : Type 0} (r : Round A) where
  abbrev AsEncoded : Option Text → Row → Type 0
  AsEncoded (some b) s = (s.status ≡ succeeded) × (s.result ≡ some b)
  AsEncoded none s = (s.status ≡ failed) × (s.error_message ≡ some did_not_complete)

  abbrev AsFailed : Row → Type 0
  AsFailed s = (m : Text) × (s.status ≡ failed) × (s.error_message ≡ some m) × (length m ≤ 500)

  abbrev AsError : Bool → Row → Type 0
  AsError true s = (s.status ≡ queued) × (s.lease_expires_at ≡ none)
  AsError false s = AsFailed s

  abbrev pub Settled : Outcome A → Row → Type 0
  Settled (resolved x) s = AsEncoded (r.encode x) s
  Settled (provider_failed e) s = AsError r.interrupted s
  Settled context_done s = AsError r.interrupted s
  Settled exhausted s = AsError r.interrupted s

length-failure_message : (m : Text) → length (failure_message m) ≤ 500
unfolding failure_message
length-failure_message m = omega (arith, length-take 500 (codes "Trace retrieval failed: " ++ m))

module _ {A : Type 0} (r : Round A) (t : Table) (w : Row) (id : ℕ) (stored : Has w t.rows)
    (runs : running_id id w ≡ true) (wid : w.id ≡ id) (ok : r.write_ok ≡ true) where
  settle_failure :
      (m : Text)
      → (s : Row) × Has s
          (written r t (
            if r.interrupted
            then requeue_trace_job t r.written_at id
            else fail_trace_job t r.written_at id (failure_message m))).rows
        × (s.id ≡ id)
        × AsError r r.interrupted s
  unfolding written requeue_trace_job fail_trace_job
  settle_failure m = elim (Bool-cases r.interrupted) [
    | inl e ↦
        rw (ok, e)
          (
            release r.written_at w,
            Has-update_where (running_id id) (release r.written_at) w t.rows stored runs,
            unfold release in wid,
            unfold release in (refl, refl),
          )
    | inr e ↦
        let f = fail r.written_at (failure_message m) in
        rw (ok, e)
          (
            f w,
            Has-update_where (running_id id) f w t.rows stored runs,
            unfold fail in wid,
            unfold fail in (failure_message m, refl, refl, length-failure_message m),
          )
  ]

  settle_encoded :
      (o : Option Text)
      → (s : Row) × Has s (settle_result r t id o).rows × (s.id ≡ id) × AsEncoded r o s
  unfolding settle_result written complete_trace_job fail_trace_job
  settle_encoded (some b) =
      let f = succeed r.written_at b in
      rw ok (
        f w,
        Has-update_where (running_id id) f w t.rows stored runs,
        unfold succeed in wid,
        unfold succeed in (refl, refl),
      )
  settle_encoded none =
      let f = fail r.written_at did_not_complete in
      rw ok (
        f w,
        Has-update_where (running_id id) f w t.rows stored runs,
        unfold fail in wid,
        unfold fail in (refl, refl),
      )

  settle_row :
      (o : Outcome A) → (s : Row) × Has s (settle r t id o).rows × (s.id ≡ id) × Settled r o s
  unfolding settle
  settle_row (resolved x) = settle_encoded (r.encode x)
  settle_row (provider_failed e) = settle_failure (failure_text r (provider_failed e))
  settle_row context_done = settle_failure (failure_text r context_done)
  settle_row exhausted = settle_failure (failure_text r exhausted)

settle_claimed-some :
    {A : Type 0} (r : Round A) (c : Option Job × Table) (j : Job)
    → c.0 ≡ some j
    → settle_claimed r c ≡ (settle r c.1 j.id r.outcome, true)
unfolding settle_claimed
settle_claimed-some r (none, u) j e = cc
settle_claimed-some r (some k, u) j e =
    let same_job : k ≡ j = cc in ap (λ (x : Job). (settle r u x.id r.outcome, true)) same_job

started_runs :
    (now lease : ℕ) (w : Row)
    → running_id (scan_trace_job (start now lease w)).id (start now lease w) ≡ true
unfolding running_id start scan_trace_job
started_runs now lease w = ground arith

module _ {A : Type 0} (r : Round A) (t : Table) (n : Text) where
  abbrev pub after_recovery : Table
  after_recovery = recover_expired_trace_jobs t r.recovered_at n

  -- A round that claims a job, its database calls working, leaves the job's row settled by the outcome:
  -- succeeded with the encoded result, failed with a message of at most 500 bytes, or queued again with
  -- no lease if the worker was interrupted. It never leaves the row running.
  pub run_once_settles :
      (j : Job)
      → r.recover_ok ≡ true
      → r.claim_ok ≡ true
      → r.write_ok ≡ true
      → (claim_trace_job after_recovery r.claimed_at n trace_job_lease).0 ≡ some j
      → ((run_once r t n).1 ≡ true)
        × ((s : Row) × Has s (run_once r t n).0.rows × (s.id ≡ j.id) × Settled r r.outcome s)
  run_once_settles j ro co wo claimed =
      let c = claim_trace_job after_recovery r.claimed_at n trace_job_lease in
      let done : run_once r t n ≡ (settle r c.1 j.id r.outcome, true) =
        unfold run_once in simp (ro, co) (settle_claimed-some r c j claimed) in
      let (row, claims) = claim_oldest after_recovery r.claimed_at n trace_job_lease j claimed in
      let w = start r.claimed_at trace_job_lease row in
      let stored : Has w c.1.rows = rw claims.table (
        Has-update_where (has_id row.id) (start r.claimed_at trace_job_lease) row
          after_recovery.rows claims.stored (ground arith)) in
      rw done (
        refl,
        settle_row r c.1 w j.id stored
            (rw claims.job (started_runs r.claimed_at trace_job_lease row))
            (rw claims.job (unfold scan_trace_job in refl)) wo r.outcome,
      )
