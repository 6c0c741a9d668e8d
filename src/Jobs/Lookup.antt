-- ===== src/Jobs/Lookup.antt =====
-- A key finds the row that was put or changed under it.
use open_chain.Prelude.{
  ℕ, ◌+◌, ◌≡◌, refl, ap, Bool, true, false, none, some, Text, List, [], ◌∷◌, ◌++◌, arith,
  Bool-cases, inl, inr, tally, All, All-map, if◌then◌else◌,
}
use open_chain.Jobs.Table.{
  Row, Table, JobQuery, Job, same_key, find_key, update_where, scan_trace_job,
  normalize_trace_job_query,
}
use open_chain.Jobs.Enqueue.{accepted, refresh, new_row, enqueue_trace_job, trace_job}
use open_chain.Jobs.Invariant.{KeepsKeys, DistinctKeys, same_key_refl, same_key_congr}
use open_chain.Jobs.Updates.{update_where_none}
use open_chain.Jobs.RowMaps.{refresh-KeepsKeys}
use open_chain.Jobs.Accepted.{accepted_inv}

pub find_key-append :
    (q : JobQuery) (rs : List Row) (x : Row)
    → find_key q rs ≡ none
    → same_key q x.query ≡ true
    → find_key q (rs ++ x ∷ []) ≡ some x
unfolding find_key
find_key-append q [] x e h = rw h
find_key-append q (r ∷ rs) x e h = ground (arith, find_key-append q rs x)

pub find_key-same :
    (q : JobQuery) (rs : List Row) (r : Row) → find_key q rs ≡ some r → same_key q r.query ≡ true
unfolding find_key
find_key-same q [] r h = cc
find_key-same q (s ∷ rs) r h = ground (arith, find_key-same q rs r)

module _ (q : JobQuery) (f : Row → Row) (k : KeepsKeys f) where
  pub find_key-update_where :
      (rs : List Row) (r : Row)
      → find_key q rs ≡ some r
      → find_key q (update_where (λ s. same_key q s.query) f rs) ≡ some (f r)
  unfolding find_key update_where
  find_key-update_where [] r h = cc
  find_key-update_where (s ∷ rs) r h =
      ground (arith, find_key-update_where rs r, ap (same_key q) (k.query s))

  -- With distinct keys the update reaches one row: it adds one to a test that its image alone passes.
  pub tally-update_key :
      (p : Row → Bool) (rs : List Row) (r : Row)
      → DistinctKeys rs
      → find_key q rs ≡ some r
      → p r ≡ false
      → p (f r) ≡ true
      → tally p (update_where (λ s. same_key q s.query) f rs) ≡ tally p rs + 1
  unfolding find_key update_where
  tally-update_key p [] r d h before after = cc
  tally-update_key p (s ∷ rs) r (d, ds) h before after = elim (Bool-cases (same_key q s.query)) [
    | inl e ↦
        let others : All (λ x. same_key q x.query ≡ false) rs =
          All-map _ _ (λ x g. cc (g, same_key_congr q s.query x.query e)) rs d in
        let rest = update_where_none (λ x. same_key q x.query) f rs others in
        rw e (ground (arith, ap (tally p) rest, e))
    | inr e ↦ rw e (ground (arith, tally-update_key p rs r ds, e))
  ]

-- A job that was accepted is the one that a poll of the same query reads, whatever its status.
pub trace_job-enqueue :
    (t : Table) (now : ℕ) (q : JobQuery) (retry : Bool) (max_queued max_per_client : ℕ) (j : Job)
    (u : Table)
    → enqueue_trace_job t now q retry max_queued max_per_client ≡ accepted j u
    → trace_job u q ≡ some j
unfolding trace_job
trace_job-enqueue t now q retry mq mc j u h = elim (accepted_inv t now q retry mq mc j u h) [
  | inl i ↦
      let n = normalize_trace_job_query q in
      rw (
        trace_job,
        i.table,
        i.job,
        find_key-append n t.rows (new_row t.next_id now n) i.fresh
            (unfold new_row in same_key_refl n),
      )
  | inr (r, i) ↦
      let n = normalize_trace_job_query q in
      rw (
        i.table,
        i.job,
        trace_job,
        find_key-update_where n (refresh retry now) (refresh-KeepsKeys retry now) t.rows r i.found,
      )
]

find_key-client :
    (q : JobQuery) (client : Text) (rs : List Row)
    → find_key (record q { client_key = client }) rs ≡ find_key q rs
unfolding find_key same_key
find_key-client q client [] = refl
find_key-client q client (r ∷ rs) =
    ap (λ o. if same_key q r.query then some r else o) (find_key-client q client rs)

-- The client key is no part of a job's key.
pub trace_job-client :
    (t : Table) (q : JobQuery) (client : Text)
    → trace_job t (record q { client_key = client }) ≡ trace_job t q
unfolding trace_job normalize_trace_job_query
trace_job-client t q client =
    ap (λ o. elim o [ some r ↦ some (scan_trace_job r) | none ↦ none ])
      (find_key-client (normalize_trace_job_query q) client t.rows)
