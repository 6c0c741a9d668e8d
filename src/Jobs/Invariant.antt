-- ===== src/Jobs/Invariant.antt =====
-- What holds of every reachable table: the columns fit the status, ids and keys are unique, and a
-- network has at most one running row.
use open_chain.Prelude.{
  ℕ, ◌≤◌, ◌<◌, ◌≡◌, ◌≢◌, refl, ◌↔◌, true, false, Option, none, List, [], ◌∷◌, Text, same_iff,
  same_comm, tally, All, arith,
}
use open_chain.Jobs.Table.{
  Table, JobQuery, Row, Status, queued, running, succeeded, failed, same_key, running_in, has_id,
}

-- The nullable columns of a row, by its status: lease, result, error and completion.
abbrev pub Columns : Status → Option ℕ → Option Text → Option Text → Option ℕ → Type 0
Columns queued l r e c = (l ≡ none) × (r ≡ none) × (e ≡ none) × (c ≡ none)
Columns running l r e c = (l ≢ none) × (r ≡ none) × (e ≡ none) × (c ≡ none)
Columns succeeded l r e c = (l ≡ none) × (r ≢ none) × (e ≡ none) × (c ≢ none)
Columns failed l r e c = (l ≡ none) × (r ≡ none) × (e ≢ none) × (c ≢ none)

abbrev pub FitsStatus : Row → Type 0
FitsStatus r = Columns r.status r.lease_expires_at r.result r.error_message r.completed_at

-- No two rows have one id; no two rows have one key.
abbrev pub DistinctIds : List Row → Type 0
DistinctIds [] = Unit
DistinctIds (r ∷ rs) = All (λ s. has_id r.id s ≡ false) rs × DistinctIds rs

abbrev pub DistinctKeys : List Row → Type 0
DistinctKeys [] = Unit
DistinctKeys (r ∷ rs) = All (λ s. same_key r.query s.query ≡ false) rs × DistinctKeys rs

pub record IsConsistent (t : Table) : Type 0 where
  pub columns : All FitsStatus t.rows
  pub ids_below : All (λ r. r.id < t.next_id) t.rows
  pub distinct_ids : DistinctIds t.rows
  pub distinct_keys : DistinctKeys t.rows
  pub one_running : (network : Text) → tally (running_in network) t.rows ≤ 1

pub same_key_iff :
    (p q : JobQuery)
    → (same_key p q ≡ true) ↔ (
        (p.network ≡ q.network)
        × (p.address ≡ q.address)
        × (p.direction ≡ q.direction)
        × (p.cursor ≡ q.cursor)
        × (p.limit ≡ q.limit)
        × (p.counterparty_limit ≡ q.counterparty_limit)
        × (p.ranking ≡ q.ranking)
        × (p.max_depth ≡ q.max_depth))
unfolding same_key
same_key_iff p q = ground (
  arith,
  same_iff p.network q.network,
  same_iff p.address q.address,
  same_iff p.direction q.direction,
  same_iff p.cursor q.cursor,
  same_iff p.ranking q.ranking,
)

pub same_key_refl : (q : JobQuery) → same_key q q ≡ true
same_key_refl q = (same_key_iff q q).1 (refl, refl, refl, refl, refl, refl, refl, refl)

pub same_key_comm : (p q : JobQuery) → same_key p q ≡ same_key q p
unfolding same_key
same_key_comm p q = ground (
  arith,
  same_comm p.network q.network,
  same_comm p.address q.address,
  same_comm p.direction q.direction,
  same_comm p.cursor q.cursor,
  same_comm p.ranking q.ranking,
)

pub same_key_congr : (p q x : JobQuery) → same_key p q ≡ true → same_key p x ≡ same_key q x
unfolding same_key
same_key_congr p q x h =
    let e = (same_key_iff p q).0 h in cc (e.0, e.1, e.2, e.3, e.4, e.5, e.6, e.7)

-- A row map that leaves ids and queries alone.
pub record KeepsKeys (f : Row → Row) : Type 0 where
  pub id : (r : Row) → (f r).id ≡ r.id
  pub query : (r : Row) → (f r).query ≡ r.query
