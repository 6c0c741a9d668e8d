-- ===== src/Jobs/RowMaps.antt =====
-- The row maps of the statements: each keeps ids and keys, fits the columns to the new status, and
-- starts at most one row.
use open_chain.Prelude.{
  ℕ, ◌≤◌, ◌<◌, ◌≡◌, refl, ap, Bool, true, false, Text, same, same_iff, tally, All, arith, All-of,
  All-map,
}
use native.Mathlib.Nat.{le_trans}
use open_chain.Jobs.Table.{starts_over, Row, Table, JobQuery, update_where, running_in, queued_in}
use open_chain.Jobs.Enqueue.{refresh, new_row}
use open_chain.Jobs.Lifecycle.{release, lease_expired, running_id, start, succeed, fail}
use open_chain.Jobs.Invariant.{IsConsistent, KeepsKeys, FitsStatus}
use open_chain.Jobs.Updates.{
  All-update_where, tally-update_where, DistinctIds-update_where, DistinctKeys-update_where,
}

-- An update that keeps the keys, fits the columns to the new status, and starts no row.
module _ (p : Row → Bool) (f : Row → Row) (k : KeepsKeys f) {t : Table} (c : IsConsistent t) where
  -- As above, when one row of one network may start.
  pub parts-IsConsistent :
      All (λ r. p r ≡ true → FitsStatus r → FitsStatus (f r)) t.rows
      → ((n : Text) → tally (running_in n) (update_where p f t.rows) ≤ 1)
      → (next : ℕ) → t.next_id ≤ next
      → IsConsistent (record { rows = update_where p f t.rows; next_id = next })
  parts-IsConsistent fits few next le = record {
    columns = All-update_where p f FitsStatus t.rows fits c.columns;
    ids_below =
        All-update_where p f (λ r. r.id < next) t.rows (All-of _ (λ r _ h. rw (k.id r) h) t.rows)
          (All-map _ _ (λ r h. omega (arith, h)) t.rows c.ids_below);
    distinct_ids = DistinctIds-update_where p f k t.rows c.distinct_ids;
    distinct_keys = DistinctKeys-update_where p f k t.rows c.distinct_keys;
    one_running = few;
  }

  pub on_rows-IsConsistent :
      ((r : Row) → p r ≡ true → FitsStatus r → FitsStatus (f r))
      → ((n : Text) (r : Row) → p r ≡ true → running_in n (f r) ≡ true → running_in n r ≡ true)
      → (next : ℕ) → t.next_id ≤ next
      → IsConsistent (record { rows = update_where p f t.rows; next_id = next })
  on_rows-IsConsistent fits starts_none = parts-IsConsistent (All-of _ fits t.rows) (λ n.
      le_trans (tally-update_where p f (running_in n) t.rows (All-of _ (starts_none n) t.rows))
        (c.one_running n))

pub release-KeepsKeys : (now : ℕ) → KeepsKeys (release now)
unfolding release
release-KeepsKeys now = record { id = λ r. refl; query = λ r. refl }

pub succeed-KeepsKeys : (now : ℕ) (m : Text) → KeepsKeys (succeed now m)
unfolding succeed
succeed-KeepsKeys now m = record { id = λ r. refl; query = λ r. refl }

pub fail-KeepsKeys : (now : ℕ) (m : Text) → KeepsKeys (fail now m)
unfolding fail
fail-KeepsKeys now m = record { id = λ r. refl; query = λ r. refl }

pub start-KeepsKeys : (now lease : ℕ) → KeepsKeys (start now lease)
unfolding start
start-KeepsKeys now lease = record { id = λ r. refl; query = λ r. refl }

pub refresh-KeepsKeys : (retry : Bool) (now : ℕ) → KeepsKeys (refresh retry now)
unfolding refresh
refresh-KeepsKeys retry now = record { id = λ r. refl; query = λ r. refl }

pub running_id-fits-release :
    (now id : ℕ) (r : Row) → running_id id r ≡ true → FitsStatus r → FitsStatus (release now r)
unfolding running_id release
running_id-fits-release now id r h c = ground arith

pub lease_expired-fits-release :
    (n : Text) (now : ℕ) (r : Row)
    → lease_expired n now r ≡ true
    → FitsStatus r
    → FitsStatus (release now r)
unfolding lease_expired running_in release
lease_expired-fits-release n now r h c = ground arith

pub running_id-fits-succeed :
    (now id : ℕ) (m : Text) (r : Row)
    → running_id id r ≡ true
    → FitsStatus r
    → FitsStatus (succeed now m r)
unfolding running_id succeed
running_id-fits-succeed now id m r h c = ground arith

pub running_id-fits-fail :
    (now id : ℕ) (m : Text) (r : Row)
    → running_id id r ≡ true
    → FitsStatus r
    → FitsStatus (fail now m r)
unfolding running_id fail
running_id-fits-fail now id m r h c = ground arith

pub refresh-fits :
    (retry : Bool) (now : ℕ) (r : Row) → FitsStatus r → FitsStatus (refresh retry now r)
unfolding refresh starts_over
refresh-fits retry now r c = ground arith

pub start-fits :
    (n : Text) (now lease : ℕ) (r s : Row)
    → queued_in n r ≡ true
    → s ≡ r
    → FitsStatus s
    → FitsStatus (start now lease s)
unfolding queued_in start
start-fits n now lease r s q e c = ground (arith, ap (λ (x : Row). x.status) e)

-- A released, finished or refreshed row does not run unless it ran before.
pub release-stops : (now : ℕ) (n : Text) (r : Row) → running_in n (release now r) ≡ false
unfolding release running_in
release-stops now n r = ground arith

pub succeed-stops : (now : ℕ) (m n : Text) (r : Row) → running_in n (succeed now m r) ≡ false
unfolding succeed running_in
succeed-stops now m n r = ground arith

pub fail-stops : (now : ℕ) (m n : Text) (r : Row) → running_in n (fail now m r) ≡ false
unfolding fail running_in
fail-stops now m n r = ground arith

pub refresh-starts_none :
    (retry : Bool) (now : ℕ) (n : Text) (r : Row)
    → running_in n (refresh retry now r) ≡ true
    → running_in n r ≡ true
unfolding refresh running_in
refresh-starts_none retry now n r h = ground arith

pub start-starts_in :
    (now lease : ℕ) (m n : Text) (r s : Row)
    → queued_in n r ≡ true
    → same m n ≡ false
    → s ≡ r
    → running_in m (start now lease s) ≡ true
    → running_in m s ≡ true
unfolding start running_in queued_in
start-starts_in now lease m n r s q d e h = absurd (
    ground (
      arith,
      ap (λ (x : Row). x.query.network) e,
      same_iff n r.query.network,
      same_iff m s.query.network,
      same_iff m n,
    ))

pub new_row-stops : (id now : ℕ) (q : JobQuery) (n : Text) → running_in n (new_row id now q) ≡ false
unfolding new_row running_in
new_row-stops id now q n = ground arith
