-- ===== src/Jobs/Claimed.antt =====
-- What ORDER BY created_at LIMIT 1 selects, and how far one id reaches.
use open_chain.Prelude.{
  ℕ, ◌+◌, ◌≤◌, ◌<◌, ◌≡◌, refl, ap, ◌⊎◌, Bool, true, false, none, some, List, [], ◌∷◌, Text, ◌==◌,
  tally, All, All-map, arith, Bool-cases, Option-cases, inl, inr,
}
use native.Mathlib.Nat.{le_trans}
use open_chain.Jobs.Table.{Row, has_id, update_where, queued_in}
use open_chain.Jobs.Lifecycle.{oldest_queued}
use open_chain.Jobs.Invariant.{DistinctIds}
use open_chain.Jobs.Updates.{update_where_none}

-- The row stands in the list.
abbrev pub Has : Row → List Row → Type 0
Has r [] = ⊥
Has r (s ∷ rs) = (s ≡ r) ⊎ Has r rs

pub All-Has : (P : Row → Type 0) (r : Row) (rs : List Row) → All P rs → Has r rs → P r
All-Has P r [] h m = absurd m
All-Has P r (s ∷ rs) (h, hs) (inl e) = rw e at h
All-Has P r (s ∷ rs) (h, hs) (inr m) = All-Has P r rs hs m

pub oldest_queued-Has :
    (n : Text) (rs : List Row) (r : Row) → oldest_queued n rs ≡ some r → Has r rs
unfolding oldest_queued
oldest_queued-Has n [] r h = cc
oldest_queued-Has n (s ∷ rs) r h = ground (arith, oldest_queued-Has n rs r)

pub oldest_queued-queued :
    (n : Text) (rs : List Row) (r : Row) → oldest_queued n rs ≡ some r → queued_in n r ≡ true
unfolding oldest_queued
oldest_queued-queued n [] r h = cc
oldest_queued-queued n (s ∷ rs) r h = ground (arith, oldest_queued-queued n rs r)

oldest_queued-none :
    (n : Text) (rs : List Row) → oldest_queued n rs ≡ none → All (λ s. queued_in n s ≡ false) rs
unfolding oldest_queued
oldest_queued-none n [] h = tt
oldest_queued-none n (s ∷ rs) h = ground (arith, oldest_queued-none n rs)

none_queued :
    (n : Text) (rs : List Row) → All (λ s. queued_in n s ≡ false) rs → tally (queued_in n) rs ≡ 0
none_queued n [] h = refl
none_queued n (s ∷ rs) (h, hs) = rw h (none_queued n rs hs)

-- No queued row of the network was created before the selected one.
pub oldest_queued_first :
    (n : Text) (rs : List Row) (r : Row)
    → oldest_queued n rs ≡ some r
    → All (λ s. queued_in n s ≡ true → r.created_at ≤ s.created_at) rs
unfolding oldest_queued
oldest_queued_first n [] r h = cc
oldest_queued_first n (s ∷ rs) r h = elim (Option-cases (oldest_queued n rs)) [
  | inl e ↦ (
    λ q. ground arith,
    All-map _ _ (λ x f q. absurd (ground (arith, f, q))) rs (oldest_queued-none n rs e),
  )
  | inr (x, e) ↦
      let least : r.created_at ≤ x.created_at = ground arith in
      (
        λ q. ground arith,
        All-map _ _ (λ y g q. le_trans least (g q)) rs (oldest_queued_first n rs x e),
      )
]

-- A network with a queued row has an oldest one.
pub oldest_queued-some :
    (n : Text) (rs : List Row)
    → 0 < tally (queued_in n) rs
    → (r : Row) × (oldest_queued n rs ≡ some r)
oldest_queued-some n rs h = elim (Option-cases (oldest_queued n rs)) [
  | inl e ↦ absurd (omega (arith, none_queued n rs (oldest_queued-none n rs e)))
  | inr found ↦ found
]

-- With distinct ids, an id has one row.
pub one_row :
    (r : Row) (rs : List Row)
    → DistinctIds rs
    → Has r rs
    → All (λ s. has_id r.id s ≡ true → s ≡ r) rs
one_row r [] d m = tt
one_row r (s ∷ rs) (d, ds) (inl e) =
    (λ h. e, All-map _ _ (λ x g h. absurd (ground (arith, ap (λ (y : Row). y.id) e, g, h))) rs d)
one_row r (s ∷ rs) (d, ds) (inr m) = (
  λ h. absurd (ground (arith, All-Has (λ x. has_id s.id x ≡ false) r rs d m, h)),
  one_row r rs ds m,
)

-- An update of one id changes the count of any test by one at most.
pub tally-update_id :
    (q : Row → Bool) (f : Row → Row) (id : ℕ) (rs : List Row)
    → DistinctIds rs
    → tally q (update_where (has_id id) f rs) ≤ tally q rs + 1
unfolding update_where
tally-update_id q f id [] d = omega arith
tally-update_id q f id (s ∷ rs) (d, ds) = elim (Bool-cases (id == s.id)) [
  | inl e ↦
      let none_left : All (λ r. has_id id r ≡ false) rs =
        All-map _ _ (λ x g. ground (arith, e, g)) rs d in
      rw e (ground (arith, ap (tally q) (update_where_none (has_id id) f rs none_left)))
  | inr e ↦ rw e (ground (arith, tally-update_id q f id rs ds))
]
