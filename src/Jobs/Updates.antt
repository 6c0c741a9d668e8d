-- ===== src/Jobs/Updates.antt =====
-- What `UPDATE … WHERE` and `DELETE … WHERE` do to the parts of the invariant, for any row map that
-- leaves ids and queries alone.
use open_chain.Prelude.{
  ◌≤◌, ◌≡◌, refl, Bool, true, false, List, [], ◌∷◌, ◌++◌, keep, tally, All, All-of, All-keep,
  All-append, arith, Bool-cases, inl, inr,
}
use open_chain.Jobs.Table.{Row, same_key, update_where, has_id}
use open_chain.Jobs.Invariant.{KeepsKeys, DistinctIds, DistinctKeys}

module _ (p : Row → Bool) (f : Row → Row) where
  pub All-update_where {ℓ} :
      (P : Row → Type ℓ) (rs : List Row)
      → All (λ r. p r ≡ true → P r → P (f r)) rs
      → All P rs
      → All P (update_where p f rs)
  unfolding update_where
  All-update_where P [] step h = h
  All-update_where P (r ∷ rs) (step, steps) (h, hs) = elim (Bool-cases (p r)) [
    | inl e ↦ rw e (step e h, All-update_where P rs steps hs)
    | inr e ↦ rw e (h, All-update_where P rs steps hs)
  ]

  pub tally-update_where :
      (q : Row → Bool) (rs : List Row)
      → All (λ r. p r ≡ true → q (f r) ≡ true → q r ≡ true) rs
      → tally q (update_where p f rs) ≤ tally q rs
  unfolding update_where
  tally-update_where q [] h = omega arith
  tally-update_where q (r ∷ rs) (h, hs) = ground (arith, tally-update_where q rs hs)

  -- No row passes the test: nothing changes.
  pub update_where_none : (rs : List Row) → All (λ r. p r ≡ false) rs → update_where p f rs ≡ rs
  unfolding update_where
  update_where_none [] h = refl
  update_where_none (r ∷ rs) (h, hs) = rw (h, update_where_none rs hs)

  module _ (k : KeepsKeys f) where
    pub DistinctIds-update_where :
        (rs : List Row) → DistinctIds rs → DistinctIds (update_where p f rs)
    unfolding update_where
    DistinctIds-update_where [] h = h
    DistinctIds-update_where (r ∷ rs) (h, hs) = elim (Bool-cases (p r)) [
      | inl e ↦
          rw (e, k.id r)
            (
              All-update_where (λ s. has_id r.id s ≡ false) rs
                  (All-of _ (λ s _ d. rw (k.id s) d) rs) h,
              DistinctIds-update_where rs hs,
            )
      | inr e ↦ rw e (
        All-update_where (λ s. has_id r.id s ≡ false) rs (All-of _ (λ s _ d. rw (k.id s) d) rs) h,
        DistinctIds-update_where rs hs,
      )
    ]

    pub DistinctKeys-update_where :
        (rs : List Row) → DistinctKeys rs → DistinctKeys (update_where p f rs)
    unfolding update_where
    DistinctKeys-update_where [] h = h
    DistinctKeys-update_where (r ∷ rs) (h, hs) = elim (Bool-cases (p r)) [
      | inl e ↦
          rw (e, k.query r)
            (
              All-update_where (λ s. same_key r.query s.query ≡ false) rs
                  (All-of _ (λ s _ d. rw (k.query s) d) rs) h,
              DistinctKeys-update_where rs hs,
            )
      | inr e ↦ rw e (
        All-update_where (λ s. same_key r.query s.query ≡ false) rs
            (All-of _ (λ s _ d. rw (k.query s) d) rs) h,
        DistinctKeys-update_where rs hs,
      )
    ]

pub tally-keep : (q p : Row → Bool) (rs : List Row) → tally q (keep p rs) ≤ tally q rs
tally-keep q p [] = omega arith
tally-keep q p (r ∷ rs) = ground (arith, tally-keep q p rs)

module _ (p : Row → Bool) where
  pub DistinctIds-keep : (rs : List Row) → DistinctIds rs → DistinctIds (keep p rs)
  DistinctIds-keep [] h = h
  DistinctIds-keep (r ∷ rs) (h, hs) = elim (Bool-cases (p r)) [
    | inl e ↦ rw e (All-keep (λ s. has_id r.id s ≡ false) p rs h, DistinctIds-keep rs hs)
    | inr e ↦ rw e (DistinctIds-keep rs hs)
  ]

  pub DistinctKeys-keep : (rs : List Row) → DistinctKeys rs → DistinctKeys (keep p rs)
  DistinctKeys-keep [] h = h
  DistinctKeys-keep (r ∷ rs) (h, hs) = elim (Bool-cases (p r)) [
    | inl e ↦
        rw e (All-keep (λ s. same_key r.query s.query ≡ false) p rs h, DistinctKeys-keep rs hs)
    | inr e ↦ rw e (DistinctKeys-keep rs hs)
  ]

module _ (x : Row) where
  pub DistinctIds-append :
      (rs : List Row)
      → All (λ r. has_id r.id x ≡ false) rs
      → DistinctIds rs
      → DistinctIds (rs ++ x ∷ [])
  DistinctIds-append [] n h = (tt, tt)
  DistinctIds-append (r ∷ rs) (n, ns) (h, hs) =
      (All-append (λ s. has_id r.id s ≡ false) rs (x ∷ []) h (n, tt), DistinctIds-append rs ns hs)

  pub DistinctKeys-append :
      (rs : List Row)
      → All (λ r. same_key r.query x.query ≡ false) rs
      → DistinctKeys rs
      → DistinctKeys (rs ++ x ∷ [])
  DistinctKeys-append [] n h = (tt, tt)
  DistinctKeys-append (r ∷ rs) (n, ns) (h, hs) = (
    All-append (λ s. same_key r.query s.query ≡ false) rs (x ∷ []) h (n, tt),
    DistinctKeys-append rs ns hs,
  )
