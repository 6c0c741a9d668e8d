-- ===== src/Rules/Window.antt =====
-- firstDistinctWindow of apps/backend/internal/rules/detect.go.
pub mod Decides
use open_chain.Prelude.{
  ℕ, suc, ◌-◌, Bool, true, false, Option, none, some, List, [], ◌∷◌, ◌++◌, Text, same, ltb, leb,
  if◌then◌else◌, length,
}
use open_chain.Prelude.Sets.{contains}
use open_chain.Transfers.{Transfer}

-- The other side of a transfer.
unfoldable pub counterpart_of : Bool → Transfer → Text
counterpart_of inbound t = if inbound then t.from_address else t.to_address

-- seen[k] = struct{}{}
unfoldable pub see : Text → List Text → List Text
unfolding contains
see k seen = if contains k seen then seen else k ∷ seen

module _ (inbound : Bool) (minimum duration : ℕ) where
  -- The inner loop from `start` on: the transfers taken with the current one, and how many distinct
  -- counterparts they have, as soon as there are enough.
  unfoldable pub window_from : ℕ → List Text → List Transfer → Option (List Transfer × ℕ)
  window_from start seen [] = none
  window_from start seen (x ∷ xs) =
      let seen' = see (counterpart_of inbound x) seen in
      let rest = window_from start seen' xs in
      if ltb duration (x.block_timestamp - start)
      then none
      else if leb minimum (length seen')
      then some (x ∷ [], length seen')
      else elim rest [ none ↦ none | some (w, n) ↦ some (x ∷ w, n) ]

  -- The outer loop; `none` is the nil slice of the source.
  unfoldable pub first_distinct_window : List Transfer → Option (List Transfer × ℕ)
  unfolding window_from
  first_distinct_window [] = none
  first_distinct_window (x ∷ xs) =
      let rest = first_distinct_window xs in
      elim (window_from x.block_timestamp [] (x ∷ xs)) [ none ↦ rest | some r ↦ some r ]
