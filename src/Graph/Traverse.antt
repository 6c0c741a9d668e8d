-- ===== src/Graph/Traverse.antt =====
-- traverseStoredGraph of internal/tracing/graph.go: a breadth-first walk over stored transfers. The
-- database's GraphNeighbors is the argument `neighbors`, with `none` for its error.
pub mod Reached
pub mod Bounds
use open_chain.Prelude.{
  ℕ, zero, suc, ◌+◌, Bool, true, false, not, ◌&&◌, ◌||◌, Option, none, some, List, [], ◌∷◌, ◌++◌,
  map, Text, before, leb, if◌then◌else◌, equal_fold, length,
}
use open_chain.Prelude.Sets.{contains}
use open_chain.Prelude.Dict.{values, assign}
use open_chain.Prelude.Sort.{sort}
use open_chain.Transfers.{TransferItem, Transfer}
use open_chain.Graph.Controls.{
  Direction, graph_depth, max_graph_traversal_edges, max_graph_traversal_nodes,
}
use open_chain.Graph.Items.{normalize_address, transfer_id, stored_items, filter_transfers}
use open_chain.Graph.Select.{select_counterparty_transfers_with_known, known_counterparties}

-- The addresses seen, the transfers kept by id, and the next frontier.
pub record Walk : Type 0 where
  pub visited : List Text
  pub stored : List (Text × Transfer)
  pub upcoming : List Text

-- What the engine holds and what one trace asks for.
pub record Scope : Type 0 where
  pub network : Text
  pub normalize : Text → Option Text
  pub registry : Option (Text → Bool)
  pub neighbors : Text → Direction → ℕ → Option (List Transfer)
  pub direction : Direction
  pub page_size : ℕ
  pub max_counterparties : ℕ
  pub ranking : Text

module _ (s : Scope) where
  -- The address at the other end of a transfer, seen from `current`.
  unfoldable pub other_end : Text → Transfer → Text
  other_end current t =
      normalize_address s.network s.normalize
        (if equal_fold t.to_address current then t.from_address else t.to_address)

  unfoldable pub keep_transfer : Text → Walk → Transfer → Walk
  keep_transfer current w t =
      let n = other_end current t in
      let stored' = assign t.id t w.stored in
      if contains n w.visited || leb max_graph_traversal_nodes (length w.visited)
      then record w { stored = stored' }
      else record { visited = n ∷ w.visited; stored = stored'; upcoming = w.upcoming ++ n ∷ [] }

  -- The innermost loop, over the neighbors of an address.
  unfoldable pub scan_neighbors : Text → List Text → Walk → List Transfer → Walk
  scan_neighbors current ids w [] = w
  scan_neighbors current ids w (t ∷ ts) =
      scan_neighbors current ids (if contains t.id ids then keep_transfer current w t else w) ts

  -- The ids of the transfers that are selected for an address.
  unfoldable pub selected_ids : Text → List Transfer → List Text
  selected_ids current ns =
      let items = filter_transfers (stored_items ns) current s.direction in
      map (λ (t : TransferItem). transfer_id s.network t.hash t.event_id)
        (select_counterparty_transfers_with_known items current s.max_counterparties s.ranking
          (known_counterparties s.registry items current s.ranking))

  -- The loop over the frontier.
  unfoldable pub walk_level : Walk → List Text → Option Walk
  walk_level w [] = some w
  walk_level w (current ∷ rest) =
      if leb max_graph_traversal_edges (length w.stored)
        || leb max_graph_traversal_nodes (length w.visited)
      then some w
      else elim (s.neighbors current s.direction s.page_size) [
        | none ↦ none
        | some ns ↦ walk_level (scan_neighbors current (selected_ids current ns) w ns) rest
      ]

  -- The loop over the hops that are left.
  unfoldable pub walk_hops : ℕ → Walk → List Text → Option Walk
  walk_hops zero w frontier = some w
  walk_hops (suc d) w [] = some w
  walk_hops (suc d) w (f ∷ fs) =
      if leb max_graph_traversal_edges (length w.stored)
      then some w
      else elim (walk_level (record w { upcoming = [] }) (f ∷ fs)) [
        | none ↦ none
        | some v ↦ walk_hops d v (sort before v.upcoming)
      ]

  abbrev pub by_transfer_id : Transfer → Transfer → Bool
  by_transfer_id a b = before a.id b.id

  unfoldable pub walk_from : Text → ℕ → Option Walk
  walk_from seed depth =
      let start = normalize_address s.network s.normalize seed in
      walk_hops depth (record { visited = start ∷ []; stored = []; upcoming = [] }) (start ∷ [])

  -- traverseStoredGraph, where there is a database.
  unfoldable pub traverse_stored_graph : Text → ℕ → Option (List Transfer)
  unfolding walk_from
  traverse_stored_graph seed max_depth = elim (walk_from seed (graph_depth max_depth)) [
    | none ↦ none
    | some w ↦ some (sort by_transfer_id (values w.stored))
  ]
