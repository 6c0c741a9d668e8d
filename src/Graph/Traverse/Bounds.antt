-- ===== src/Graph/Traverse/Bounds.antt =====
-- How much one walk over the stored graph visits and keeps.
use open_chain.Prelude.{
  ℕ, zero, suc, ◌+◌, ◌≤◌, ◌<◌, ◌≡◌, Bool, true, false, ◌||◌, some, List, [], ◌∷◌, Text, before, leb,
  if◌then◌else◌, length, arith, Bool-cases, Option-cases, inl, inr,
}
use mathlib.Core.Path.{subst}
use open_chain.Prelude.Sets.{contains}
use open_chain.Prelude.Dict.{values, length-assign, length-values}
use open_chain.Prelude.Sort.{sort, length-sort}
use open_chain.Transfers.{Transfer}
use open_chain.Graph.Controls.{graph_depth, max_graph_traversal_edges, max_graph_traversal_nodes}
use open_chain.Graph.Traverse.{
  Walk, Scope, other_end, keep_transfer, scan_neighbors, selected_ids, walk_level, walk_hops,
  walk_from, by_transfer_id, traverse_stored_graph,
}

module _ (s : Scope) where
  keep_transfer_bounds :
      (c : Text) (w : Walk) (t : Transfer)
      → length w.visited ≤ max_graph_traversal_nodes
      → (length (keep_transfer s c w t).visited ≤ max_graph_traversal_nodes)
        × (length (keep_transfer s c w t).stored ≤ length w.stored + 1)
  unfolding keep_transfer
  keep_transfer_bounds c w t h =
      let grown = length-assign t.id t w.stored in
      elim (Bool-cases (
        contains (other_end s c t) w.visited || leb max_graph_traversal_nodes (length w.visited))) [
          | inl e ↦ rw (e, keep_transfer) (h, grown)
          | inr e ↦ rw (e, keep_transfer) (ground (arith, e), grown)
        ]

  maybe_keep_bounds :
      (b : Bool) (c : Text) (w : Walk) (t : Transfer)
      → length w.visited ≤ max_graph_traversal_nodes
      → (length (if b then keep_transfer s c w t else w).visited ≤ max_graph_traversal_nodes)
        × (length (if b then keep_transfer s c w t else w).stored ≤ length w.stored + 1)
  maybe_keep_bounds true c w t h = keep_transfer_bounds c w t h
  maybe_keep_bounds false c w t h = (h, omega arith)

  scan_neighbors_bounds :
      (c : Text) (ids : List Text) (ts : List Transfer) (w : Walk)
      → length w.visited ≤ max_graph_traversal_nodes
      → (length (scan_neighbors s c ids w ts).visited ≤ max_graph_traversal_nodes)
        × (length (scan_neighbors s c ids w ts).stored ≤ length w.stored + length ts)
  unfolding scan_neighbors
  scan_neighbors_bounds c ids [] w h = (h, omega arith)
  scan_neighbors_bounds c ids (t ∷ ts) w h =
      let (v, k) = maybe_keep_bounds (contains t.id ids) c w t h in
      let (v', k') =
        scan_neighbors_bounds c ids ts (if contains t.id ids then keep_transfer s c w t else w) v in
      (v', omega arith)

  -- The limits of a walk over a database that answers with at most `rows` transfers.
  abbrev pub IsBounded : ℕ → Walk → Type 0
  IsBounded rows w =
      (length w.visited ≤ max_graph_traversal_nodes)
      × (length w.stored < max_graph_traversal_edges + rows)

  module _ (rows : ℕ)
      (few : (c : Text) (ns : List Transfer)
        → s.neighbors c s.direction s.page_size ≡ some ns
        → length ns ≤ rows) where
    walk_level-IsBounded :
        (cs : List Text) (w v : Walk)
        → IsBounded rows w
        → walk_level s w cs ≡ some v
        → IsBounded rows v
    unfolding walk_level
    walk_level-IsBounded [] w v i e = let p : w ≡ v = cc in subst (IsBounded rows) p i
    walk_level-IsBounded (c ∷ cs) w v i e =
        elim (Bool-cases (
          leb max_graph_traversal_edges (length w.stored)
          || leb max_graph_traversal_nodes (length w.visited))) [
            | inl full ↦ let p : w ≡ v = ground (arith, e, full) in subst (IsBounded rows) p i
            | inr more ↦ elim (Option-cases (s.neighbors c s.direction s.page_size)) [
              | inl failed ↦ absurd (ground (arith, e, more, failed))
              | inr (ns, found) ↦
                  let (seen, kept) = scan_neighbors_bounds c (selected_ids s c ns) ns w i.0 in
                  let room : length w.stored < max_graph_traversal_edges = ground (arith, more) in
                  walk_level-IsBounded cs (scan_neighbors s c (selected_ids s c ns) w ns) v
                    (seen, omega (arith, few c ns found)) (ground (arith, e, more, found))
            ]
          ]

    walk_hops-IsBounded :
        (d : ℕ) (frontier : List Text) (w v : Walk)
        → IsBounded rows w
        → walk_hops s d w frontier ≡ some v
        → IsBounded rows v
    unfolding walk_hops
    walk_hops-IsBounded zero frontier w v i e = let p : w ≡ v = cc in subst (IsBounded rows) p i
    walk_hops-IsBounded (suc d) [] w v i e = let p : w ≡ v = cc in subst (IsBounded rows) p i
    walk_hops-IsBounded (suc d) (f ∷ fs) w v i e =
        elim (Bool-cases (leb max_graph_traversal_edges (length w.stored))) [
          | inl full ↦ let p : w ≡ v = ground (arith, e, full) in subst (IsBounded rows) p i
          | inr more ↦ elim (Option-cases (walk_level s (record w { upcoming = [] }) (f ∷ fs))) [
            | inl failed ↦ absurd (ground (arith, e, more, failed))
            | inr (u, walked) ↦
                walk_hops-IsBounded d (sort before u.upcoming) u v
                  (walk_level-IsBounded (f ∷ fs) (record w { upcoming = [] }) u i walked)
                  (ground (arith, e, more, walked))
          ]
        ]

    walk_from-IsBounded :
        (seed : Text) (depth : ℕ) (w : Walk) → walk_from s seed depth ≡ some w → IsBounded rows w
    unfolding walk_from
    walk_from-IsBounded seed depth w e =
        walk_hops-IsBounded depth _ _ w (omega arith, omega arith) e

    -- If the database answers each address with at most `rows` transfers, the walk returns fewer than
    -- `rows` more than 250.
    pub length-traverse_stored_graph :
        (seed : Text) (max_depth : ℕ) (ts : List Transfer)
        → traverse_stored_graph s seed max_depth ≡ some ts
        → length ts < max_graph_traversal_edges + rows
    unfolding traverse_stored_graph
    length-traverse_stored_graph seed max_depth ts e =
        elim (Option-cases (walk_from s seed (graph_depth max_depth))) [
          | inl failed ↦ absurd (ground (arith, e, failed))
          | inr (w, walked) ↦
              let p : sort (by_transfer_id s) (values w.stored) ≡ ts = ground (arith, e, walked) in
              let (seen, kept) = walk_from-IsBounded seed (graph_depth max_depth) w walked in
              rw (← p) (
                omega
                  (arith, length-sort (by_transfer_id s) (values w.stored), length-values w.stored))
        ]
