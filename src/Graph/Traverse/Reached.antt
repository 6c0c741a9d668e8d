-- ===== src/Graph/Traverse/Reached.antt =====
-- Where the walk over the stored graph gets, and what it brings back.
use mathlib.Core.Path.{subst}
use mathlib.Core.List.{Mem}
use open_chain.Prelude.{
  ℕ, zero, suc, ◌+◌, ◌<◌, ◌≡◌, refl, ◌||◌, some, List, [], ◌∷◌, Text, before, leb, length, All,
  All-append, All-map, All-Mem, arith, Bool-cases, Option-cases, inl, inr,
}
use open_chain.Prelude.Sets.{contains}
use open_chain.Prelude.Dict.{values, AllValues, AllValues-assign, All-values}
use open_chain.Prelude.Sort.{sort, All-sort}
use open_chain.Transfers.{Transfer}
use open_chain.Graph.Controls.{graph_depth, max_graph_traversal_edges, max_graph_traversal_nodes}
use open_chain.Graph.Items.{normalize_address}
use open_chain.Graph.Traverse.{
  Walk, Scope, other_end, keep_transfer, scan_neighbors, selected_ids, walk_level, walk_hops,
  walk_from, by_transfer_id, traverse_stored_graph,
}

module _ (s : Scope) (seed : Text) where
  -- The database has the transfer for the address.
  abbrev pub Touches : Text → Transfer → Type 0
  Touches c t = (ns : List Transfer) × (s.neighbors c s.direction s.page_size ≡ some ns) × Mem t ns

  -- An address so many transfers away from the seed.
  pub data Reached : ℕ → Text → Type 0 where
    origin : {a : Text} → a ≡ normalize_address s.network s.normalize seed → Reached 0 a
    onward :
        {n : ℕ} {c a : Text} (t : Transfer)
        → Reached n c
        → Touches c t
        → a ≡ other_end s c t
        → Reached (suc n) a

  -- A transfer that the database has for an address less than `depth` transfers away.
  abbrev pub Observed : ℕ → Transfer → Type 0
  Observed depth t = (n : ℕ) × (c : Text) × (n < depth) × Reached n c × Touches c t

  record Holds (depth n : ℕ) (w : Walk) : Type 0 where
    kept : AllValues (Observed depth) w.stored
    ahead : All (Reached (suc n)) w.upcoming

  module _ (depth n : ℕ) (h : n < depth) where
    keep_transfer-Holds :
        (c : Text) (w : Walk) (t : Transfer)
        → Reached n c
        → Touches c t
        → Holds depth n w
        → Holds depth n (keep_transfer s c w t)
    unfolding keep_transfer
    keep_transfer-Holds c w t r m i =
        let kept' = AllValues-assign (Observed depth) t.id t w.stored (n, c, h, r, m) i.kept in
        elim (Bool-cases (
          contains (other_end s c t) w.visited
          || leb max_graph_traversal_nodes (length w.visited))) [
            | inl e ↦ rw (e, keep_transfer) (record { kept = kept'; ahead = i.ahead })
            | inr e ↦
                rw (e, keep_transfer)
                  (record {
                    kept = kept';
                    ahead =
                        All-append (Reached (suc n)) w.upcoming (other_end s c t ∷ []) i.ahead
                          (onward t r m refl, tt);
                  })
          ]

    scan_neighbors-Holds :
        (c : Text) (ids : List Text) (ts : List Transfer) (w : Walk)
        → Reached n c
        → All (Touches c) ts
        → Holds depth n w
        → Holds depth n (scan_neighbors s c ids w ts)
    unfolding scan_neighbors
    scan_neighbors-Holds c ids [] w r m i = i
    scan_neighbors-Holds c ids (t ∷ ts) w r (m, ms) i = elim (Bool-cases (contains t.id ids)) [
      | inl e ↦ rw e (
          scan_neighbors-Holds c ids ts (keep_transfer s c w t) r ms
            (keep_transfer-Holds c w t r m i))
      | inr e ↦ rw e (scan_neighbors-Holds c ids ts w r ms i)
    ]

    All-Touches :
        (c : Text) (ns : List Transfer)
        → s.neighbors c s.direction s.page_size ≡ some ns
        → All (Touches c) ns
    All-Touches c ns e = All-map (λ t. Mem t ns) (Touches c) (λ t m. (ns, e, m)) ns (All-Mem ns)

    walk_level-Holds :
        (cs : List Text) (w v : Walk)
        → All (Reached n) cs
        → Holds depth n w
        → walk_level s w cs ≡ some v
        → Holds depth n v
    unfolding walk_level
    walk_level-Holds [] w v r i e = subst (Holds depth n) (cc) i
    walk_level-Holds (c ∷ cs) w v (r, rs) i e =
        elim (Bool-cases (
          leb max_graph_traversal_edges (length w.stored)
          || leb max_graph_traversal_nodes (length w.visited))) [
            | inl full ↦ let p : w ≡ v = ground (arith, e, full) in subst (Holds depth n) p i
            | inr more ↦ elim (Option-cases (s.neighbors c s.direction s.page_size)) [
              | inl failed ↦ absurd (ground (arith, e, more, failed))
              | inr (ns, found) ↦
                  walk_level-Holds cs (scan_neighbors s c (selected_ids s c ns) w ns) v rs
                    (scan_neighbors-Holds c (selected_ids s c ns) ns w r (All-Touches c ns found) i)
                    (ground (arith, e, more, found))
            ]
          ]

  walk_hops-Holds :
      (depth d n : ℕ) (w v : Walk) (frontier : List Text)
      → n + d ≡ depth
      → All (Reached n) frontier
      → AllValues (Observed depth) w.stored
      → walk_hops s d w frontier ≡ some v
      → AllValues (Observed depth) v.stored
  unfolding walk_hops
  walk_hops-Holds depth zero n w v frontier p r k e =
      let q : w ≡ v = cc in subst (λ (u : Walk). AllValues (Observed depth) u.stored) q k
  walk_hops-Holds depth (suc d) n w v [] p r k e =
      let q : w ≡ v = cc in subst (λ (u : Walk). AllValues (Observed depth) u.stored) q k
  walk_hops-Holds depth (suc d) n w v (f ∷ fs) p r k e =
      elim (Bool-cases (leb max_graph_traversal_edges (length w.stored))) [
        | inl full ↦
            let q : w ≡ v = ground (arith, e, full) in
            subst (λ (u : Walk). AllValues (Observed depth) u.stored) q k
        | inr more ↦ elim (Option-cases (walk_level s (record w { upcoming = [] }) (f ∷ fs))) [
          | inl failed ↦ absurd (ground (arith, e, more, failed))
          | inr (u, walked) ↦
              let i =
                walk_level-Holds depth n (omega arith) (f ∷ fs) (record w { upcoming = [] }) u r
                  (record { kept = k; ahead = tt }) walked in
              walk_hops-Holds depth d (suc n) u v (sort before u.upcoming) (omega arith)
                (All-sort before (Reached (suc n)) u.upcoming i.ahead) i.kept
                (ground (arith, e, more, walked))
        ]
      ]

  walk_from-Observed :
      (depth : ℕ) (v : Walk) → walk_from s seed depth ≡ some v → AllValues (Observed depth) v.stored
  unfolding walk_from
  walk_from-Observed depth v e =
      walk_hops-Holds depth depth 0 _ v _ (omega arith) (origin refl, tt) tt e

  -- Every transfer that the walk returns is one that the database returned for an address which transfers
  -- of the database connect with the seed, fewer of them than the depth allows.
  pub traverse_stored_graph-Observed :
      (max_depth : ℕ) (ts : List Transfer)
      → traverse_stored_graph s seed max_depth ≡ some ts
      → All (Observed (graph_depth max_depth)) ts
  unfolding traverse_stored_graph
  traverse_stored_graph-Observed max_depth ts e =
      elim (Option-cases (walk_from s seed (graph_depth max_depth))) [
        | inl failed ↦ absurd (ground (arith, e, failed))
        | inr (w, walked) ↦
            let p : sort (by_transfer_id s) (values w.stored) ≡ ts = ground (arith, e, walked) in
            subst (All (Observed (graph_depth max_depth))) p (
              All-sort (by_transfer_id s) (Observed (graph_depth max_depth)) (values w.stored) (
                All-values (Observed (graph_depth max_depth)) w.stored
                  (walk_from-Observed (graph_depth max_depth) w walked)))
      ]
