-- ===== src/Graph/Nodes/Joins.antt =====
-- The ends of the edges of graph and graphFromStored of internal/tracing/graph.go.
use mathlib.Core.Path.{subst}
use open_chain.Prelude.{
  ◌≡◌, true, some, List, [], ◌∷◌, map, Text, All, arith, Option-cases, inl, inr,
}
use open_chain.Prelude.Sets.{contains}
use open_chain.Prelude.Sort.{All-sort}
use open_chain.Transfers.{Transfer, TransferItem}
use open_chain.Source.{TransferPage}
use open_chain.Graph.Items.{normalize_address}
use open_chain.Graph.Nodes.{
  GraphNode, GraphEdge, Oracle, by_edge_id, fresh_edge, stored_edge, graph_from_edges, graph,
  graph_from_stored,
}
use open_chain.Graph.Nodes.Counts.{ids_of, Joins, graph_from_edges-Joins}

-- An edge whose source and target, as they stand in it, are ids of the nodes.
abbrev HasEnds : List GraphNode → GraphEdge → Type 0
HasEnds ns e = (contains e.source (ids_of ns) ≡ true) × (contains e.target (ids_of ns) ≡ true)

-- Each edge has both its nodes, and the seed has one.
abbrev pub IsJoined : Text → List GraphNode × List GraphEdge → Type 0
IsJoined seed g = All (HasEnds g.0) g.1 × (contains seed (ids_of g.0) ≡ true)

module _ (o : Oracle) where
  -- A normal form is its own normal form.
  abbrev pub IsIdempotent : Type 0
  IsIdempotent = (value a : Text) → o.normalize value ≡ some a → o.normalize a ≡ some a

  -- Both ends of an edge are in normal form.
  abbrev IsNormal : GraphEdge → Type 0
  IsNormal e =
      (normalize_address o.network o.normalize e.source ≡ e.source)
      × (normalize_address o.network o.normalize e.target ≡ e.target)

  HasEnds-of :
      (seed : Text) (ns : List GraphNode) (es : List GraphEdge)
      → All IsNormal es
      → All (Joins o seed (ids_of ns)) es
      → All (HasEnds ns) es
  HasEnds-of seed ns [] h j = tt
  HasEnds-of seed ns (e ∷ es) ((p, q), h) ((a, b), j) = (
    (
      subst (λ t. contains t (ids_of ns) ≡ true) p a,
      subst (λ t. contains t (ids_of ns) ≡ true) q b,
    ),
    HasEnds-of seed ns es h j,
  )

  -- Edges in normal form have both their nodes.
  graph_from_edges-IsJoined :
      (address : Text) (es : List GraphEdge)
      → All IsNormal es
      → IsJoined (normalize_address o.network o.normalize address) (graph_from_edges o address es)
  graph_from_edges-IsJoined address es normal =
      let seed = normalize_address o.network o.normalize address in
      let ns = (graph_from_edges o address es).0 in
      let (joins, seeded) = graph_from_edges-Joins o address es in
      (
        unfold graph_from_edges in
            All-sort by_edge_id (HasEnds ns) es (HasEnds-of seed ns es normal joins),
        seeded,
      )

  module _ (idempotent : IsIdempotent) where
    normalize_address_idem :
        (v : Text)
        → normalize_address o.network o.normalize (normalize_address o.network o.normalize v)
          ≡ normalize_address o.network o.normalize v
    unfolding normalize_address
    normalize_address_idem v = elim (Option-cases (o.normalize v)) [
      | inl e ↦ ground (arith, e)
      | inr (a, e) ↦ ground (arith, e, idempotent v a e)
    ]

    fresh_edges-IsNormal :
        (page : TransferPage) (ts : List TransferItem) → All IsNormal (map (fresh_edge o page) ts)
    unfolding fresh_edge
    fresh_edges-IsNormal page [] = tt
    fresh_edges-IsNormal page (t ∷ ts) =
        ((normalize_address_idem t.from, normalize_address_idem t.to), fresh_edges-IsNormal page ts)

    stored_edges-IsNormal : (ts : List Transfer) → All IsNormal (map (stored_edge o) ts)
    unfolding stored_edge
    stored_edges-IsNormal [] = tt
    stored_edges-IsNormal (t ∷ ts) = (
      (normalize_address_idem t.from_address, normalize_address_idem t.to_address),
      stored_edges-IsNormal ts,
    )

    -- With a normalizer that leaves its own results alone, the source and the target of each edge of a
    -- trace, fresh or stored, are ids of its nodes, and so is the normalized seed.
    pub graph-IsJoined :
        (address : Text) (ts : List TransferItem) (page : TransferPage) (stored : List Transfer)
        → IsJoined (normalize_address o.network o.normalize address) (graph o address ts page)
          × IsJoined
              (normalize_address o.network o.normalize address)
              (graph_from_stored o address stored)
    unfolding graph graph_from_stored
    graph-IsJoined address ts page stored = (
      graph_from_edges-IsJoined address (map (fresh_edge o page) ts) (fresh_edges-IsNormal page ts),
      graph_from_edges-IsJoined address (map (stored_edge o) stored) (stored_edges-IsNormal stored),
    )
