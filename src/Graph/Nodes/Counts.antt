-- ===== src/Graph/Nodes/Counts.antt =====
-- The counts and the ids of the nodes of graphFromEdges of internal/tracing/graph.go.
use open_chain.Prelude.{
  ℕ, ◌+◌, ◌%◌, ◌^◌, ◌<◌, ◌≡◌, refl, ap, ◌∙◌, sym, true, ◌||◌, Option, none, some, List, [], ◌∷◌,
  map, Text, same, same_iff, same_refl, if◌then◌else◌, tally, All, All-map, arith, Bool-cases, inl,
  inr,
}
use mathlib.Core.Path.{subst, ap₂}
use open_chain.Prelude.Int.{ℤ}
use open_chain.Prelude.Sets.{contains}
use open_chain.Prelude.Dict.{keys, get_or, assign, get_or-assign, contains-assign, All-assign}
use open_chain.Prelude.Sort.{insert, sort, All-sort}
use open_chain.Transfers.{set_string}
use open_chain.Graph.Items.{normalize_address}
use open_chain.Graph.Nodes.{
  GraphNode, GraphEdge, Gathered, Oracle, next_u32, node, add_node, add_volumes, add_edge,
  add_edges, begin, finish_node, seed_first, graph_from_edges,
}

abbrev pub ids_of : List GraphNode → List Text
ids_of = map (λ (n : GraphNode). n.id)

contains-ids_of-insert :
    (k : Text) (x : GraphNode) (ys : List GraphNode)
    → contains k (ids_of (insert seed_first x ys)) ≡ contains k (ids_of (x ∷ ys))
unfolding insert contains
contains-ids_of-insert k x [] = refl
contains-ids_of-insert k x (y ∷ ys) = elim (Bool-cases (seed_first y x)) [
  | inl e ↦ rw (e, insert) (ground (arith, contains-ids_of-insert k x ys))
  | inr e ↦ rw (e, insert) refl
]

contains-ids_of-sort :
    (k : Text) (xs : List GraphNode)
    → contains k (ids_of (sort seed_first xs)) ≡ contains k (ids_of xs)
unfolding sort contains
contains-ids_of-sort k [] = refl
contains-ids_of-sort k (x ∷ xs) =
    contains-ids_of-insert k x (sort seed_first xs) ∙ ground (arith, contains-ids_of-sort k xs)

module _ (o : Oracle) where
  abbrev pub source_of : GraphEdge → Text
  source_of e = normalize_address o.network o.normalize e.source

  abbrev pub target_of : GraphEdge → Text
  target_of e = normalize_address o.network o.normalize e.target

  module _ (seed : Text) where
    add_volumes_keeps :
        (g : Gathered) (e : GraphEdge) (from to : Text) (a : Option ℤ)
        → ((add_volumes o g e from to a).nodes ≡ g.nodes)
          × ((add_volumes o g e from to a).ins ≡ g.ins)
          × ((add_volumes o g e from to a).outs ≡ g.outs)
    unfolding add_volumes
    add_volumes_keeps g e from to none = (refl, refl, refl)
    add_volumes_keeps g e from to (some a) = (refl, refl, refl)

    ins-add_edge :
        (g : Gathered) (e : GraphEdge)
        → (add_edge o seed g e).ins
          ≡ assign (target_of e) (next_u32 (get_or (target_of e) 0 g.ins)) g.ins
    unfolding add_edge
    ins-add_edge g e =
        (add_volumes_keeps _ e (source_of e) (target_of e) (set_string e.amount_base_units)).1

    outs-add_edge :
        (g : Gathered) (e : GraphEdge)
        → (add_edge o seed g e).outs
          ≡ assign (source_of e) (next_u32 (get_or (source_of e) 0 g.outs)) g.outs
    unfolding add_edge
    outs-add_edge g e =
        (add_volumes_keeps _ e (source_of e) (target_of e) (set_string e.amount_base_units)).2

    nodes-add_edge :
        (g : Gathered) (e : GraphEdge)
        → (add_edge o seed g e).nodes
          ≡ add_node o seed (target_of e) (add_node o seed (source_of e) g.nodes)
    unfolding add_edge
    nodes-add_edge g e =
        (add_volumes_keeps _ e (source_of e) (target_of e) (set_string e.amount_base_units)).0

    counted :
        (k j : Text) (d : List (Text × ℕ))
        → get_or k 0 (assign j (next_u32 (get_or j 0 d)) d)
          ≡ (if same k j then next_u32 (get_or k 0 d) else get_or k 0 d)
    counted k j d =
        get_or-assign j k 0 (next_u32 (get_or j 0 d)) d ∙ (elim (Bool-cases (same k j)) [
          | inl e ↦
              let p : k ≡ j = (same_iff k j).0 e in
              ap (λ t. if same k j then next_u32 (get_or t 0 d) else get_or k 0 d) (sym p)
          | inr e ↦ rw e refl
        ])

    ins-add_edges :
        (k : Text) (es : List GraphEdge) (g : Gathered)
        → get_or k 0 g.ins < 2 ^ 32
        → get_or k 0 (add_edges o seed g es).ins
          ≡ (get_or k 0 g.ins + tally (λ e. same k (target_of e)) es) % 2 ^ 32
    unfolding add_edges
    ins-add_edges k [] g h = omega arith
    ins-add_edges k (e ∷ es) g h =
        let step = ap (get_or k 0) (ins-add_edge g e) ∙ counted k (target_of e) g.ins in
        let small : get_or k 0 (add_edge o seed g e).ins < 2 ^ 32 =
          unfold next_u32 in ground (arith, step) in
        ins-add_edges k es (add_edge o seed g e) small ∙ unfold next_u32 in ground (arith, step)

    outs-add_edges :
        (k : Text) (es : List GraphEdge) (g : Gathered)
        → get_or k 0 g.outs < 2 ^ 32
        → get_or k 0 (add_edges o seed g es).outs
          ≡ (get_or k 0 g.outs + tally (λ e. same k (source_of e)) es) % 2 ^ 32
    unfolding add_edges
    outs-add_edges k [] g h = omega arith
    outs-add_edges k (e ∷ es) g h =
        let step = ap (get_or k 0) (outs-add_edge g e) ∙ counted k (source_of e) g.outs in
        let small : get_or k 0 (add_edge o seed g e).outs < 2 ^ 32 =
          unfold next_u32 in ground (arith, step) in
        outs-add_edges k es (add_edge o seed g e) small ∙ unfold next_u32 in ground (arith, step)

    -- Nodes stand under their ids.
    abbrev AreKeyed : List (Text × GraphNode) → Type 0
    AreKeyed = All (λ (e : Text × GraphNode). e.1.id ≡ e.0)

    add_node-AreKeyed :
        (a : Text) (d : List (Text × GraphNode)) → AreKeyed d → AreKeyed (add_node o seed a d)
    unfolding add_node node
    add_node-AreKeyed a d h = elim (Bool-cases (contains a (keys d))) [
      | inl e ↦ rw (e, add_node) h
      | inr e ↦
          rw (e, add_node)
            (All-assign (λ (e : Text × GraphNode). e.1.id ≡ e.0) a (node o a (same a seed)) d refl
              h)
    ]

    add_edges-AreKeyed :
        (es : List GraphEdge) (g : Gathered)
        → AreKeyed g.nodes
        → AreKeyed (add_edges o seed g es).nodes
    unfolding add_edges
    add_edges-AreKeyed [] g h = h
    add_edges-AreKeyed (e ∷ es) g h = add_edges-AreKeyed es (add_edge o seed g e) (
        subst AreKeyed (sym (nodes-add_edge g e)) (
          add_node-AreKeyed (target_of e) (add_node o seed (source_of e) g.nodes)
            (add_node-AreKeyed (source_of e) g.nodes h)))

    contains-add_node :
        (k a : Text) (d : List (Text × GraphNode))
        → contains k (keys (add_node o seed a d)) ≡ same k a || contains k (keys d)
    unfolding add_node
    contains-add_node k a d = elim (Bool-cases (contains a (keys d))) [
      | inl e ↦ rw (e, add_node) (known k a d e)
      | inr e ↦ rw (e, add_node) (contains-assign a k (node o a (same a seed)) d ∙ ground arith)
    ]
      where
        known :
            (k a : Text) (d : List (Text × GraphNode))
            → contains a (keys d) ≡ true
            → contains k (keys d) ≡ same k a || contains k (keys d)
        known k a d e = elim (Bool-cases (same k a)) [
          | inl q ↦
              let p : a ≡ k = sym ((same_iff k a).0 q) in
              let here : contains k (keys d) ≡ true = subst (λ t. contains t (keys d) ≡ true) p e in
              rw (q, here) refl
          | inr q ↦ rw q refl
        ]

    -- Whatever the nodes are, those of an edge stay among them.
    contains-add_edges :
        (k : Text) (es : List GraphEdge) (g : Gathered)
        → contains k (keys g.nodes) ≡ true
        → contains k (keys (add_edges o seed g es).nodes) ≡ true
    unfolding add_edges
    contains-add_edges k [] g h = h
    contains-add_edges k (e ∷ es) g h = contains-add_edges k es (add_edge o seed g e) (
        ap (λ d. contains k (keys d)) (nodes-add_edge g e)
        ∙ contains-add_node k (target_of e) (add_node o seed (source_of e) g.nodes)
        ∙ ground (arith, contains-add_node k (source_of e) g.nodes))

    -- The normal forms of both ends of an edge stand in a list of ids.
    abbrev pub Joins : List Text → GraphEdge → Type 0
    Joins ids e = (contains (source_of e) ids ≡ true) × (contains (target_of e) ids ≡ true)

    add_edges-Joins :
        (es : List GraphEdge) (g : Gathered) → All (Joins (keys (add_edges o seed g es).nodes)) es
    unfolding add_edges
    add_edges-Joins [] g = tt
    add_edges-Joins (e ∷ es) g =
        let ends : Joins (keys (add_edge o seed g e).nodes) e = (
          ap (λ d. contains (source_of e) (keys d)) (nodes-add_edge g e)
              ∙ contains-add_node (source_of e) (target_of e)
                  (add_node o seed (source_of e) g.nodes)
              ∙ ground (
                arith,
                contains-add_node (source_of e) (source_of e) g.nodes,
                same_refl (source_of e),
              ),
          ap (λ d. contains (target_of e) (keys d)) (nodes-add_edge g e)
              ∙ contains-add_node (target_of e) (target_of e)
                  (add_node o seed (source_of e) g.nodes)
              ∙ ground (arith, same_refl (target_of e)),
        ) in
        (
          (
            contains-add_edges (source_of e) es (add_edge o seed g e) ends.0,
            contains-add_edges (target_of e) es (add_edge o seed g e) ends.1,
          ),
          add_edges-Joins es (add_edge o seed g e),
        )

  -- A node counts the edges that come in and go out, in 32 bits.
  abbrev pub Counts : List GraphEdge → GraphNode → Type 0
  Counts es n =
      (n.in_tx_count ≡ tally (λ e. same n.id (target_of e)) es % 2 ^ 32)
      × (n.out_tx_count ≡ tally (λ e. same n.id (source_of e)) es % 2 ^ 32)

  finish_nodes-Counts :
      (seed : Text) (es : List GraphEdge) (d : List (Text × GraphNode))
      → AreKeyed seed d
      → All (Counts es) (map (finish_node o (add_edges o seed (begin o seed) es)) d)
  unfolding finish_node begin
  finish_nodes-Counts seed es [] h = tt
  finish_nodes-Counts seed es ((k, n) ∷ d) (p, h) =
      let g = begin o seed in
      (
        (
          ins-add_edges seed k es g (unfold get_or in omega arith)
              ∙ unfold get_or in rw p (omega arith),
          outs-add_edges seed k es g (unfold get_or in omega arith)
              ∙ unfold get_or in rw p (omega arith),
        ),
        finish_nodes-Counts seed es d h,
      )

  keys-finish_nodes :
      (g : Gathered) (seed : Text) (d : List (Text × GraphNode))
      → AreKeyed seed d
      → map (λ (n : GraphNode). n.id) (map (finish_node o g) d) ≡ keys d
  unfolding finish_node
  keys-finish_nodes g seed [] h = refl
  keys-finish_nodes g seed ((k, n) ∷ d) (p, h) = ap₂ ◌∷◌ p (keys-finish_nodes g seed d h)

  -- Each node of a trace counts, in 32 bits, the edges whose target it is and those whose source it is.
  pub graph_from_edges-Counts :
      (address : Text) (es : List GraphEdge) → All (Counts es) (graph_from_edges o address es).0
  unfolding graph_from_edges begin node
  graph_from_edges-Counts address es =
      let seed = normalize_address o.network o.normalize address in
      All-sort seed_first (Counts es) _ (
        finish_nodes-Counts seed es (add_edges o seed (begin o seed) es).nodes
          (add_edges-AreKeyed seed es (begin o seed) (refl, tt)))

  -- The normal forms of the ends of each edge are ids of the nodes, and so is that of the seed.
  pub graph_from_edges-Joins :
      (address : Text) (es : List GraphEdge)
      → All
          (Joins
            (normalize_address o.network o.normalize address)
            (ids_of (graph_from_edges o address es).0))
          es
        × (contains
              (normalize_address o.network o.normalize address)
              (ids_of (graph_from_edges o address es).0)
            ≡ true)
  unfolding graph_from_edges
  graph_from_edges-Joins address es =
      let seed = normalize_address o.network o.normalize address in
      let g = add_edges o seed (begin o seed) es in
      let keyed = add_edges-AreKeyed seed es (begin o seed) (unfold begin node in (refl, tt)) in
      let ids : (k : Text)
          → contains k (ids_of (sort seed_first (map (finish_node o g) g.nodes)))
            ≡ contains k (keys g.nodes) =
        λ k.
          contains-ids_of-sort k (map (finish_node o g) g.nodes)
          ∙ ap (contains k) (keys-finish_nodes g seed g.nodes keyed) in
      (
        All-map (Joins seed (keys g.nodes))
            (Joins seed (ids_of (sort seed_first (map (finish_node o g) g.nodes))))
            (λ e (a, b). (ids (source_of e) ∙ a, ids (target_of e) ∙ b)) es
            (add_edges-Joins seed es (begin o seed)),
        ids seed
            ∙ contains-add_edges seed seed es (begin o seed)
                (unfold begin contains in ground (arith, same_refl seed)),
      )
