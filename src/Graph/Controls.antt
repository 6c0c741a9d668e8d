-- ===== src/Graph/Controls.antt =====
-- The bounds on what one trace may ask for: the constants, graphControls and graphDepth of
-- apps/backend/internal/tracing/graph.go.
use mathlib.Core.Path.{ap₂}
use open_chain.Prelude.{
  ℕ, ◌≤◌, ◌≡◌, refl, ◌⊎◌, inl, inr, Bool, Text, codes, same, same_iff, ltb, ◌==◌, if◌then◌else◌,
  arith, ◌||◌, Bool-cases,
}

abbrev pub max_page_size : ℕ
max_page_size = 50

abbrev pub default_counterparty_limit : ℕ
default_counterparty_limit = 10

abbrev pub max_counterparty_limit : ℕ
max_counterparty_limit = 25

abbrev pub default_graph_depth : ℕ
default_graph_depth = 1

abbrev pub max_graph_depth : ℕ
max_graph_depth = 3

abbrev pub max_graph_traversal_nodes : ℕ
max_graph_traversal_nodes = 100

abbrev pub max_graph_traversal_edges : ℕ
max_graph_traversal_edges = 250

-- type Direction and type Ranking are strings in the source; a value that is none of these is `other`.
pub data Direction : Type 0 where
  both inbound outbound other_direction : Direction

abbrev pub most_recent : Text
most_recent = codes "most_recent"

abbrev pub total_raw_amount : Text
total_raw_amount = codes "total_raw_amount"

abbrev pub most_active : Text
most_active = codes "most_active"

abbrev pub known_entity : Text
known_entity = codes "known_entity"

unfoldable pub page_limit : ℕ → ℕ
page_limit limit = if limit == 0 || ltb max_page_size limit then max_page_size else limit

unfoldable pub counterparty_control : ℕ → ℕ
counterparty_control n =
    let n = if n == 0 then default_counterparty_limit else n in
    if ltb max_counterparty_limit n then max_counterparty_limit else n

-- The cases of the switch on the ranking.
is_ranking : Text → Bool
is_ranking r =
    same r total_raw_amount || (same r most_active || (same r most_recent || same r known_entity))

unfoldable pub ranking_control : Text → Text
unfolding is_ranking
ranking_control r = if is_ranking r then r else most_recent

-- graphControls
unfoldable pub graph_controls : ℕ → Text → ℕ × Text
unfolding counterparty_control ranking_control
graph_controls n r = (counterparty_control n, ranking_control r)

-- graphDepth
unfoldable pub graph_depth : ℕ → ℕ
graph_depth depth =
    if depth == 0
    then default_graph_depth
    else if ltb max_graph_depth depth
    then max_graph_depth
    else depth

abbrev pub IsRanking : Text → Type 0
IsRanking r = (r ≡ most_recent) ⊎ (r ≡ total_raw_amount) ⊎ (r ≡ most_active) ⊎ (r ≡ known_entity)

pub ranking_control-IsRanking : (r : Text) → IsRanking (ranking_control r)
unfolding ranking_control
ranking_control-IsRanking r = ground (
  arith,
  same_iff r total_raw_amount,
  same_iff r most_active,
  same_iff r most_recent,
  same_iff r known_entity,
)

-- Whatever a client sends, a trace asks for 1 to 25 counterparties under one of the four rankings, for
-- depth 1 to 3 and for 1 to 50 transfers a page.
pub controls_bounds :
    (n depth limit : ℕ) (r : Text)
    → (1 ≤ (graph_controls n r).0)
      × ((graph_controls n r).0 ≤ max_counterparty_limit)
      × IsRanking (graph_controls n r).1
      × (1 ≤ graph_depth depth)
      × (graph_depth depth ≤ max_graph_depth)
      × (1 ≤ page_limit limit)
      × (page_limit limit ≤ max_page_size)
unfolding graph_controls graph_depth page_limit
controls_bounds n depth limit r = (
  ground arith,
  ground arith,
  ranking_control-IsRanking r,
  ground arith,
  ground arith,
  ground arith,
  ground arith,
)

ranking_idem : (r : Text) → ranking_control (ranking_control r) ≡ ranking_control r
unfolding ranking_control same
ranking_idem r = elim (Bool-cases (is_ranking r)) [ inl e ↦ rw (e, e) refl | inr e ↦ rw e refl ]

counterparty_idem : (n : ℕ) → counterparty_control (counterparty_control n) ≡ counterparty_control n
unfolding counterparty_control
counterparty_idem n = ground arith

-- Applying the controls again changes nothing.
pub controls_idem :
    (n depth : ℕ) (r : Text)
    → (graph_controls (graph_controls n r).0 (graph_controls n r).1 ≡ graph_controls n r)
      × (graph_depth (graph_depth depth) ≡ graph_depth depth)
unfolding graph_controls graph_depth
controls_idem n depth r = (ap₂ (λ m s. (m, s)) (counterparty_idem n) (ranking_idem r), ground arith)
