-- ===== src/Graph/Nodes.antt =====
-- Nodes and edges of a trace: graph, graphFromStored, graphFromEdges, node, addAssetVolume and
-- sortedAssetVolumes of internal/tracing/graph.go.
pub mod Counts
pub mod Joins
use open_chain.Prelude.{
  ℕ, suc, ◌+◌, ◌-◌, ◌*◌, ◌/◌, ◌%◌, ◌^◌, Bool, true, false, not, ◌&&◌, ◌||◌, Option, none, some,
  List, [], ◌∷◌, ◌++◌, map, Text, codes, same, before, ◌==◌, if◌then◌else◌, is_empty, length,
}
use open_chain.Prelude.Int.{ℤ, pos, negsuc, pos_part, neg_part, add_ℤ, ltb_ℤ, wrap_u64}
use open_chain.Prelude.Decimal.{itoa}
use open_chain.Prelude.Sets.{contains}
use open_chain.Prelude.Dict.{keys, get_or, assign}
use open_chain.Prelude.Sort.{sort}
use open_chain.Transfers.{Asset, TransferItem, Transfer, set_string}
use open_chain.Source.{SourceStatus, TransferPage}
use open_chain.Graph.Confirmation.{is_provisional}
use open_chain.Graph.Items.{
  asset_key, transfer_id, normalize_address, formatted_amount, short_address,
}

-- LabelItem of internal/labels/service.go, as far as a node reads it.
pub record LabelItem : Type 0 where
  pub label : Text
  pub category : Text

pub record AssetVolume : Type 0 where
  pub asset : Asset
  pub amount_base_units : Text

pub record GraphNode : Type 0 where
  pub id : Text
  pub label : Text
  pub entity_type : Text
  pub is_seed : Bool
  pub in_tx_count : ℕ
  pub out_tx_count : ℕ
  pub total_volume_by_asset : List AssetVolume
  pub labels : List LabelItem

pub record GraphEdge : Type 0 where
  pub id : Text
  pub source : Text
  pub target : Text
  pub amount_base_units : Text
  pub amount_formatted : Text
  pub event_id : Text
  pub transaction_hash : Text
  pub transfer_kind : Text
  pub source_name : Text
  pub block_hash : Text
  pub asset : Asset
  pub tx_count : ℕ
  pub block_number : ℕ
  pub timestamp : ℤ
  pub retrieved_at : ℤ
  pub provisional : Bool

-- (time.Time).Unix; the zero time, which is 0 here, is 62135596800 seconds before 1970.
unfoldable pub unix : ℕ → ℤ
unix t = if t == 0 then negsuc 62_135_596_799 else pos (t / 1_000_000_000)

-- uint32 arithmetic: one more.
unfoldable pub next_u32 : ℕ → ℕ
next_u32 n = (n + 1) % 2 ^ 32

abbrev pub Volumes : Type 0
Volumes = List (Text × List (Text × ℤ))

-- addAssetVolume
unfoldable pub add_asset_volume : Volumes → Text → Text → ℤ → Volumes
add_asset_volume volumes address key amount =
    let held = get_or address [] volumes in
    assign address (assign key (add_ℤ (get_or key (pos 0) held) amount) held) volumes

-- The maps that graphFromEdges fills; nodes are kept without their counts and volumes.
pub record Gathered : Type 0 where
  pub nodes : List (Text × GraphNode)
  pub ins : List (Text × ℕ)
  pub outs : List (Text × ℕ)
  pub volumes : Volumes
  pub assets : List (Text × Asset)

-- (*big.Int).String
unfoldable pub decimal : ℤ → Text
decimal (pos n) = itoa n
decimal (negsuc n) = b'-' ∷ itoa (suc n)

no_asset : Asset
no_asset = record { kind = []; contract_address = []; symbol = []; decimals = 0 }

volume_list : List (Text × Asset) → List (Text × ℤ) → List Text → List AssetVolume
unfolding no_asset
volume_list assets volumes [] = []
volume_list assets volumes (k ∷ ks) =
    record {
      asset = get_or k no_asset assets;
      amount_base_units = decimal (get_or k (pos 0) volumes);
    }
    ∷ volume_list assets volumes ks

-- sortedAssetVolumes
unfoldable pub sorted_asset_volumes : List (Text × ℤ) → List (Text × Asset) → List AssetVolume
unfolding volume_list
sorted_asset_volumes volumes assets = volume_list assets volumes (sort before (keys volumes))

-- What the engine asks others about an address: its labels, none where the registry fails or is nil, and
-- whether it is a contract, where the chain adapter can tell.
pub record Oracle : Type 0 where
  pub network : Text
  pub normalize : Text → Option Text
  pub labels_of : Text → List LabelItem
  pub is_contract : Text → Option Bool

abbrev exchange : Text
exchange = codes "exchange"

-- The seed first, then by id.
unfoldable pub seed_first : GraphNode → GraphNode → Bool
seed_first a b =
    if (a.is_seed && not b.is_seed) || (not a.is_seed && b.is_seed)
    then a.is_seed
    else before a.id b.id

abbrev pub by_edge_id : GraphEdge → GraphEdge → Bool
by_edge_id a b = before a.id b.id

module _ (o : Oracle) where
  label_of : Text → List LabelItem → Text
  label_of address [] = short_address address
  label_of address (l ∷ ls) = l.label

  labelled_type : List LabelItem → Text
  labelled_type [] = codes "UNKNOWN"
  labelled_type (l ∷ ls) = if same l.category exchange then codes "EXCHANGE" else codes "UNKNOWN"

  contract_type : Text → Option Bool → Text
  contract_type t none = t
  contract_type t (some contract) = if contract then codes "CONTRACT" else codes "EOA"

  -- node
  unfoldable pub node : Text → Bool → GraphNode
  unfolding label_of labelled_type contract_type
  node address seed =
      let ls = o.labels_of address in
      record {
        id = address;
        label = label_of address ls;
        entity_type =
            if seed
            then contract_type (labelled_type ls) (o.is_contract address)
            else labelled_type ls;
        is_seed = seed;
        in_tx_count = 0;
        out_tx_count = 0;
        total_volume_by_asset = [];
        labels = ls;
      }

  unfoldable pub add_node : Text → Text → List (Text × GraphNode) → List (Text × GraphNode)
  add_node seed address nodes =
      if contains address (keys nodes)
      then nodes
      else assign address (node address (same address seed)) nodes

  unfoldable pub add_volumes : Gathered → GraphEdge → Text → Text → Option ℤ → Gathered
  add_volumes g e from to none = g
  add_volumes g e from to (some amount) =
      let key = asset_key e.asset in
      record g {
        assets = assign key e.asset g.assets;
        volumes = add_asset_volume (add_asset_volume g.volumes from key amount) to key amount;
      }

  -- The body of the loop over the edges.
  unfoldable pub add_edge : Text → Gathered → GraphEdge → Gathered
  add_edge seed g e =
      let from = normalize_address o.network o.normalize e.source in
      let to = normalize_address o.network o.normalize e.target in
      add_volumes
        (record g {
          nodes = add_node seed to (add_node seed from g.nodes);
          outs = assign from (next_u32 (get_or from 0 g.outs)) g.outs;
          ins = assign to (next_u32 (get_or to 0 g.ins)) g.ins;
        })
        e from to (set_string e.amount_base_units)

  unfoldable pub add_edges : Text → Gathered → List GraphEdge → Gathered
  add_edges seed g [] = g
  add_edges seed g (e ∷ es) = add_edges seed (add_edge seed g e) es

  unfoldable pub begin : Text → Gathered
  begin seed = record {
    nodes = (seed, node seed true) ∷ [];
    ins = [];
    outs = [];
    volumes = [];
    assets = [];
  }

  -- The second loop: a node with its counts and volumes.
  unfoldable pub finish_node : Gathered → Text × GraphNode → GraphNode
  finish_node g (id, n) = record n {
    in_tx_count = get_or id 0 g.ins;
    out_tx_count = get_or id 0 g.outs;
    total_volume_by_asset = sorted_asset_volumes (get_or id [] g.volumes) g.assets;
  }

  -- The nodes and edges of graphFromEdges.
  unfoldable pub graph_from_edges : Text → List GraphEdge → List GraphNode × List GraphEdge
  unfolding finish_node begin
  graph_from_edges address edges =
      let seed = normalize_address o.network o.normalize address in
      let g = add_edges seed (begin seed) edges in
      (sort seed_first (map (finish_node g) g.nodes), sort by_edge_id edges)

  unfoldable pub fresh_edge : TransferPage → TransferItem → GraphEdge
  fresh_edge page t = record {
    id = transfer_id o.network t.hash t.event_id;
    source = normalize_address o.network o.normalize t.from;
    target = normalize_address o.network o.normalize t.to;
    amount_base_units = t.amount_base_units;
    amount_formatted = formatted_amount t.amount_base_units t.asset;
    event_id = t.event_id;
    transaction_hash = t.hash;
    transfer_kind = t.transfer_kind;
    source_name = page.source_status.source;
    block_hash = t.block_hash;
    asset = t.asset;
    tx_count = 1;
    block_number = wrap_u64 t.block_number;
    timestamp = unix t.timestamp;
    retrieved_at = unix page.source_status.retrieved_at;
    provisional = is_provisional o.network t.block_number page.source_status;
  }

  unfoldable pub stored_edge : Transfer → GraphEdge
  stored_edge t = record {
    id = t.id;
    source = normalize_address o.network o.normalize t.from_address;
    target = normalize_address o.network o.normalize t.to_address;
    amount_base_units = t.amount_base_units;
    amount_formatted = formatted_amount t.amount_base_units t.asset;
    event_id = t.event_id;
    transaction_hash = t.transaction_hash;
    transfer_kind = t.transfer_kind;
    source_name = t.source;
    block_hash = t.block_hash;
    asset = t.asset;
    tx_count = 1;
    block_number = wrap_u64 t.block_number;
    timestamp = unix t.block_timestamp;
    retrieved_at = unix t.retrieved_at;
    provisional = t.provisional;
  }

  -- graph
  unfoldable pub graph : Text → List TransferItem → TransferPage → List GraphNode × List GraphEdge
  unfolding fresh_edge
  graph seed ts page = graph_from_edges seed (map (fresh_edge page) ts)

  -- graphFromStored
  unfoldable pub graph_from_stored : Text → List Transfer → List GraphNode × List GraphEdge
  unfolding stored_edge
  graph_from_stored seed ts = graph_from_edges seed (map stored_edge ts)
