-- ===== src/Graph/Items.antt =====
-- Transfers on their way through the engine: filterTransfers, storedItems, toTransfers, the ids and keys
-- of internal/tracing/graph.go. The address format of the chain adapter is the argument `normalize`, with
-- `none` for its error, and for no adapter at all.
use open_chain.Prelude.{
  ◌-◌, Bool, true, Option, none, some, List, [], ◌∷◌, ◌++◌, map, Text, codes, same, leb,
  if◌then◌else◌, is_empty, length, take, drop, keep,
}
use open_chain.Prelude.Decimal.{itoa}
use open_chain.Prelude.Int.{ℤ}
use open_chain.Transfers.{Asset, TransferItem, Transfer, set_string}
use open_chain.Source.{SourceStatus, format_amount}
use open_chain.Graph.Controls.{Direction, both, inbound, outbound, other_direction}
use open_chain.Graph.Confirmation.{is_provisional}

abbrev colon : Text
colon = codes ":"

-- assetKey of the engine, with the decimals in it.
unfoldable pub asset_key : Asset → Text
asset_key a =
    a.kind ++ (colon ++ (a.contract_address ++ (colon ++ (a.symbol ++ (colon ++ itoa a.decimals)))))

-- transferID
unfoldable pub transfer_id : Text → Text → Text → Text
transfer_id network hash event_id = network ++ (colon ++ (hash ++ (colon ++ event_id)))

-- The test of filterTransfers.
unfoldable pub goes : Direction → Text → TransferItem → Bool
goes inbound address t = same t.to address
goes outbound address t = same t.from address
goes both address t = true
goes other_direction address t = true

-- filterTransfers
unfoldable pub filter_transfers : List TransferItem → Text → Direction → List TransferItem
unfolding goes
filter_transfers ts address direction = keep (goes direction address) ts

unfoldable pub stored_item : Transfer → TransferItem
stored_item t = record {
  hash = t.transaction_hash;
  event_id = t.event_id;
  transfer_kind = t.transfer_kind;
  from = t.from_address;
  to = t.to_address;
  amount_base_units = t.amount_base_units;
  asset = t.asset;
  block_number = t.block_number;
  block_hash = t.block_hash;
  timestamp = t.block_timestamp;
}

-- storedItems
unfoldable pub stored_items : List Transfer → List TransferItem
unfolding stored_item
stored_items ts = map stored_item ts

-- persistedTransferIDs
unfoldable pub persisted_transfer_ids : List Transfer → List Text
persisted_transfer_ids [] = []
persisted_transfer_ids (t ∷ ts) =
    let rest = persisted_transfer_ids ts in if is_empty t.id then rest else t.id ∷ rest

-- shortAddress
unfoldable pub short_address : Text → Text
short_address address =
    if leb (length address) 10
    then address
    else take 6 address ++ (codes "..." ++ drop (length address - 4) address)

shown : Text → Asset → Option ℤ → Text
shown value asset none = value ++ (codes " " ++ asset.symbol)
shown value asset (some amount) = format_amount (some amount) asset

-- formatAmount
unfoldable pub formatted_amount : Text → Asset → Text
unfolding shown
formatted_amount value asset = shown value asset (set_string value)

module _ (network : Text) (normalize : Text → Option Text) where
  -- normalizeAddress
  unfoldable pub normalize_address : Text → Text
  normalize_address value = elim (normalize value) [ none ↦ value | some a ↦ a ]

  unfoldable pub to_transfer : SourceStatus → TransferItem → Transfer
  unfolding normalize_address
  to_transfer source item = record {
    id = transfer_id network item.hash item.event_id;
    network = network;
    transaction_hash = item.hash;
    event_id = item.event_id;
    transfer_kind = item.transfer_kind;
    from_address = normalize_address item.from;
    to_address = normalize_address item.to;
    asset = item.asset;
    amount_base_units = item.amount_base_units;
    block_number = item.block_number;
    block_hash = item.block_hash;
    block_timestamp = item.timestamp;
    provisional = is_provisional network item.block_number source;
    source = source.source;
    retrieved_at = source.retrieved_at;
  }

  -- toTransfers
  unfoldable pub to_transfers : List TransferItem → SourceStatus → List Transfer
  unfolding to_transfer
  to_transfers items source = map (to_transfer source) items
