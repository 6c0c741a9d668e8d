-- ===== src/Bridge/Transition.antt =====
-- The record of one bridge transfer: Transition and Lifecycle of internal/bridge/bridge.go.
use open_chain.Prelude.{ℕ, Bool, List, Text}
use open_chain.Transfers.{Asset}

pub data Lifecycle : Type 0 where
  initiated relayed finalized failed unresolved : Lifecycle

pub record Transition : Type 0 where
  pub id : Text
  pub protocol : Text
  pub bridge_name : Text
  pub source_network : Text
  pub destination_network : Text
  pub lifecycle : Lifecycle
  pub message_id : Text
  pub source_transfer_id : Text
  pub destination_transfer_id : Text
  pub source_transaction_hash : Text
  pub destination_transaction_hash : Text
  pub source_log_reference : Text
  pub destination_log_reference : Text
  pub source_bridge_address : Text
  pub destination_bridge_address : Text
  pub canonical_source_token : Text
  pub canonical_destination_token : Text
  pub recipient : Text
  pub amount_base_units : Text
  pub limitations : Text
  pub asset : Asset
  pub source_block_number : ℕ
  pub destination_block_number : ℕ
  pub source_block_hash : Text
  pub destination_block_hash : Text
  pub source_timestamp : ℕ
  pub destination_timestamp : ℕ
  pub source_confirmed : Bool
  pub destination_confirmed : Bool
  pub source_acquisition_hashes : List Text
  pub destination_acquisition_hashes : List Text
  pub source_acquisition_ids : List ℕ
  pub destination_acquisition_ids : List ℕ
