-- ===== src/Bridge/Events.antt =====
-- The events of a standard bridge and its routes: internal/bridge/bridge.go. Keccak-256 of a signature, in
-- hexadecimal, is the argument `keccak`.
pub mod Routes
use open_chain.Prelude.{
  ℕ, ◌-◌, Bool, true, false, not, ◌&&◌, ◌||◌, Option, none, some, List, [], ◌∷◌, Text, codes, same,
  ltb, leb, ◌==◌, if◌then◌else◌, length, is_empty, to_lower, equal_fold, trim_prefix,
}
use open_chain.Prelude.Hex.{hex_prefix}
use open_chain.Transfers.{Asset}
use open_chain.Bridge.Words.{big_endian, abi_words, word_address}

-- LogItem of internal/adapter/evm.go.
pub record LogItem : Type 0 where
  pub address : Text
  pub topics : List Text
  pub log_data : Text
  pub block_number : Text
  pub block_hash : Text
  pub transaction_hash : Text
  pub transaction_index : Text
  pub log_index : Text

pub record BridgeEvent : Type 0 where
  pub log : LogItem
  pub is_erc20 : Bool
  pub local_token : Text
  pub remote_token : Text
  pub from : Text
  pub to : Text
  pub amount : ℕ

-- sameAddress
unfoldable pub same_address : Text → Text → Bool
same_address left right = equal_fold left right

-- topicWord
unfoldable pub topic_word : Text → List ℕ
topic_word value = hex_prefix (trim_prefix (codes "0x") value)

-- wordInt
unfoldable pub word_int : List ℕ → Option ℕ
word_int word = if length word == 32 then some (big_endian 0 word) else none

-- The address in a topic.
unfoldable pub topic_address : Text → Text
topic_address topic = word_address (topic_word topic)

eth_event : LogItem → Text → Text → Option (List (List ℕ)) → Option BridgeEvent
eth_event log from to (some (amount ∷ w ∷ ws)) = elim (word_int amount) [
  | none ↦ none
  | some n ↦ some (record {
    log = log;
    is_erc20 = false;
    local_token = [];
    remote_token = [];
    from = topic_address from;
    to = topic_address to;
    amount = n;
  })
]
eth_event log from to _ = none

eth_topics : LogItem → List Text → Option BridgeEvent
unfolding eth_event
eth_topics log (signature ∷ from ∷ to ∷ []) = eth_event log from to (abi_words log.log_data)
eth_topics log _ = none

-- decodeETHBridge
unfoldable pub decode_eth_bridge : LogItem → Option BridgeEvent
unfolding eth_topics
decode_eth_bridge log = eth_topics log log.topics

unfoldable pub erc20_event :
    LogItem → Text → Text → Text → Option (List (List ℕ)) → Option BridgeEvent
erc20_event log near far from (some (to ∷ amount ∷ w ∷ ws)) = elim (word_int amount) [
  | none ↦ none
  | some n ↦ some (record {
    log = log;
    is_erc20 = true;
    local_token = topic_address near;
    remote_token = topic_address far;
    from = topic_address from;
    to = word_address to;
    amount = n;
  })
]
erc20_event log near far from _ = none

unfoldable pub erc20_topics : LogItem → List Text → Option BridgeEvent
unfolding erc20_event
erc20_topics log (signature ∷ near ∷ far ∷ from ∷ []) =
    erc20_event log near far from (abi_words log.log_data)
erc20_topics log _ = none

-- decodeERC20Bridge
unfoldable pub decode_erc20_bridge : LogItem → Option BridgeEvent
unfolding erc20_topics
decode_erc20_bridge log = erc20_topics log log.topics

module _ (keccak : Text → Text) where
  unfoldable pub initiation : LogItem → List Text → Option BridgeEvent
  initiation log [] = none
  initiation log (signature ∷ ts) =
      let t = to_lower signature in
      if same t (keccak (codes "ETHBridgeInitiated(address,address,uint256,bytes)"))
      then decode_eth_bridge log
      else if same t
          (keccak (codes "ERC20BridgeInitiated(address,address,address,address,uint256,bytes)"))
      then decode_erc20_bridge log
      else none

  -- decodeInitiations
  unfoldable pub decode_initiations : List LogItem → Text → List BridgeEvent
  unfolding initiation
  decode_initiations [] bridge = []
  decode_initiations (log ∷ logs) bridge =
      let rest = decode_initiations logs bridge in
      if same_address log.address bridge
      then elim (initiation log log.topics) [ none ↦ rest | some e ↦ e ∷ rest ]
      else rest

  -- The event of a log that may finalize `expected`.
  unfoldable pub finalization : BridgeEvent → LogItem → List Text → Option BridgeEvent
  finalization expected log [] = none
  finalization expected log (signature ∷ ts) =
      if expected.is_erc20
        && equal_fold signature
            (keccak (codes "ERC20BridgeFinalized(address,address,address,address,uint256,bytes)"))
      then decode_erc20_bridge log
      else if not expected.is_erc20
          && equal_fold signature
              (keccak (codes "ETHBridgeFinalized(address,address,uint256,bytes)"))
      then decode_eth_bridge log
      else none

  unfoldable pub finalizes : BridgeEvent → BridgeEvent → Bool
  finalizes expected event =
      (if event.is_erc20 then expected.is_erc20 else not expected.is_erc20)
      && (same_address event.from expected.from
          && (same_address event.to expected.to
              && (event.amount == expected.amount
                  && (not event.is_erc20
                      || (same_address event.local_token expected.remote_token
                          && same_address event.remote_token expected.local_token)))))

  -- hasMatchingFinalization
  unfoldable pub has_matching_finalization : List LogItem → Text → BridgeEvent → Bool
  unfolding finalization finalizes
  has_matching_finalization [] bridge expected = false
  has_matching_finalization (log ∷ logs) bridge expected =
      let rest = has_matching_finalization logs bridge expected in
      if same_address log.address bridge
      then elim (finalization expected log log.topics) [
        | none ↦ rest
        | some event ↦ if finalizes expected event then true else rest
      ]
      else rest

pub record Route : Type 0 where
  pub source_network : Text
  pub destination_network : Text
  pub source_token : Text
  pub destination_token : Text
  pub asset : Asset

abbrev pub ethereum_mainnet : Text
ethereum_mainnet = codes "ethereum-mainnet"

abbrev pub ethereum_weth : Text
ethereum_weth = codes "0xc02aa39b223fe8d0a0e5c4f27ead9083c756cc2"

abbrev pub native : Asset
native = record {
  kind = codes "NATIVE";
  contract_address = [];
  symbol = codes "ETH";
  decimals = 18;
}

abbrev pub wrapped : Text → Asset
wrapped contract = record {
  kind = codes "ERC20";
  contract_address = contract;
  symbol = codes "WETH";
  decimals = 18;
}

-- The routes of newOPStackStandardBridge.
unfoldable pub routes : Text → Text → List Route
routes destination l2_weth =
    record {
      source_network = ethereum_mainnet;
      destination_network = destination;
      source_token = [];
      destination_token = [];
      asset = native;
    }
    ∷ record {
      source_network = destination;
      destination_network = ethereum_mainnet;
      source_token = [];
      destination_token = [];
      asset = native;
    }
    ∷ record {
      source_network = ethereum_mainnet;
      destination_network = destination;
      source_token = ethereum_weth;
      destination_token = l2_weth;
      asset = wrapped ethereum_weth;
    }
    ∷ record {
      source_network = destination;
      destination_network = ethereum_mainnet;
      source_token = l2_weth;
      destination_token = ethereum_weth;
      asset = wrapped l2_weth;
    }
    ∷ []

unfoldable pub fits_route : Text → Text → BridgeEvent → Route → Bool
fits_route source destination event r =
    same r.source_network source
    && (same r.destination_network destination
        && (same r.source_token event.local_token && same r.destination_token event.remote_token))

-- canonicalRoute
unfoldable pub canonical_route : List Route → Text → Text → BridgeEvent → Option Route
canonical_route [] source destination event = none
canonical_route (r ∷ rs) source destination event =
    if fits_route source destination event r
    then some r
    else canonical_route rs source destination event

-- confirmed
unfoldable pub confirmed : ℕ → ℕ → ℕ → Bool
confirmed head block threshold = ltb 0 block && (leb block head && leb threshold (head - block))
