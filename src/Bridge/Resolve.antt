-- ===== src/Bridge/Resolve.antt =====
-- The adapter of one standard bridge: newOPStackStandardBridge, Resolve, resolveCandidate,
-- unresolvedTransition and transitionID of internal/bridge/bridge.go. SHA-256 is the argument `sha256`,
-- from bytes to bytes. A panic of dynamicBytes is `none`; no other error is left.
pub mod Backed
pub mod Candidates
use open_chain.Prelude.{
  ℕ, Bool, true, false, not, ◌&&◌, ◌||◌, Option, none, some, List, [], ◌∷◌, ◌++◌, Text, codes,
  before, if◌then◌else◌, is_empty, to_lower, take,
}
use open_chain.Prelude.Hex.{hex_encode}
use open_chain.Prelude.Decimal.{itoa}
use open_chain.Prelude.Sets.{contains}
use open_chain.Prelude.Dict.{get, assign}
use open_chain.Prelude.Sort.{sort}
use open_chain.Transfers.{Asset, TransferItem}
use open_chain.Bridge.Events.{
  LogItem, BridgeEvent, Route, same_address, decode_initiations, routes, canonical_route,
  ethereum_mainnet,
}
use open_chain.Bridge.Hashes.{new_hashes}
use open_chain.Bridge.Messages.{
  SentMessage, Endpoint, decode_sent_messages, valued, matching_message, message_id,
}
use open_chain.Bridge.Destination.{EvmClient, log_reference, log_block, complete_destination}
use open_chain.Bridge.Transition.{
  Transition, Lifecycle, initiated, relayed, finalized, failed, unresolved,
}

abbrev pub base_mainnet : Text
base_mainnet = codes "base-mainnet"

abbrev pub optimism_mainnet : Text
optimism_mainnet = codes "optimism-mainnet"

-- OPStackStandardBridge; `clients` gives `none` for a nil client.
pub record StandardBridge : Type 0 where
  pub clients : Text → Option EvmClient
  pub registry : List Route
  pub endpoints : List (Text × (Endpoint × Endpoint))
  pub protocol : Text
  pub bridge_name : Text
  pub destination_net : Text

-- newOPStackStandardBridge
unfoldable pub new_op_stack_standard_bridge :
    Text → Text → Text → Endpoint → Endpoint → Text → (Text → Option EvmClient) → StandardBridge
new_op_stack_standard_bridge protocol bridge_name destination_net l1 l2 l2_weth clients = record {
  clients = clients;
  registry = routes destination_net l2_weth;
  endpoints = assign destination_net (l2, l1) ((ethereum_mainnet, (l1, l2)) ∷ []);
  protocol = protocol;
  bridge_name = bridge_name;
  destination_net = destination_net;
}

-- NewBaseStandardBridge
unfoldable pub new_base_standard_bridge : (Text → Option EvmClient) → StandardBridge
new_base_standard_bridge clients =
    new_op_stack_standard_bridge (codes "base-standard-bridge") (codes "Base Standard Bridge")
      base_mainnet
      (record {
        network = ethereum_mainnet;
        bridge = codes "0x3154cf16ccdb4c6d922629664174b904d80f2c35";
        messenger = codes "0x866e82a600a1414e583f7f13623f1ac5d58b0afa";
        confirmations = 64;
      })
      (record {
        network = base_mainnet;
        bridge = codes "0x4200000000000000000000000000000000000010";
        messenger = codes "0x4200000000000000000000000000000000000007";
        confirmations = 120;
      })
      (codes "0x4200000000000000000000000000000000000006") clients

-- NewOptimismStandardBridge
unfoldable pub new_optimism_standard_bridge : (Text → Option EvmClient) → StandardBridge
new_optimism_standard_bridge clients =
    new_op_stack_standard_bridge (codes "optimism-standard-bridge")
      (codes "Optimism Standard Bridge") optimism_mainnet
      (record {
        network = ethereum_mainnet;
        bridge = codes "0x99c9fc46f92e8a1c0dec1b1747d010903e884be1";
        messenger = codes "0x25ace71c97b33cc4729cf772ae268934f7ab5fa1";
        confirmations = 64;
      })
      (record {
        network = optimism_mainnet;
        bridge = codes "0x4200000000000000000000000000000000000010";
        messenger = codes "0x4200000000000000000000000000000000000007";
        confirmations = 120;
      })
      (codes "0x4200000000000000000000000000000000000006") clients

-- The text of a Lifecycle.
unfoldable pub lifecycle_text : Lifecycle → Text
lifecycle_text initiated = codes "initiated"
lifecycle_text relayed = codes "relayed"
lifecycle_text finalized = codes "finalized"
lifecycle_text failed = codes "failed"
lifecycle_text unresolved = codes "unresolved"

abbrev pipe : Text
pipe = codes "|"

no_asset : Asset
no_asset = record { kind = []; contract_address = []; symbol = []; decimals = 0 }

module _ (keccak sha256 : Text → Text) (a : StandardBridge) where
  -- transitionID
  unfoldable pub transition_id : Transition → Text
  transition_id t =
      let material =
        t.protocol
        ++ (pipe
            ++ (t.message_id
                ++ (pipe
                    ++ (lifecycle_text t.lifecycle
                        ++ (pipe
                            ++ (t.source_transaction_hash
                                ++ (pipe
                                    ++ (t.destination_transaction_hash
                                        ++ (pipe ++ t.destination_log_reference))))))))) in
      t.protocol ++ (codes ":" ++ hex_encode (take 16 (sha256 material)))

  module _ (source destination : Endpoint) (candidate : TransferItem) where
    -- unresolvedTransition
    unfoldable pub unresolved_transition : Text → List Text → Transition
    unfolding no_asset
    unresolved_transition reason hashes = record {
      id =
          a.protocol
          ++ (codes ":unresolved:"
              ++ hex_encode (take 16 (sha256 (to_lower candidate.hash ++ (pipe ++ reason)))));
      protocol = a.protocol;
      bridge_name = a.bridge_name;
      source_network = source.network;
      destination_network = destination.network;
      lifecycle = unresolved;
      message_id = [];
      source_transfer_id = [];
      destination_transfer_id = [];
      source_transaction_hash = to_lower candidate.hash;
      destination_transaction_hash = [];
      source_log_reference = [];
      destination_log_reference = [];
      source_bridge_address = source.bridge;
      destination_bridge_address = destination.bridge;
      canonical_source_token = [];
      canonical_destination_token = [];
      recipient = [];
      amount_base_units = [];
      limitations = reason;
      asset = no_asset;
      source_block_number = 0;
      destination_block_number = 0;
      source_block_hash = [];
      destination_block_hash = [];
      source_timestamp = candidate.timestamp;
      destination_timestamp = 0;
      source_confirmed = false;
      destination_confirmed = false;
      source_acquisition_hashes = hashes;
      destination_acquisition_hashes = [];
      source_acquisition_ids = [];
      destination_acquisition_ids = [];
    }

    -- The transition that resolveCandidate writes for an initiation with its route and its message's id.
    unfoldable pub initiated_transition : BridgeEvent → Route → Text → List Text → Transition
    initiated_transition event route message hashes = record (unresolved_transition [] hashes) {
      id = [];
      lifecycle = initiated;
      message_id = message;
      source_log_reference = log_reference event.log;
      canonical_source_token = route.source_token;
      canonical_destination_token = route.destination_token;
      recipient = event.to;
      amount_base_units = itoa event.amount;
      limitations =
          codes "This continuation is limited to the exact "
          ++ (a.bridge_name
              ++ codes
                  " message, canonical token route, and retrieved chain records. It does not infer cross-chain address ownership, control, or intent.");
      asset = route.asset;
      source_block_number = log_block event.log;
      source_block_hash = event.log.block_hash;
    }

    identified : Transition × List Text → Transition × List Text
    identified (t, hs) = (record t { id = transition_id t }, hs)

    module _ (near far : EvmClient) (hashes : List Text) where
      -- The body of the loop over the initiations, behind its message and its route.
      unfoldable pub with_route :
          BridgeEvent → SentMessage → Option Route → List Text → Transition × List Text
      unfolding identified
      with_route event m none hs = (
        unresolved_transition
            (codes
              "The bridge message is protocol-shaped, but its token route is not in OpenChain's canonical bridge route registry.")
            hashes,
        hs,
      )
      with_route event m (some route) hs = elim (message_id keccak m) [
        | none ↦ (
          unresolved_transition
              (codes
                "The bridge message uses an unsupported cross-domain message version; no continuation was inferred.")
              hashes,
          hs,
        )
        | some message ↦ identified (
            complete_destination keccak near far source destination event
              (initiated_transition event route message hashes) hs)
      ]

      unfoldable pub with_message :
          BridgeEvent → Option SentMessage → List Text → Transition × List Text
      with_message event none hs = (
        unresolved_transition
            (codes
              "A StandardBridge initiation was observed, but no matching version-1 cross-domain message record was present in the same source receipt.")
            hashes,
        hs,
      )
      with_message event (some m) hs =
          with_route event m (canonical_route a.registry source.network destination.network event)
            hs

      -- The loop over the initiations.
      unfoldable pub each_initiation :
          List SentMessage → List BridgeEvent → List Text → List Transition × List Text
      each_initiation messages [] hs = ([], hs)
      each_initiation messages (event ∷ events) hs =
          let (t, hs') =
            with_message event (matching_message keccak messages event source destination) hs in
          let (ts, hs'') = each_initiation messages events hs' in (t ∷ ts, hs'')

      -- Behind the receipt of the candidate.
      unfoldable pub with_initiations :
          List LogItem → List BridgeEvent → List Text → Option (List Transition × List Text)
      with_initiations logs [] hs = some ([], hs)
      with_initiations logs (event ∷ events) hs =
          elim (decode_sent_messages keccak logs source.messenger) [
            | none ↦ none
            | some messages ↦
                some (
                  each_initiation (valued keccak logs source.messenger messages) (event ∷ events)
                    hs)
          ]

    -- resolveCandidate
    unfoldable pub resolve_candidate :
        EvmClient → EvmClient → List Text → Option (List Transition × List Text)
    resolve_candidate near far hs =
        let (receipt, hs') = near.receipt_logs candidate.hash hs in
        elim receipt [
          | none ↦ some (
            unresolved_transition
                  (codes
                    "Source bridge receipt is unavailable; no cross-chain continuation was inferred.")
                  []
                ∷ [],
            hs',
          )
          | some logs ↦
              with_initiations near far (new_hashes hs hs') logs
                (decode_initiations keccak logs source.bridge) hs'
        ]

  -- The first loop of Resolve: one candidate for each hash.
  unfoldable pub candidates : Endpoint → List Text → List TransferItem → List TransferItem
  candidates source seen [] = []
  candidates source seen (t ∷ ts) =
      let pass = not (same_address t.to source.bridge) || is_empty t.hash || contains t.hash seen in
      let rest = candidates source (if pass then seen else t.hash ∷ seen) ts in
      if pass then rest else t ∷ rest

  -- The second loop.
  unfoldable pub each_candidate :
      Endpoint
      → Endpoint
      → EvmClient
      → EvmClient
      → List TransferItem
      → List Text
      → Option (List Transition × List Text)
  each_candidate source destination near far [] hs = some ([], hs)
  each_candidate source destination near far (c ∷ cs) hs =
      elim (resolve_candidate source destination c near far hs) [
        | none ↦ none
        | some (ts, hs') ↦ elim (each_candidate source destination near far cs hs') [
          | none ↦ none
          | some (us, hs'') ↦ some (ts ++ us, hs'')
        ]
      ]

  unfoldable pub by_id : Transition → Transition → Bool
  by_id s t = before s.id t.id

  unfoldable pub with_clients :
      Endpoint
      → Endpoint
      → Option EvmClient
      → Option EvmClient
      → List TransferItem
      → List Text
      → Option (List Transition × List Text)
  with_clients source destination (some near) (some far) ts hs =
      elim (each_candidate source destination near far (candidates source [] ts) hs) [
        | none ↦ none
        | some (us, hs') ↦ some (sort by_id us, hs')
      ]
  with_clients source destination _ _ ts hs = some ([], hs)

  -- Resolve
  unfoldable pub resolve :
      Text → List TransferItem → List Text → Option (List Transition × List Text)
  resolve network ts hs = elim (get network a.endpoints) [
    | none ↦ some ([], hs)
    | some (source, destination) ↦
        with_clients source destination (a.clients source.network) (a.clients destination.network)
          ts hs
  ]
