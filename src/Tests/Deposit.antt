-- ===== src/Tests/Deposit.antt =====
-- The standard bridge at one deposit: internal/bridge/bridge.go.
use open_chain.Prelude.{
  ℕ, ◌≡◌, refl, Option, none, some, List, [], ◌∷◌, ◌++◌, Text, codes, if◌then◌else◌, same, is_empty,
  equal_fold, lower, trim_prefix, strip_prefix?, before, All,
}
use open_chain.Prelude.Int.{pos, wrap_i64}
use open_chain.Transfers.{TransferItem}
use open_chain.Bridge.Resolve.Candidates.{Rests, resolve-Rests}
use open_chain.Bridge.Transition.{Transition, Lifecycle, finalized}
use open_chain.Prelude.Hex.{hex_decode, hex_digit, hex_encode, hex_prefix, hex_value}
use open_chain.Bridge.Words.{
  abi_words, address_word, big_endian, bytes_at, dynamic_bytes, dynamic_word, fill_bytes,
  offset_word, word_address, zeros,
}
use open_chain.Bridge.Events.{
  LogItem, canonical_route, confirmed, decode_erc20_bridge, decode_eth_bridge, decode_initiations,
  erc20_event, erc20_topics, ethereum_mainnet, finalization, finalizes, fits_route,
  has_matching_finalization, initiation, native, routes, same_address, topic_address, topic_word,
  word_int,
}
use open_chain.Bridge.Hashes.{append_unique, new_hashes, unique}
use open_chain.Bridge.Messages.{
  Endpoint, abi_encode, bridge_finalization_matches, carries, decode_sent_messages, finalizes_erc20,
  finalizes_eth, is_version_one, matching_message, message_id, selector, sent_message,
  sent_message_value, valued, with_value, word_is, word_names,
}
use open_chain.Bridge.Destination.{
  EvmClient, after_failure, after_relay, apply_confirmations, complete_destination, hex_uint64,
  log_block, log_reference, observed_at, open_as, settle, settled, with_heights, with_logs,
  with_receipt,
}
use open_chain.Bridge.Resolve.{
  StandardBridge, by_id, candidates, each_candidate, each_initiation, initiated_transition,
  lifecycle_text, new_base_standard_bridge, new_op_stack_standard_bridge,
  new_optimism_standard_bridge, resolve, resolve_candidate, transition_id, unresolved_transition,
  with_clients, with_initiations, with_message, with_route,
}
use open_chain.Prelude.Dict.{assign, get, get_or}
use open_chain.Prelude.Sort.{insert, sort}
use open_chain.Prelude.Sets.{contains}

-- A stand-in for Keccak-256: the hexadecimal digits of the text itself.
abbrev spelled : Text → Text
spelled t = codes "0x" ++ hex_encode t

abbrev payer : List ℕ
payer = zeros 12 ++ (1 ∷ zeros 19)

abbrev payee : List ℕ
payee = zeros 12 ++ (2 ∷ zeros 19)

abbrev five : List ℕ
five = zeros 31 ++ 5 ∷ []

abbrev word_text : List ℕ → Text
word_text w = codes "0x" ++ hex_encode w

abbrev here : Endpoint
here = record {
  network = ethereum_mainnet;
  bridge = word_address payer;
  messenger = codes "m1";
  confirmations = 64;
}

abbrev there : Endpoint
there = record {
  network = codes "base-mainnet";
  bridge = word_address payee;
  messenger = codes "m2";
  confirmations = 120;
}

abbrev log_at : Text → List Text → List ℕ → LogItem
log_at contract topics bytes = record {
  address = contract;
  topics = topics;
  log_data = word_text bytes;
  block_number = codes "0x10";
  block_hash = [];
  transaction_hash = codes "0xab";
  transaction_index = [];
  log_index = codes "0x1";
}

abbrev begun : LogItem
begun =
    log_at (word_address payer)
      (spelled (codes "ETHBridgeInitiated(address,address,uint256,bytes)")
        ∷ word_text payer
        ∷ word_text payee
        ∷ [])
      (five ++ zeros 32)

-- A call of finalizeBridgeETH: the four bytes of its selector, and its words.
abbrev final_call : List ℕ
final_call = b'f' ∷ b'i' ∷ b'n' ∷ b'a' ∷ (payer ++ (payee ++ (five ++ zeros 32)))

abbrev passed_on : LogItem
passed_on =
    log_at (codes "m1")
      (spelled (codes "SentMessage(address,address,bytes,uint256,uint256)") ∷ word_text payee ∷ [])
      (payer
        ++ ((zeros 31 ++ 128 ∷ [])
            ++ ((0 ∷ 1 ∷ zeros 30)
                ++ (five ++ ((zeros 31 ++ 132 ∷ []) ++ (final_call ++ zeros 28))))))

abbrev with_its_value : LogItem
with_its_value =
    log_at (codes "m1")
      (spelled (codes "SentMessageExtension1(address,uint256)") ∷ word_text payer ∷ []) five

abbrev done_there : LogItem
done_there =
    log_at (word_address payee)
      (spelled (codes "ETHBridgeFinalized(address,address,uint256,bytes)")
        ∷ word_text payer
        ∷ word_text payee
        ∷ [])
      (five ++ zeros 32)

abbrev near_client : EvmClient
near_client = record {
  receipt_logs = λ h hs. (some (begun ∷ passed_on ∷ with_its_value ∷ []), codes "r" ∷ hs);
  logs_of = λ c topic m hs. (none, hs);
  block_timestamp = λ n hs. (none, hs);
  latest_block = λ hs. (some 100, hs);
}

abbrev far_client : EvmClient
far_client = record {
  receipt_logs = λ h hs. (some (done_there ∷ []), hs);
  logs_of = λ c topic m hs. (
    some (
        if same topic (spelled (codes "RelayedMessage(bytes32)"))
        then log_at (codes "m2") [] [] ∷ []
        else []),
    hs,
  );
  block_timestamp = λ n hs. (some 7, hs);
  latest_block = λ hs. (some 200, hs);
}

abbrev standard : StandardBridge
standard =
    new_op_stack_standard_bridge (codes "p") (codes "b") (codes "base-mainnet") here there
      (codes "w") (λ n. some (if same n ethereum_mainnet then near_client else far_client))

abbrev deposit : TransferItem
deposit = record {
  hash = codes "0xab";
  event_id = [];
  transfer_kind = [];
  from = [];
  to = word_address payer;
  amount_base_units = codes "5";
  asset = native;
  block_number = pos 16;
  block_hash = [];
  timestamp = 3;
}

abbrev first_lifecycle : Option (List Transition × List Text) → Option Lifecycle
first_lifecycle (some (t ∷ ts, hs)) = some t.lifecycle
first_lifecycle _ = none

abbrev answer : Option (List Transition × List Text)
answer = resolve spelled (λ t. t) standard ethereum_mainnet (deposit ∷ []) []

-- The deposit is finalized.
bridged : first_lifecycle answer ≡ some finalized
unfolding hex_digit hex_value hex_encode hex_decode hex_prefix big_endian fill_bytes zeros
    offset_word dynamic_word bytes_at dynamic_bytes abi_words address_word word_address same_address
    topic_word word_int topic_address decode_eth_bridge erc20_event erc20_topics decode_erc20_bridge
    initiation decode_initiations finalization finalizes has_matching_finalization routes fits_route
    canonical_route confirmed unique append_unique new_hashes abi_encode word_is word_names
    finalizes_eth finalizes_erc20 with_value selector sent_message decode_sent_messages
    sent_message_value valued bridge_finalization_matches carries matching_message is_version_one
    message_id hex_uint64 log_block log_reference with_heights apply_confirmations observed_at
    open_as settle settled after_failure with_receipt after_relay with_logs complete_destination
    new_op_stack_standard_bridge new_base_standard_bridge new_optimism_standard_bridge
    lifecycle_text transition_id unresolved_transition initiated_transition with_route with_message
    each_initiation with_initiations resolve_candidate candidates each_candidate by_id with_clients
    resolve get get_or assign insert sort contains same is_empty equal_fold lower trim_prefix
    strip_prefix? before wrap_i64
bridged = refl

abbrev answered : Option (List Transition × List Text) → List Transition × List Text
answered none = ([], [])
answered (some r) = r

answered_lem :
    (o : Option (List Transition × List Text))
    → first_lifecycle o ≡ some finalized
    → o ≡ some (answered o)
answered_lem none e = cc
answered_lem (some r) e = refl

resolve-Rests_example :
    All (Rests spelled (λ t. t) standard ethereum_mainnet (deposit ∷ [])) (answered answer).0
resolve-Rests_example =
    resolve-Rests spelled (λ t. t) standard ethereum_mainnet (deposit ∷ []) [] (answered answer)
      (answered_lem answer bridged)
