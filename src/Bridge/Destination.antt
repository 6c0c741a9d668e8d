-- ===== src/Bridge/Destination.antt =====
-- What became of a message: completeDestination, applyConfirmations and what they use of
-- internal/bridge/bridge.go. A call of an EVM client is a function of the response hashes that the
-- context has recorded; it gives an answer, `none` for its error, and the hashes recorded then.
pub mod Finalized
pub mod Keeps
use open_chain.Prelude.{
  ℕ, ◌+◌, ◌*◌, ◌^◌, Bool, true, false, ◌&&◌, Option, none, some, List, [], ◌∷◌, ◌++◌, Text, codes,
  ltb, ◌==◌, if◌then◌else◌, is_empty, to_lower, trim_prefix,
}
use open_chain.Prelude.Hex.{hex_value}
use open_chain.Bridge.Events.{LogItem, BridgeEvent, confirmed, has_matching_finalization}
use open_chain.Bridge.Hashes.{append_unique, new_hashes}
use open_chain.Bridge.Messages.{Endpoint}
use open_chain.Bridge.Transition.{
  Transition, Lifecycle, initiated, relayed, finalized, failed, unresolved,
}

abbrev pub Call : Type 0 → Type 0
Call A = List Text → Option A × List Text

-- The calls of *adapter.EVMClient; the logs are those of a contract with a topic and a message id.
pub record EvmClient : Type 0 where
  pub receipt_logs : Text → Call (List LogItem)
  pub logs_of : Text → Text → Text → Call (List LogItem)
  pub block_timestamp : ℕ → Call ℕ
  pub latest_block : Call ℕ

-- Hexadecimal digits behind `acc`.
hex_digits : ℕ → Text → Option ℕ
hex_digits acc [] = some acc
hex_digits acc (c ∷ s) = elim (hex_value c) [ none ↦ none | some d ↦ hex_digits (acc * 16 + d) s ]

some_hex_digits : Text → Option ℕ
unfolding hex_digits
some_hex_digits [] = none
some_hex_digits (c ∷ s) = hex_digits 0 (c ∷ s)

-- The number of a negative text: only zero is a uint64.
negative_hex : Option ℕ → ℕ
negative_hex none = 0
negative_hex (some n) = 0

positive_hex : Option ℕ → ℕ
positive_hex none = 0
positive_hex (some n) = if ltb n (2 ^ 64) then n else 0

-- (*big.Int).SetString with base 16, its value where that is a uint64, and otherwise 0.
unfoldable pub hex_uint64 : Text → ℕ
unfolding some_hex_digits negative_hex positive_hex
hex_uint64 [] = 0
hex_uint64 (c ∷ s) =
    if c == b'-'
    then negative_hex (some_hex_digits s)
    else positive_hex (some_hex_digits (if c == b'+' then s else c ∷ s))

-- logBlock
unfoldable pub log_block : LogItem → ℕ
log_block log = hex_uint64 (trim_prefix (codes "0x") log.block_number)

-- logReference
unfoldable pub log_reference : LogItem → Text
log_reference log =
    if is_empty log.transaction_hash
    then []
    else to_lower log.transaction_hash
      ++ (codes ":log:" ++ to_lower (trim_prefix (codes "0x") log.log_index))

abbrev heights_unavailable : Text
heights_unavailable =
    codes
      "Bridge records are exact, but one or both current chain heights are unavailable; the lifecycle is not confirmation-complete."

-- The tests of applyConfirmations, where both heights are known.
unfoldable pub with_heights : Endpoint → Endpoint → Transition → Option ℕ → Option ℕ → Transition
with_heights source destination t (some a) (some b) = record t {
  source_confirmed = confirmed a t.source_block_number source.confirmations;
  destination_confirmed =
      ltb 0 t.destination_block_number
      && confirmed b t.destination_block_number destination.confirmations;
}
with_heights source destination t _ _ = record t { limitations = heights_unavailable }

-- applyConfirmations, which has no error of its own.
unfoldable pub apply_confirmations :
    EvmClient → EvmClient → Endpoint → Endpoint → Transition → List Text → Transition × List Text
unfolding with_heights
apply_confirmations near far source destination t hs =
    let (source_head, hs') = near.latest_block hs in
    let (destination_head, hs'') = far.latest_block hs' in
    (
      with_heights source destination
          (record t {
            source_acquisition_hashes =
                append_unique t.source_acquisition_hashes (new_hashes hs hs');
            destination_acquisition_hashes =
                append_unique t.destination_acquisition_hashes (new_hashes hs' hs'');
          })
          source_head destination_head,
      hs'',
    )

time_or_zero : Option ℕ → ℕ
time_or_zero none = 0
time_or_zero (some n) = n

-- The fields that a log of the destination sets.
unfoldable pub observed_at : Lifecycle → LogItem → Option ℕ → Transition → Transition
unfolding time_or_zero
observed_at l log time t = record t {
  lifecycle = l;
  destination_transaction_hash = to_lower log.transaction_hash;
  destination_log_reference = log_reference log;
  destination_block_number = log_block log;
  destination_block_hash = log.block_hash;
  destination_timestamp = time_or_zero time;
}

unfoldable pub open_as : Text → Transition → Transition
open_as why t = record t { lifecycle = unresolved; limitations = why }

unfoldable pub settle : Transition → Transition
settle t =
    if t.source_confirmed && t.destination_confirmed then record t { lifecycle = finalized } else t

unfoldable pub settled : Transition × List Text → Transition × List Text
unfolding settle
settled (t, hs) = (settle t, hs)

module _ (keccak : Text → Text) (near far : EvmClient) (source destination : Endpoint) where
  -- A failed relay. `before` has the hashes before the queries.
  unfoldable pub after_failure :
      List Text → LogItem → Transition → List Text → Transition × List Text
  after_failure before log t hs =
      let (time, hs') = far.block_timestamp (log_block log) hs in
      apply_confirmations near far source destination
        (record (observed_at failed log time t) {
          destination_acquisition_hashes = new_hashes before hs';
          limitations =
              codes
                "A destination FailedRelayedMessage was observed for this exact message identifier. A later relay may still succeed; this does not establish address ownership or intent.";
        })
        hs'

  -- The receipt of a relay.
  unfoldable pub with_receipt :
      BridgeEvent → Option (List LogItem) → Transition → List Text → Transition × List Text
  with_receipt event none t hs = (
    open_as
        (codes
          "A destination relay event was observed, but its receipt could not be retrieved to validate the StandardBridge finalization.")
        t,
    hs,
  )
  with_receipt event (some logs) t hs =
      if has_matching_finalization keccak logs destination.bridge event
      then settled (apply_confirmations near far source destination t hs)
      else (
        open_as
            (codes
              "A relay event was observed, but no matching canonical StandardBridge finalization was found in that destination receipt.")
            t,
        hs,
      )

  -- A relay.
  unfoldable pub after_relay :
      BridgeEvent → List Text → LogItem → Transition → List Text → Transition × List Text
  after_relay event before log t hs =
      let (time, hs') = far.block_timestamp (log_block log) hs in
      let (receipt, hs'') = far.receipt_logs log.transaction_hash hs' in
      with_receipt event receipt
        (record (observed_at relayed log time t) {
          destination_acquisition_hashes = new_hashes before hs'';
        })
        hs''

  -- Behind the two queries.
  unfoldable pub with_logs :
      BridgeEvent
      → List Text
      → Option (List LogItem)
      → Option (List LogItem)
      → Transition
      → List Text
      → Transition × List Text
  with_logs event before (some (log ∷ logs)) (some failures) t hs =
      after_relay event before log t hs
  with_logs event before (some []) (some (log ∷ logs)) t hs = after_failure before log t hs
  with_logs event before (some []) (some []) t hs =
      apply_confirmations near far source destination t hs
  with_logs event before _ _ t hs = (
    open_as
        (codes
          "The source bridge message is exact, but the destination messenger could not be queried by message identifier. It remains unresolved evidence.")
        t,
    hs,
  )

  -- completeDestination
  unfoldable pub complete_destination :
      BridgeEvent → Transition → List Text → Transition × List Text
  complete_destination event t hs =
      let (successes, hs') =
        far.logs_of destination.messenger (keccak (codes "RelayedMessage(bytes32)")) t.message_id
          hs in
      let (failures, hs'') =
        far.logs_of destination.messenger (keccak (codes "FailedRelayedMessage(bytes32)"))
          t.message_id hs' in
      with_logs event hs successes failures
        (record t { destination_acquisition_hashes = new_hashes hs hs'' }) hs''
