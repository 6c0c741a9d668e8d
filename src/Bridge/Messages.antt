-- ===== src/Bridge/Messages.antt =====
-- The messages between the chains: decodeSentMessages, sentMessageValue, matchingMessage,
-- bridgeFinalizationMatches, messageID and what they use of internal/bridge/bridge.go. Keccak-256 in
-- hexadecimal, 0x in front, is the argument `keccak`.
use Prim.Native.String.{String}
use open_chain.Prelude.{
  ℕ, Bool, false, not, ◌&&◌, Option, none, some, List, [], ◌∷◌, ◌++◌, Text, codes, same, ltb, ◌==◌,
  if◌then◌else◌, length, take, drop, equal_fold, trim_prefix,
}
use open_chain.Prelude.Hex.{hex_encode, hex_prefix}
use open_chain.Bridge.Words.{
  refused, found, panicked, dynamic_bytes, dynamic_word, abi_words, address_word, word_address,
}
use open_chain.Bridge.Events.{LogItem, BridgeEvent, same_address, topic_address, word_int}

pub record SentMessage : Type 0 where
  pub log : LogItem
  pub target : Text
  pub sender : Text
  pub message : List ℕ
  pub nonce : List ℕ
  pub gas : List ℕ
  pub value : List ℕ

-- The contracts of one side.
pub record Endpoint : Type 0 where
  pub network : Text
  pub bridge : Text
  pub messenger : Text
  pub confirmations : ℕ

-- abiEncode
unfoldable pub abi_encode : List (List ℕ) → List ℕ
abi_encode [] = []
abi_encode (p ∷ ps) = p ++ abi_encode ps

-- A number in a word, compared with an amount.
unfoldable pub word_is : List ℕ → ℕ → Bool
word_is word amount = elim (word_int word) [ none ↦ false | some n ↦ n == amount ]

unfoldable pub word_names : List ℕ → Text → Bool
word_names word address = same_address (word_address word) address

-- The words of a finalizeBridgeETH call.
unfoldable pub finalizes_eth : BridgeEvent → List (List ℕ) → Bool
finalizes_eth initiated (from ∷ to ∷ amount ∷ w ∷ ws) =
    word_names from initiated.from
    && (word_names to initiated.to && word_is amount initiated.amount)
finalizes_eth initiated _ = false

-- The words of a finalizeBridgeERC20 call.
unfoldable pub finalizes_erc20 : BridgeEvent → List (List ℕ) → Bool
finalizes_erc20 initiated (near ∷ far ∷ from ∷ to ∷ amount ∷ w ∷ ws) =
    word_names near initiated.remote_token
    && (word_names far initiated.local_token
        && (word_names from initiated.from
            && (word_names to initiated.to && word_is amount initiated.amount)))
finalizes_erc20 initiated _ = false

unfoldable pub with_value : SentMessage → Option (List ℕ) → SentMessage
with_value m none = record m { value = [] }
with_value m (some v) = record m { value = v }

module _ (keccak : Text → Text) where
  -- selector
  unfoldable pub selector : String → List ℕ
  selector signature = take 4 (hex_prefix (trim_prefix (codes "0x") (keccak (codes signature))))

  -- The log of a message, decoded; the outer `none` is a panic, the inner one a log that is passed over.
  sent_words : LogItem → Text → Option (List (List ℕ)) → Option (Option SentMessage)
  sent_words log target (some (sender ∷ offset ∷ nonce ∷ gas ∷ ws)) =
      elim (dynamic_bytes log.log_data offset) [
        | refused ↦ some none
        | panicked ↦ none
        | found message ↦ some (
            some (record {
              log = log;
              target = topic_address target;
              sender = word_address sender;
              message = message;
              nonce = nonce;
              gas = gas;
              value = [];
            }))
      ]
  sent_words log target _ = some none

  sent_topics : LogItem → List Text → Option (Option SentMessage)
  unfolding sent_words
  sent_topics log (signature ∷ target ∷ []) =
      if equal_fold signature (keccak (codes "SentMessage(address,address,bytes,uint256,uint256)"))
      then sent_words log target (abi_words log.log_data)
      else some none
  sent_topics log _ = some none

  unfoldable pub sent_message : Text → LogItem → Option (Option SentMessage)
  unfolding sent_topics
  sent_message messenger log =
      if same_address log.address messenger then sent_topics log log.topics else some none

  -- decodeSentMessages; `none` is a panic of dynamicBytes.
  unfoldable pub decode_sent_messages : List LogItem → Text → Option (List SentMessage)
  decode_sent_messages [] messenger = some []
  decode_sent_messages (log ∷ logs) messenger =
      let rest = decode_sent_messages logs messenger in
      elim (sent_message messenger log) [
        | none ↦ none
        | some none ↦ rest
        | some (some m) ↦ elim rest [ none ↦ none | some ms ↦ some (m ∷ ms) ]
      ]

  -- The one word of the extension event of a sender.
  value_words : Option (List (List ℕ)) → Option (List ℕ)
  value_words (some (w ∷ [])) = some w
  value_words _ = none

  value_topics : Text → LogItem → List Text → Option (List ℕ)
  unfolding value_words
  value_topics sender log (signature ∷ from ∷ []) =
      if equal_fold signature (keccak (codes "SentMessageExtension1(address,uint256)"))
        && same_address (topic_address from) sender
      then value_words (abi_words log.log_data)
      else none
  value_topics sender log _ = none

  -- sentMessageValue; `none` is its nil.
  unfoldable pub sent_message_value : List LogItem → Text → SentMessage → Option (List ℕ)
  unfolding value_topics
  sent_message_value [] messenger m = none
  sent_message_value (log ∷ logs) messenger m =
      let rest = sent_message_value logs messenger m in
      if same_address log.address messenger
      then elim (value_topics m.sender log log.topics) [ none ↦ rest | some v ↦ some v ]
      else rest

  -- The messages of a receipt with their values.
  unfoldable pub valued : List LogItem → Text → List SentMessage → List SentMessage
  valued logs messenger [] = []
  valued logs messenger (m ∷ ms) =
      with_value m (sent_message_value logs messenger m) ∷ valued logs messenger ms

  -- bridgeFinalizationMatches
  unfoldable pub bridge_finalization_matches : List ℕ → BridgeEvent → Bool
  bridge_finalization_matches call initiated =
      if ltb (length call) 4
      then false
      else elim (abi_words (codes "0x" ++ hex_encode (drop 4 call))) [
        | none ↦ false
        | some words ↦
            if not initiated.is_erc20
              && same (take 4 call) (selector "finalizeBridgeETH(address,address,uint256,bytes)")
            then finalizes_eth initiated words
            else if initiated.is_erc20
                && same (take 4 call)
                    (selector "finalizeBridgeERC20(address,address,address,address,uint256,bytes)")
            then finalizes_erc20 initiated words
            else false
      ]

  unfoldable pub carries : BridgeEvent → Endpoint → Endpoint → SentMessage → Bool
  carries initiated source destination m =
      same_address m.sender source.bridge
      && (same_address m.target destination.bridge
          && (length m.value == 32 && bridge_finalization_matches m.message initiated))

  -- matchingMessage
  unfoldable pub matching_message :
      List SentMessage → BridgeEvent → Endpoint → Endpoint → Option SentMessage
  matching_message [] initiated source destination = none
  matching_message (m ∷ ms) initiated source destination =
      if carries initiated source destination m
      then some m
      else matching_message ms initiated source destination

  -- A nonce of version 1.
  unfoldable pub is_version_one : List ℕ → Bool
  is_version_one (a ∷ b ∷ bs) = a == 0 && b == 1
  is_version_one _ = false

  -- messageID; `none` is its error.
  unfoldable pub message_id : SentMessage → Option Text
  message_id m =
      if (length m.nonce == 32 && (length m.gas == 32 && length m.value == 32))
        && is_version_one m.nonce
      then some (
          keccak (
            abi_encode (
              m.nonce
              ∷ address_word m.sender
              ∷ address_word m.target
              ∷ m.value
              ∷ m.gas
              ∷ dynamic_word m.message
              ∷ [])))
      else none
