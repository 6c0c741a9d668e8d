-- ===== src/Tests/Bridge.antt =====
-- ABI words at small inputs: internal/bridge/bridge.go.
use open_chain.Prelude.{
  ℕ, tally, is_empty, same, if◌then◌else◌, ◌-◌, ◌^◌, ◌≡◌, refl, true, none, some, Text, List, [],
  ◌∷◌, ◌++◌, codes, arith, length, trim_prefix, strip_prefix?,
}
use open_chain.Prelude.Sets.{contains}
use open_chain.Bridge.Hashes.{append_unique, tally-append_unique}
use open_chain.Prelude.Hex.{hex_encode, hex_decode, hex_value, hex_digit, hex_prefix}
use open_chain.Bridge.Words.{
  address_word, abi_words, word_address, dynamic_bytes, found, panicked, zeros, big_endian,
}
use open_chain.Bridge.Events.{
  word_int, topic_address, topic_word, LogItem, BridgeEvent, decode_erc20_bridge, canonical_route,
  routes, ethereum_mainnet,
}
use open_chain.Bridge.Events.Routes.{canonical_route-erc20}
use open_chain.Bridge.Words.Addresses.{word_address-address_word}
use open_chain.Bridge.Words.RoundTrip.{laid_out, dynamic_bytes-laid_out, dynamic_bytes_panics}

-- The word of the number 2.
abbrev two_word : List ℕ
two_word = zeros 31 ++ 2 ∷ []

length-two_word : length two_word ≡ 32
unfolding zeros
length-two_word = refl

two_word_spells : big_endian 0 two_word ≡ 2
unfolding zeros big_endian
two_word_spells = refl

dynamic_bytes-laid_out_example :
    dynamic_bytes
      (codes "0x" ++ hex_encode (laid_out (7 ∷ 8 ∷ []) (1 ∷ 2 ∷ 255 ∷ []) (9 ∷ [])))
      two_word
    ≡ found (1 ∷ 2 ∷ 255 ∷ [])
dynamic_bytes-laid_out_example =
    dynamic_bytes-laid_out (7 ∷ 8 ∷ []) (1 ∷ 2 ∷ 255 ∷ []) (9 ∷ []) two_word (omega arith)
      (omega arith) (omega arith) length-two_word two_word_spells (omega arith) (omega arith)

-- The word of 2 ^ 63 - 1.
abbrev last_offset : List ℕ
last_offset = zeros 24 ++ 127 ∷ 255 ∷ 255 ∷ 255 ∷ 255 ∷ 255 ∷ 255 ∷ 255 ∷ []

length-last_offset : length last_offset ≡ 32
unfolding zeros
length-last_offset = refl

last_offset_spells : big_endian 0 last_offset ≡ 2 ^ 63 - 1
unfolding zeros big_endian
last_offset_spells = refl

one_byte : hex_decode (trim_prefix (codes "0x") (codes "0x2a")) ≡ some (42 ∷ [])
unfolding hex_decode hex_value trim_prefix strip_prefix?
one_byte = refl

dynamic_bytes_panics_example : dynamic_bytes (codes "0x2a") last_offset ≡ panicked
dynamic_bytes_panics_example =
    dynamic_bytes_panics (codes "0x2a") (42 ∷ []) last_offset one_byte length-last_offset
      (omega (arith, last_offset_spells)) (omega (arith, last_offset_spells))

abbrev zero_topic : Text
zero_topic = codes "0x0000000000000000000000000000000000000000000000000000000000000000"

abbrev zero_address : Text
zero_address = codes "0x0000000000000000000000000000000000000000"

abbrev erc20_log : LogItem
erc20_log = record {
  address = codes "0x3154cf16ccdb4c6d922629664174b904d80f2c35";
  topics = codes "0x7f" ∷ zero_topic ∷ zero_topic ∷ zero_topic ∷ [];
  log_data = codes "0x" ++ hex_encode (zeros 96);
  block_number = codes "0x10";
  block_hash = codes "0x11";
  transaction_hash = codes "0x12";
  transaction_index = codes "0x0";
  log_index = codes "0x1";
}

abbrev erc20_initiation : BridgeEvent
erc20_initiation = record {
  log = erc20_log;
  is_erc20 = true;
  local_token = zero_address;
  remote_token = zero_address;
  from = zero_address;
  to = zero_address;
  amount = 0;
}

erc20_decodes : decode_erc20_bridge erc20_log ≡ some erc20_initiation
unfolding decode_erc20_bridge abi_words hex_decode trim_prefix hex_encode zeros hex_value hex_digit
    word_int topic_address word_address big_endian topic_word hex_prefix
erc20_decodes = refl

canonical_route-erc20_example :
    canonical_route
      (routes (codes "base-mainnet") (codes "0x4200000000000000000000000000000000000006"))
      ethereum_mainnet
      (codes "base-mainnet")
      erc20_initiation
    ≡ none
canonical_route-erc20_example =
    canonical_route-erc20 erc20_log erc20_initiation (codes "base-mainnet")
      (codes "0x4200000000000000000000000000000000000006") erc20_decodes (λ e. cc) (λ e. cc)

tally-append_unique_example :
    tally (same (codes "a")) (append_unique (codes "b" ∷ codes "a" ∷ []) (codes "a" ∷ [] ∷ [])) ≡ (
      if is_empty (codes "a")
      then 0
      else (if contains (codes "a") ((codes "b" ∷ codes "a" ∷ []) ++ (codes "a" ∷ [] ∷ []))
          then 1
          else 0))
tally-append_unique_example =
    tally-append_unique (codes "a") (codes "b" ∷ codes "a" ∷ []) (codes "a" ∷ [] ∷ [])

-- Twenty bytes.
abbrev twenty : List ℕ
twenty =
    1 ∷ 2 ∷ 3 ∷ 4 ∷ 5 ∷ 6 ∷ 7 ∷ 8 ∷ 9 ∷ 10 ∷ 171 ∷ 205 ∷ 239 ∷ 14 ∷ 15 ∷ 16 ∷ 17 ∷ 18 ∷ 254 ∷ 255
    ∷ []

word_address-address_word_example :
    word_address (address_word (codes "0x" ++ hex_encode twenty)) ≡ codes "0x" ++ hex_encode twenty
word_address-address_word_example = word_address-address_word twenty (omega arith) (omega arith)
