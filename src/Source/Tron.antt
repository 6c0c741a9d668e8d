-- ===== src/Source/Tron.antt =====
-- TRON addresses and hashes, of internal/adapter/tron.go, and those of Solana, of solana.go beside it.
-- SHA-256 is the argument `sha256`, from bytes to bytes; `none` is an error.
pub mod Canonical
use open_chain.Prelude.{
  ℕ, Bool, true, false, ◌&&◌, Option, none, some, List, [], ◌∷◌, ◌++◌, Text, codes, same, ◌==◌,
  if◌then◌else◌, length, take, drop, to_lower, trim_space, trim_prefix, strip_prefix?,
}
use open_chain.Prelude.Hex.{hex_decode}
use open_chain.Source.Base58.{decode_base58, encode_base58}

-- The first byte of a list is `b`.
unfoldable pub starts_with : ℕ → List ℕ → Bool
starts_with b [] = false
starts_with b (c ∷ s) = c == b

-- A text that is decoded to so many bytes.
unfoldable pub normalize_base58 : ℕ → Text → Option Text
normalize_base58 size value =
    let v = trim_space value in
    elim (decode_base58 v) [ none ↦ none | some bs ↦ if length bs == size then some v else none ]

-- (*SolanaAdapter).NormalizeAddress
unfoldable pub normalize_solana_address : Text → Option Text
unfolding normalize_base58
normalize_solana_address value = normalize_base58 32 value

-- (*SolanaAdapter).NormalizeTransactionHash
unfoldable pub normalize_solana_hash : Text → Option Text
unfolding normalize_base58
normalize_solana_hash value = normalize_base58 64 value

-- (*TronAdapter).NormalizeTransactionHash
unfoldable pub normalize_tron_hash : Text → Option Text
normalize_tron_hash value =
    let v = trim_prefix (codes "0x") (trim_space value) in
    if length v == 64
    then elim (hex_decode v) [
      | none ↦ none
      | some bs ↦ if length bs == 32 then some (to_lower v) else none
    ]
    else none

module _ (sha256 : List ℕ → List ℕ) where
  -- tronChecksum
  unfoldable pub tron_checksum : List ℕ → List ℕ
  tron_checksum value = take 4 (sha256 (sha256 value))

  unfoldable pub is_tron : List ℕ → Bool
  is_tron bs =
      length bs == 25 && (starts_with 0x41 bs && same (drop 21 bs) (tron_checksum (take 21 bs)))

  -- (*TronAdapter).NormalizeAddress
  unfoldable pub normalize_tron_address : Text → Option Text
  unfolding is_tron
  normalize_tron_address value =
      let v = trim_space value in
      elim (decode_base58 v) [ none ↦ none | some bs ↦ if is_tron bs then some v else none ]

  -- tronAddressFromHex
  unfoldable pub tron_address_from_hex : Text → Option Text
  unfolding tron_checksum starts_with
  tron_address_from_hex value = elim (hex_decode (trim_prefix (codes "0x") (trim_space value))) [
    | none ↦ none
    | some bs ↦
        if length bs == 21 && starts_with 0x41 bs
        then some (encode_base58 (bs ++ tron_checksum bs))
        else none
  ]

  -- canonicalAddress
  unfoldable pub canonical_address : Text → Option Text
  canonical_address value = elim (strip_prefix? (codes "41") (trim_prefix (codes "0x") value)) [
    | none ↦ normalize_tron_address value
    | some s ↦ tron_address_from_hex value
  ]
