-- ===== src/Tests/Source.antt =====
-- Address formats at small inputs: address.go, base58.go and tron.go of internal/adapter.
use open_chain.Prelude.{
  List, ℕ, ◌<◌, ◌++◌, length, All, trim_prefix, ◌≡◌, refl, some, [], ◌∷◌, Text, codes, arith,
  is_space, trim_space, strip_prefix?, lower,
}
use open_chain.Prelude.Hex.{hex_decode, hex_value}
use open_chain.Bridge.Words.{zeros}
use open_chain.Source.Tron.{
  tron_address_from_hex, normalize_tron_address, tron_checksum, starts_with,
}
use open_chain.Source.Tron.Canonical.{normalize_tron_address-tron_address_from_hex}
use open_chain.Source.Base58.{encode_base58, decode_base58}
use open_chain.Source.Base58.RoundTrip.{decode_base58-encode_base58}
use open_chain.Source.Address.{
  normalize_ethereum_address, normalize_hex, is_prefixed_hex, all_hex, is_hex_letter, IsLowerHex,
  normalize_ethereum_address-IsLowerHex,
}

decode_base58-encode_base58_example :
    decode_base58 (encode_base58 (0 ∷ 0 ∷ 1 ∷ 255 ∷ [])) ≡ some (0 ∷ 0 ∷ 1 ∷ 255 ∷ [])
decode_base58-encode_base58_example =
    decode_base58-encode_base58 (0 ∷ 0 ∷ 1 ∷ 255 ∷ []) (λ e. cc) (omega arith)

abbrev mixed_case : Text
mixed_case = codes " 0xC02aaA39b223FE8D0A0e5C4F27eAD9083C756Cc2"

abbrev lower_case : Text
lower_case = codes "0xc02aaa39b223fe8d0a0e5c4f27ead9083c756cc2"

mixed_normal : normalize_ethereum_address mixed_case ≡ some lower_case
unfolding normalize_ethereum_address normalize_hex is_prefixed_hex all_hex is_hex_letter is_space
    trim_space strip_prefix? lower
mixed_normal = refl

normalize_ethereum_address-IsLowerHex_example :
    IsLowerHex 42 lower_case × (normalize_ethereum_address lower_case ≡ some lower_case)
normalize_ethereum_address-IsLowerHex_example =
    normalize_ethereum_address-IsLowerHex mixed_case lower_case mixed_normal

-- A stand-in for SHA-256.
abbrev no_digest : List ℕ → List ℕ
no_digest bs = zeros 32

no_digest_lem : (bs : List ℕ) → (length (no_digest bs) ≡ 32) × All (λ b. b < 256) (no_digest bs)
unfolding zeros
no_digest_lem bs = (refl, omega arith)

abbrev hex_text : Text
hex_text = codes "0x41c02aaa39b223fe8d0a0e5c4f27ead9083c756cc2"

abbrev address_of_hex : Text
address_of_hex = encode_base58 (
    (0x41 ∷ 0xc0 ∷ 0x2a ∷ 0xaa ∷ 0x39 ∷ 0xb2 ∷ 0x23 ∷ 0xfe ∷ 0x8d ∷ 0x0a ∷ 0x0e ∷ 0x5c ∷ 0x4f ∷ 0x27
      ∷ 0xea ∷ 0xd9 ∷ 0x08 ∷ 0x3c ∷ 0x75 ∷ 0x6c ∷ 0xc2 ∷ [])
    ++ tron_checksum no_digest [])

hex_read : tron_address_from_hex no_digest hex_text ≡ some address_of_hex
unfolding tron_address_from_hex hex_decode hex_value trim_space trim_prefix strip_prefix?
    starts_with tron_checksum zeros is_space
hex_read = refl

normalize_tron_address-tron_address_from_hex_example :
    normalize_tron_address no_digest address_of_hex ≡ some address_of_hex
normalize_tron_address-tron_address_from_hex_example =
    normalize_tron_address-tron_address_from_hex no_digest no_digest_lem hex_text address_of_hex
      hex_read
