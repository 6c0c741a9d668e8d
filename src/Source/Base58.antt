-- ===== src/Source/Base58.antt =====
-- Base58: internal/adapter/base58.go. A text is read by its bytes; a rune outside the alphabet is refused
-- by the first of them.
pub mod Digits
pub mod Bytes
pub mod RoundTrip
use mathlib.Core.List.{reverse}
use open_chain.Prelude.{
  ℕ, zero, suc, ◌+◌, ◌*◌, ◌/◌, ◌%◌, Option, none, some, List, [], ◌∷◌, ◌++◌, Text, codes, ◌==◌,
  if◌then◌else◌, length,
}
use open_chain.Bridge.Words.{big_endian, zeros}

abbrev pub base58_alphabet : Text
base58_alphabet = codes "123456789ABCDEFGHJKLMNPQRSTUVWXYZabcdefghijkmnopqrstuvwxyz"

-- strings.IndexRune of one byte.
unfoldable pub index_of : ℕ → Text → Option ℕ
index_of c [] = none
index_of c (d ∷ s) =
    let rest = index_of c s in
    if c == d then some 0 else elim rest [ none ↦ none | some i ↦ some (suc i) ]

-- s[i]
unfoldable pub letter : ℕ → Text → ℕ
letter i [] = 0
letter zero (c ∷ s) = c
letter (suc i) (c ∷ s) = letter i s

-- How many of the first elements are `p`.
unfoldable pub leading : ℕ → List ℕ → ℕ
leading p [] = 0
leading p (c ∷ s) = let rest = leading p s in if c == p then suc rest else 0

-- The low digits of a number first, with fuel; the number 0 has none.
unfoldable pub low_digits : ℕ → ℕ → ℕ → List ℕ
low_digits base zero n = []
low_digits base (suc fuel) n =
    let rest = low_digits base fuel (n / base) in if n == 0 then [] else (n % base) ∷ rest

-- (*big.Int).Bytes of a number below 256 ^ fuel.
unfoldable pub min_bytes : ℕ → ℕ → List ℕ
unfolding low_digits
min_bytes fuel n = reverse (low_digits 256 fuel n)

-- The loop of decodeBase58, with the number so far.
unfoldable pub read_base58 : ℕ → Text → Option ℕ
read_base58 n [] = some n
read_base58 n (c ∷ s) = elim (index_of c base58_alphabet) [
  | none ↦ none
  | some i ↦ read_base58 (n * 58 + i) s
]

-- decodeBase58
unfoldable pub decode_base58 : Text → Option (List ℕ)
unfolding read_base58 min_bytes leading
decode_base58 [] = none
decode_base58 (c ∷ s) = elim (read_base58 0 (c ∷ s)) [
  | none ↦ none
  | some n ↦ some (zeros (leading b'1' (c ∷ s)) ++ min_bytes (length (c ∷ s)) n)
]

unfoldable pub letters : List ℕ → Text
letters [] = []
letters (d ∷ ds) = letter d base58_alphabet ∷ letters ds

unfoldable pub ones : ℕ → Text
ones zero = []
ones (suc n) = b'1' ∷ ones n

-- encodeBase58: the digits, low first, then a one for each leading zero byte, and all of it reversed. Two
-- digits for each byte are enough fuel, since 256 is below 58 ^ 2.
unfoldable pub encode_base58 : List ℕ → Text
unfolding low_digits leading letters ones
encode_base58 value =
    reverse
      (letters (low_digits 58 (length value * 2) (big_endian 0 value)) ++ ones (leading 0 value))
