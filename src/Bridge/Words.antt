-- ===== src/Bridge/Words.antt =====
-- The ABI words of internal/bridge/bridge.go: 32-byte words, addresses and dynamic bytes in them.
pub mod RoundTrip
pub mod Addresses
use open_chain.Prelude.{
  ℕ, zero, suc, ◌+◌, ◌-◌, ◌*◌, ◌/◌, ◌%◌, ◌^◌, Bool, true, false, not, ◌&&◌, ◌||◌, Option, none,
  some, List, [], ◌∷◌, ◌++◌, Text, codes, ltb, leb, ◌==◌, if◌then◌else◌, length, take, drop,
  to_lower, trim_prefix,
}
use open_chain.Prelude.Int.{ℤ, pos, ltb_ℤ, wrap_i64}
use open_chain.Prelude.Hex.{hex_encode, hex_decode}

-- (*big.Int).SetBytes: the number that bytes spell behind `acc`, the high byte first.
unfoldable pub big_endian : ℕ → List ℕ → ℕ
big_endian acc [] = acc
big_endian acc (b ∷ bs) = big_endian (acc * 256 + b) bs

-- (*big.Int).FillBytes of a number that fits.
unfoldable pub fill_bytes : ℕ → ℕ → List ℕ
fill_bytes zero w = []
fill_bytes (suc n) w = fill_bytes n (w / 256) ++ (w % 256) ∷ []

-- make([]byte, n)
unfoldable pub zeros : ℕ → List ℕ
zeros zero = []
zeros (suc n) = 0 ∷ zeros n

-- The offset word of a dynamic parameter behind five static ones: its last byte is 0xc0.
unfoldable pub offset_word : List ℕ
unfolding zeros
offset_word = zeros 31 ++ 0xc0 ∷ []

-- dynamicWord
unfoldable pub dynamic_word : List ℕ → List ℕ
dynamic_word value =
    let over = length value % 32 in
    offset_word
    ++ (fill_bytes 32 (length value) ++ (value ++ (if over == 0 then [] else zeros (32 - over))))

-- What a call of dynamicBytes ends in.
pub data Bytes : Type 0 where
  refused : Bytes
  found : List ℕ → Bytes
  panicked : Bytes

-- dynamicBytes behind the decoding: `offset` fits an int64, and offset + 32 is an int64 sum. The slice
-- from `offset` to that sum panics where the sum lies before it.
unfoldable pub bytes_at : List ℕ → ℕ → Bytes
bytes_at decoded offset =
    let behind = wrap_i64 (offset + 32) in
    let count = big_endian 0 (take 32 (drop offset decoded)) in
    if not (ltb offset (2 ^ 63)) || ltb_ℤ (pos (length decoded)) behind
    then refused
    else if ltb_ℤ behind (pos offset)
    then panicked
    else if ltb (2 ^ 20) count || ltb (length decoded) (offset + 32 + count)
    then refused
    else found (take count (drop (offset + 32) decoded))

-- dynamicBytes
unfoldable pub dynamic_bytes : Text → List ℕ → Bytes
unfolding bytes_at
dynamic_bytes value word = elim (hex_decode (trim_prefix (codes "0x") value)) [
  | none ↦ refused
  | some decoded ↦ if length word == 32 then bytes_at decoded (big_endian 0 word) else refused
]

-- The words of bytes whose number is a multiple of 32, with fuel.
cut_words : ℕ → List ℕ → List (List ℕ)
cut_words zero bs = []
cut_words (suc n) [] = []
cut_words (suc n) (b ∷ bs) = take 32 (b ∷ bs) ∷ cut_words n (drop 32 (b ∷ bs))

-- abiWords
unfoldable pub abi_words : Text → Option (List (List ℕ))
unfolding cut_words
abi_words value = elim (hex_decode (trim_prefix (codes "0x") value)) [
  | none ↦ none
  | some decoded ↦
      if length decoded == 0 || (not (length decoded % 32 == 0) || ltb (2 ^ 20) (length decoded))
      then none
      else some (cut_words (length decoded) decoded)
]

-- addressWord: 12 zeros and the 20 bytes, and only zeros where the text is no address.
unfoldable pub address_word : Text → List ℕ
address_word address = elim (hex_decode (trim_prefix (codes "0x") (to_lower address))) [
  | none ↦ zeros 32
  | some decoded ↦ if length decoded == 20 then zeros 12 ++ decoded else zeros 32
]

-- wordAddress
unfoldable pub word_address : List ℕ → Text
word_address word = if length word == 32 then codes "0x" ++ hex_encode (drop 12 word) else []
