-- ===== src/Bridge/Words/Addresses.antt =====
-- An address in a word and back: addressWord and wordAddress of internal/bridge/bridge.go.
use open_chain.Prelude.{
  ℕ, ◌/◌, ◌%◌, ◌<◌, ◌≡◌, refl, ap, ◌∙◌, true, some, List, [], ◌∷◌, ◌++◌, Text, codes, ◌==◌, length,
  arith, trim_prefix, strip_prefix?, to_lower, lower,
}
use open_chain.Prelude.Hex.{hex_digit, hex_encode, hex_decode, hex_decode-hex_encode}
use open_chain.Bridge.Words.{zeros, address_word, word_address}
use open_chain.Bridge.Words.RoundTrip.{AreBytes}

lower-hex_digit : (n : ℕ) → n < 16 → lower (hex_digit n) ≡ hex_digit n
unfolding lower hex_digit
lower-hex_digit n h = ground arith

to_lower-hex_encode : (bs : List ℕ) → AreBytes bs → to_lower (hex_encode bs) ≡ hex_encode bs
unfolding hex_encode
to_lower-hex_encode [] h = refl
to_lower-hex_encode (b ∷ bs) (h, hs) =
    rw
      (
        lower-hex_digit (b / 16) (omega arith),
        lower-hex_digit (b % 16) (omega arith),
        to_lower-hex_encode bs hs,
      )
      refl

trimmed : (s : Text) → trim_prefix (codes "0x") (to_lower (codes "0x" ++ s)) ≡ to_lower s
unfolding trim_prefix strip_prefix? lower
trimmed s = refl

address_word_lem :
    (address : Text) (bs : List ℕ)
    → hex_decode (trim_prefix (codes "0x") (to_lower address)) ≡ some bs
    → length bs ≡ 20
    → address_word address ≡ zeros 12 ++ bs
unfolding address_word
address_word_lem address bs e n = rw (e, n, address_word) refl

word_address_lem :
    (bs : List ℕ) → length bs ≡ 20 → word_address (zeros 12 ++ bs) ≡ codes "0x" ++ hex_encode bs
unfolding word_address zeros
word_address_lem bs n =
    let k : (length (zeros 12 ++ bs) == 32) ≡ true = ground (arith, n) in rw (k, word_address) refl

-- The address of twenty bytes, in lower case, comes back from its word.
pub word_address-address_word :
    (bs : List ℕ)
    → AreBytes bs
    → length bs ≡ 20
    → word_address (address_word (codes "0x" ++ hex_encode bs)) ≡ codes "0x" ++ hex_encode bs
word_address-address_word bs h n =
    ap word_address (
      address_word_lem (codes "0x" ++ hex_encode bs) bs
        (ap hex_decode (trimmed (hex_encode bs) ∙ to_lower-hex_encode bs h)
          ∙ hex_decode-hex_encode bs h)
        n)
    ∙ word_address_lem bs n
