-- ===== src/Prelude/Hex.antt =====
-- encoding/hex: bytes as pairs of hexadecimal digits.
use Prim.Native.Nat.{ℕ, ◌+◌, ◌-◌, ◌*◌, ◌/◌, ◌%◌, ◌<◌}
use mathlib.Core.Path.{◌≡◌, refl, subst}
use mathlib.Core.Logic.{inl, inr}
use mathlib.Core.Bool.{◌&&◌}
use mathlib.Core.List.{List, [], ◌∷◌}
use mathlib.Core.Option.{Option, none, some}
use native.Mathlib.Omega.{arith}
use open_chain.Prelude.Tests.{ltb, leb, if◌then◌else◌, Option-cases}
use open_chain.Prelude.Lists.{All, length}
use open_chain.Prelude.Strings.{Text}

unfoldable pub hex_digit : ℕ → ℕ
hex_digit n = if ltb n 10 then b'0' + n else b'a' + (n - 10)

unfoldable pub hex_value : ℕ → Option ℕ
hex_value c =
    if leb b'0' c && leb c b'9'
    then some (c - b'0')
    else if leb b'a' c && leb c b'f'
    then some (c - b'a' + 10)
    else if leb b'A' c && leb c b'F'
    then some (c - b'A' + 10)
    else none

-- EncodeToString
unfoldable pub hex_encode : List ℕ → Text
hex_encode [] = []
hex_encode (b ∷ bs) = hex_digit (b / 16) ∷ hex_digit (b % 16) ∷ hex_encode bs

joined : Option ℕ → Option ℕ → Option (List ℕ) → Option (List ℕ)
joined (some h) (some l) (some bs) = some ((h * 16 + l) ∷ bs)
joined _ _ _ = none

-- DecodeString; any error is `none`.
unfoldable pub hex_decode : Text → Option (List ℕ)
unfolding joined
hex_decode [] = some []
hex_decode (c ∷ []) = none
hex_decode (c ∷ d ∷ s) = joined (hex_value c) (hex_value d) (hex_decode s)

hex_value-hex_digit : (n : ℕ) → n < 16 → hex_value (hex_digit n) ≡ some n
unfolding hex_value hex_digit
hex_value-hex_digit n h = ground arith

-- What was encoded is decoded.
pub hex_decode-hex_encode :
    (bs : List ℕ) → All (λ b. b < 256) bs → hex_decode (hex_encode bs) ≡ some bs
unfolding hex_decode hex_encode joined
hex_decode-hex_encode [] h = refl
hex_decode-hex_encode (b ∷ bs) (h, hs) =
    rw
      (
        hex_value-hex_digit (b / 16) (omega arith),
        hex_value-hex_digit (b % 16) (omega arith),
        hex_decode-hex_encode bs hs,
      )
      (let e : b / 16 * 16 + b % 16 ≡ b = omega arith in rw e refl)

hex_value-lt : (c d : ℕ) → hex_value c ≡ some d → d < 16
unfolding hex_value
hex_value-lt c d e = ground (arith, e)

-- What is decoded are bytes.
pub hex_decode-All : (t : Text) (bs : List ℕ) → hex_decode t ≡ some bs → All (λ b. b < 256) bs
unfolding hex_decode joined
hex_decode-All [] bs e = let p : [] ≡ bs = cc in subst (All (λ b. b < 256)) p tt
hex_decode-All (c ∷ []) bs e = cc
hex_decode-All (c ∷ d ∷ t) bs e = elim (Option-cases (hex_value c)) [
  | inl n ↦ absurd (ground (arith, e, n))
  | inr (h, p) ↦ elim (Option-cases (hex_value d)) [
    | inl n ↦ absurd (ground (arith, e, p, n))
    | inr (l, q) ↦ elim (Option-cases (hex_decode t)) [
      | inl n ↦ absurd (ground (arith, e, p, q, n))
      | inr (cs, r) ↦
          let b : (h * 16 + l) ∷ cs ≡ bs = ground (arith, e, p, q, r) in
          subst (All (λ b. b < 256)) b
            (omega (arith, hex_value-lt c h p, hex_value-lt d l q), hex_decode-All t cs r)
    ]
  ]
]

known : Option ℕ → Option ℕ → List ℕ → List ℕ
known (some h) (some l) bs = (h * 16 + l) ∷ bs
known _ _ bs = []

-- What DecodeString returns beside an error too: the pairs in front of the first that is none.
unfoldable pub hex_prefix : Text → List ℕ
unfolding known
hex_prefix [] = []
hex_prefix (c ∷ []) = []
hex_prefix (c ∷ d ∷ s) = known (hex_value c) (hex_value d) (hex_prefix s)

pub length-hex_encode : (bs : List ℕ) → length (hex_encode bs) ≡ length bs + length bs
unfolding hex_encode
length-hex_encode [] = omega arith
length-hex_encode (b ∷ bs) = omega (arith, length-hex_encode bs)
