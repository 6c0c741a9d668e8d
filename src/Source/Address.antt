-- ===== src/Source/Address.antt =====
-- The formats of EVM addresses and transaction hashes: internal/adapter/address.go. `none` is its error.
use open_chain.Prelude.{
  ℕ, ◌≤◌, ◌≡◌, refl, ap, sym, ◌∙◌, Bool, true, false, ◌&&◌, ◌||◌, Option, none, some, [], ◌∷◌, Text,
  codes, leb, ◌==◌, if◌then◌else◌, length, trim_space, strip_prefix?, is_space, trim_space-solid,
  lower, to_lower, to_lower_idem, All, arith, Bool-cases, inl, inr,
}
use mathlib.Core.Path.{subst, ap₂}

-- The test of one character.
unfoldable pub is_hex_letter : ℕ → Bool
is_hex_letter c =
    (leb b'0' c && leb c b'9') || ((leb b'a' c && leb c b'f') || (leb b'A' c && leb c b'F'))

unfoldable pub all_hex : Text → Bool
unfolding is_hex_letter
all_hex [] = true
all_hex (c ∷ s) = let rest = all_hex s in is_hex_letter c && rest

-- strings.HasPrefix with 0x, and hexadecimal digits behind it.
unfoldable pub is_prefixed_hex : Text → Bool
unfolding all_hex
is_prefixed_hex value = elim (strip_prefix? (codes "0x") value) [
  | none ↦ false
  | some s ↦ all_hex s
]

-- The form of both: so many characters, 0x in front.
unfoldable pub normalize_hex : ℕ → Text → Option Text
normalize_hex size value =
    let v = trim_space value in
    if length v == size && is_prefixed_hex v then some (to_lower v) else none

-- normalizeEthereumAddress
unfoldable pub normalize_ethereum_address : Text → Option Text
unfolding normalize_hex
normalize_ethereum_address value = normalize_hex 42 value

-- normalizeEthereumHash
unfoldable pub normalize_ethereum_hash : Text → Option Text
unfolding normalize_hex
normalize_ethereum_hash value = normalize_hex 66 value

-- 0x, and so many hexadecimal digits in lower case.
abbrev pub IsLowerHex : ℕ → Text → Type 0
IsLowerHex size a =
    (s : Text) × (a ≡ b'0' ∷ b'x' ∷ s)
    × (length a ≡ size)
    × All (λ c. (b'0' ≤ c) × (c ≤ b'f') × ((leb c b'9' || leb b'a' c) ≡ true)) s

prefixed :
    (v : Text) → is_prefixed_hex v ≡ true → (s : Text) × (v ≡ b'0' ∷ b'x' ∷ s) × (all_hex s ≡ true)
unfolding is_prefixed_hex strip_prefix?
prefixed [] e = cc
prefixed (c ∷ []) e = elim (Bool-cases (b'0' == c)) [
  | inl p ↦ absurd (ground (arith, e, p))
  | inr p ↦ absurd (ground (arith, e, p))
]
prefixed (c ∷ d ∷ s) e = elim (Bool-cases (b'0' == c)) [
  | inr p ↦ absurd (ground (arith, e, p))
  | inl p ↦ elim (Bool-cases (b'x' == d)) [
    | inr q ↦ absurd (ground (arith, e, p, q))
    | inl q ↦ (
      s,
      ap₂ (λ x y. x ∷ y ∷ s) (let r : c ≡ b'0' = ground (arith, p) in r)
          (let r : d ≡ b'x' = ground (arith, q) in r),
      ground (arith, e, p, q),
    )
  ]
]

length-to_lower : (s : Text) → length (to_lower s) ≡ length s
length-to_lower [] = refl
length-to_lower (c ∷ s) = omega (arith, length-to_lower s)

all_hex-to_lower :
    (s : Text)
    → all_hex s ≡ true
    → All (λ c. (b'0' ≤ c) × (c ≤ b'f') × ((leb c b'9' || leb b'a' c) ≡ true)) (to_lower s)
unfolding all_hex is_hex_letter lower
all_hex-to_lower [] e = tt
all_hex-to_lower (c ∷ s) e = (
  (ground (arith, e), ground (arith, e), ground (arith, e)),
  all_hex-to_lower s (ground (arith, e)),
)

prefixed_back : (s : Text) → is_prefixed_hex (b'0' ∷ b'x' ∷ s) ≡ all_hex s
unfolding is_prefixed_hex strip_prefix?
prefixed_back s = refl

lower_all_hex :
    (s : Text)
    → All (λ c. (b'0' ≤ c) × (c ≤ b'f') × ((leb c b'9' || leb b'a' c) ≡ true)) s
    → (all_hex s ≡ true) × All (λ c. is_space c ≡ false) s
unfolding all_hex is_hex_letter is_space
lower_all_hex [] h = (refl, tt)
lower_all_hex (c ∷ s) (h, hs) =
    let (a, b) = lower_all_hex s hs in (ground (arith, h, a), (ground (arith, h), b))

-- What has a normal form has 0x and hexadecimal digits in lower case for it, of the given length in all,
-- and that is its own normal form.
normalize_hex-IsLowerHex :
    (size : ℕ) (value a : Text)
    → normalize_hex size value ≡ some a
    → IsLowerHex size a × (normalize_hex size a ≡ some a)
unfolding normalize_hex
normalize_hex-IsLowerHex size value a e =
    let v = trim_space value in
    elim (Bool-cases (length v == size && is_prefixed_hex v)) [
      | inr n ↦ absurd (ground (arith, e, n))
      | inl y ↦
          let (s, p, digits) = prefixed v (ground (arith, y)) in
          let q : to_lower v ≡ a = ground (arith, e, y) in
          let long : length v ≡ size = ground (arith, y) in
          let form : a ≡ b'0' ∷ b'x' ∷ to_lower s = sym q ∙ ap to_lower p ∙ unfold lower in refl in
          let all = all_hex-to_lower s digits in
          let (again, solid) = lower_all_hex (to_lower s) all in
          let size_a : length a ≡ size = ap length (sym q) ∙ length-to_lower v ∙ long in
          let trimmed : trim_space a ≡ a = trim_space-solid a (
            subst (All (λ c. is_space c ≡ false)) (sym form)
              (unfold is_space in (refl, (refl, solid)))) in
          let is_form : is_prefixed_hex a ≡ true =
            ap is_prefixed_hex form ∙ prefixed_back (to_lower s) ∙ again in
          let kept : to_lower a ≡ a = ap to_lower (sym q) ∙ to_lower_idem v ∙ q in
          let test : length (trim_space a) == size && is_prefixed_hex (trim_space a) ≡ true =
            rw trimmed (ground (arith, size_a, is_form)) in
          let again_normal : normalize_hex size a ≡ some a =
            rw (test, normalize_hex)
              (ap (λ t. some (to_lower t)) trimmed ∙ ap (λ t. some t) kept) in
          ((to_lower s, form, size_a, all), again_normal)
    ]

-- A text that is taken for an Ethereum address has 0x and 40 hexadecimal digits in lower case for its
-- normal form, and that is its own normal form.
pub normalize_ethereum_address-IsLowerHex :
    (value a : Text)
    → normalize_ethereum_address value ≡ some a
    → IsLowerHex 42 a × (normalize_ethereum_address a ≡ some a)
unfolding normalize_ethereum_address
normalize_ethereum_address-IsLowerHex value a e = normalize_hex-IsLowerHex 42 value a e
