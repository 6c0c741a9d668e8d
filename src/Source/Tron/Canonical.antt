-- ===== src/Source/Tron/Canonical.antt =====
-- The canonical form of a TRON address is its own normal form.
use mathlib.Core.Path.{subst}
use open_chain.Prelude.{
  ℕ, zero, suc, ◌*◌, ◌<◌, ◌≡◌, ◌≢◌, refl, ap, Bool, true, false, ◌&&◌, some, List, [], ◌∷◌, ◌++◌,
  Text, codes, same, same_refl, ◌==◌, if◌then◌else◌, length, length-append, length-take, take, drop,
  All, All-append, All-reverse, arith, Bool-cases, Option-cases, inl, inr, is_space, trim_space,
  trim_space-solid, trim_prefix,
}
use open_chain.Prelude.Hex.{hex_decode, hex_decode-All}
use open_chain.Bridge.Words.{big_endian}
use open_chain.Source.Base58.{
  base58_alphabet, letter, letters, ones, leading, low_digits, encode_base58, decode_base58,
}
use open_chain.Source.Base58.Digits.{low_digits-All}
use open_chain.Source.Base58.RoundTrip.{decode_base58-encode_base58}
use open_chain.Source.Tron.{
  starts_with, tron_checksum, is_tron, normalize_tron_address, tron_address_from_hex,
}

-- No letter of Base58 is a blank.
abbrev blank_free : ℕ → Bool
blank_free zero = true
blank_free (suc n) = if is_space (letter n base58_alphabet) then false else blank_free n

all_blank_free : blank_free 58 ≡ true
unfolding is_space letter
all_blank_free = refl

blank_free_lem :
    (n i : ℕ) → blank_free n ≡ true → i < n → is_space (letter i base58_alphabet) ≡ false
blank_free_lem zero i e h = absurd (omega arith)
blank_free_lem (suc n) i e h = elim (Bool-cases (n == i)) [
  | inl p ↦
      let q : n ≡ i = ground (arith, p) in
      subst (λ j. is_space (letter j base58_alphabet) ≡ false) q (ground (arith, e))
  | inr p ↦ blank_free_lem n i (ground (arith, e)) (ground (arith, p, h))
]

letters-All : (ds : List ℕ) → All (λ d. d < 58) ds → All (λ c. is_space c ≡ false) (letters ds)
unfolding letters
letters-All [] h = tt
letters-All (d ∷ ds) (h, hs) = (blank_free_lem 58 d all_blank_free h, letters-All ds hs)

ones-All : (k : ℕ) → All (λ c. is_space c ≡ false) (ones k)
unfolding ones is_space
ones-All zero = tt
ones-All (suc k) = (refl, ones-All k)

trim_space-encode_base58 : (bs : List ℕ) → trim_space (encode_base58 bs) ≡ encode_base58 bs
unfolding encode_base58
trim_space-encode_base58 bs =
    let ds = low_digits 58 (length bs * 2) (big_endian 0 bs) in
    trim_space-solid (encode_base58 bs) (
      All-reverse (λ c. is_space c ≡ false) (letters ds ++ ones (leading 0 bs))
        (All-append (λ c. is_space c ≡ false) (letters ds) (ones (leading 0 bs))
          (letters-All ds (low_digits-All (length bs * 2) (big_endian 0 bs)))
          (ones-All (leading 0 bs))))

take-append : (xs ys : List ℕ) → take (length xs) (xs ++ ys) ≡ xs
take-append [] ys = refl
take-append (x ∷ xs) ys = ap (λ r. x ∷ r) (take-append xs ys)

drop-append : (xs ys : List ℕ) → drop (length xs) (xs ++ ys) ≡ ys
drop-append [] ys = refl
drop-append (x ∷ xs) ys = drop-append xs ys

take-All : (n : ℕ) (xs : List ℕ) → All (λ b. b < 256) xs → All (λ b. b < 256) (take n xs)
take-All zero xs h = tt
take-All (suc n) [] h = tt
take-All (suc n) (x ∷ xs) (h, hs) = (h, take-All n xs hs)

module _ (sha256 : List ℕ → List ℕ)
    (digest : (bs : List ℕ) → (length (sha256 bs) ≡ 32) × All (λ b. b < 256) (sha256 bs)) where
  -- The bytes of an address with its checksum.
  sealed-IsTron :
      (bs : List ℕ)
      → length bs ≡ 21
      → starts_with 0x41 bs ≡ true
      → is_tron sha256 (bs ++ tron_checksum sha256 bs) ≡ true
  unfolding is_tron starts_with tron_checksum
  sealed-IsTron bs n f =
      let sum = tron_checksum sha256 bs in
      let size : length (bs ++ sum) ≡ 25 = omega (
        arith,
        n,
        length-append bs sum,
        length-take 4 (sha256 (sha256 bs)),
        (digest (sha256 bs)).0,
      ) in
      let front : take 21 (bs ++ sum) ≡ bs =
        subst (λ k. take k (bs ++ sum) ≡ bs) n (take-append bs sum) in
      let back : drop 21 (bs ++ sum) ≡ sum =
        subst (λ k. drop k (bs ++ sum) ≡ sum) n (drop-append bs sum) in
      let first : starts_with 0x41 (bs ++ sum) ≡ true = starts bs sum f in
      let seal : same (drop 21 (bs ++ sum)) (tron_checksum sha256 (take 21 (bs ++ sum))) ≡ true =
        rw (front, back) (same_refl sum) in
      ground (arith, size, first, seal)
    where
      starts : (xs ys : List ℕ) → starts_with 0x41 xs ≡ true → starts_with 0x41 (xs ++ ys) ≡ true
      starts [] ys e = absurd (cc)
      starts (x ∷ xs) ys e = e

  -- The address that a hexadecimal text of 21 bytes is turned into is its own normal form.
  pub normalize_tron_address-tron_address_from_hex :
      (value a : Text)
      → tron_address_from_hex sha256 value ≡ some a
      → normalize_tron_address sha256 a ≡ some a
  unfolding tron_address_from_hex normalize_tron_address
  normalize_tron_address-tron_address_from_hex value a e =
      elim (Option-cases (hex_decode (trim_prefix (codes "0x") (trim_space value)))) [
        | inl n ↦ absurd (ground (arith, e, n))
        | inr (bs, found) ↦ elim (Bool-cases (length bs == 21 && starts_with 0x41 bs)) [
          | inr n ↦ absurd (ground (arith, e, found, n))
          | inl y ↦
              let sealed = bs ++ tron_checksum sha256 bs in
              let p : encode_base58 sealed ≡ a = ground (arith, e, found, y) in
              let size : length bs ≡ 21 = ground (arith, y) in
              let first : starts_with 0x41 bs ≡ true = ground (arith, y) in
              let bytes : All (λ b. b < 256) sealed =
                All-append (λ b. b < 256) bs (tron_checksum sha256 bs) (hex_decode-All _ bs found)
                  (unfold tron_checksum in
                    take-All 4 (sha256 (sha256 bs)) (digest (sha256 bs)).1) in
              let read : decode_base58 (encode_base58 sealed) ≡ some sealed =
                decode_base58-encode_base58 sealed (not_nil bs (tron_checksum sha256 bs) first)
                  bytes in
              rw (← p) (
                rw
                  (
                    trim_space-encode_base58 sealed,
                    read,
                    sealed-IsTron bs size first,
                    normalize_tron_address,
                  )
                  (ap (λ t. some t) (trim_space-encode_base58 sealed)))
        ]
      ]
    where
      not_nil : (xs ys : List ℕ) → starts_with 0x41 xs ≡ true → (xs ++ ys) ≢ []
      not_nil [] ys e = absurd (cc)
      not_nil (x ∷ xs) ys e = λ q. absurd (cc)
