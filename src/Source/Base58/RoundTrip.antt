-- ===== src/Source/Base58/RoundTrip.antt =====
-- What is encoded in Base58 is decoded.
use mathlib.Core.Path.{subst}
use mathlib.Core.List.{reverse, reverse-cons, reverse-append, reverse-reverse}
use open_chain.Prelude.{
  ℕ, zero, suc, ◌+◌, ◌*◌, ◌/◌, ◌%◌, ◌^◌, ◌≤◌, ◌<◌, ◌≡◌, ◌≢◌, refl, sym, ap, ◌∙◌, false, some, List,
  [], ◌∷◌, ◌++◌, Text, ◌==◌, length, length-append, All, All-reverse, arith, Bool-cases,
  Option-cases, inl, inr,
}
use open_chain.Bridge.Words.{big_endian, zeros}
use open_chain.Source.Base58.{
  base58_alphabet, index_of, letter, leading, low_digits, min_bytes, read_base58, decode_base58,
  letters, ones, encode_base58,
}
use open_chain.Source.Base58.Digits.{
  value_of, value_of-low_digits, low_digits-All, value_of_small, index_of-letter, index_of-one,
  letter_not_one, power_step,
}
use open_chain.Source.Base58.Bytes.{low_digits-value_of, value_of-reverse, behind_zeros, splits}

ones-snoc : (k : ℕ) → ones k ++ b'1' ∷ [] ≡ b'1' ∷ ones k
unfolding ones
ones-snoc zero = refl
ones-snoc (suc k) = ap (λ s. b'1' ∷ s) (ones-snoc k)

reverse-ones : (k : ℕ) → reverse (ones k) ≡ ones k
unfolding ones
reverse-ones zero = refl
reverse-ones (suc k) =
    reverse-cons b'1' (ones k) ∙ ap (λ s. s ++ b'1' ∷ []) (reverse-ones k) ∙ ones-snoc k

read_base58-ones : (k : ℕ) (s : Text) → read_base58 0 (ones k ++ s) ≡ read_base58 0 s
unfolding ones read_base58
read_base58-ones zero s = refl
read_base58-ones (suc k) s = rw (index_of-one, read_base58) (read_base58-ones k s)

read_base58-snoc :
    (acc m i : ℕ) (s : Text)
    → i < 58
    → read_base58 acc s ≡ some m
    → read_base58 acc (s ++ letter i base58_alphabet ∷ []) ≡ some (m * 58 + i)
unfolding read_base58
read_base58-snoc acc m i [] h e =
    rw (index_of-letter i h, read_base58) (ap (λ a. some (a * 58 + i)) (some_injective e))
  where
    some_injective : {x y : ℕ} → some x ≡ some y → x ≡ y
    some_injective e = ground (arith, e)
read_base58-snoc acc m i (c ∷ s) h e = elim (Option-cases (index_of c base58_alphabet)) [
  | inl n ↦ absurd (ground (arith, e, n))
  | inr (d, n) ↦
      rw (n, read_base58) (read_base58-snoc (acc * 58 + d) m i s h (rw (n, read_base58) at e))
]

read_base58-letters :
    (ds : List ℕ)
    → All (λ d. d < 58) ds
    → read_base58 0 (reverse (letters ds)) ≡ some (value_of 58 ds)
unfolding letters read_base58
read_base58-letters [] h = refl
read_base58-letters (d ∷ ds) (h, hs) =
    ap (read_base58 0) (reverse-cons (letter d base58_alphabet) (letters ds))
    ∙ read_base58-snoc 0 (value_of 58 ds) d (reverse (letters ds)) h (read_base58-letters ds hs)
    ∙ ap (λ n. some n) (omega arith)

leading-ones : (k : ℕ) (s : Text) → leading b'1' (ones k ++ s) ≡ k + leading b'1' s
unfolding leading ones
leading-ones zero s = omega arith
leading-ones (suc k) s = omega (arith, leading-ones k s)

-- The text of a positive number begins with another letter than that of zero.
begins :
    (f n : ℕ)
    → 0 < n
    → n < 58 ^ f
    → (c : ℕ) × (t : Text) × (reverse (letters (low_digits 58 f n)) ≡ c ∷ t) × ((c == b'1') ≡ false)
unfolding low_digits letters
begins zero n p h = absurd (omega arith)
begins (suc f) n p h =
    let more : (n == 0) ≡ false = ground (arith, p) in
    let back =
      reverse-cons (letter (n % 58) base58_alphabet) (letters (low_digits 58 f (n / 58))) in
    elim (Bool-cases (n / 58 == 0)) [
      | inl e ↦
          let z : n / 58 ≡ 0 = ground (arith, e) in
          (
            letter (n % 58) base58_alphabet,
            [],
            rw (more, low_digits)
                (back
                  ∙ ap
                      (λ x.
                        reverse (letters (low_digits 58 f x))
                        ++ letter (n % 58) base58_alphabet ∷ [])
                      z
                  ∙ nothing f (letter (n % 58) base58_alphabet)),
            letter_not_one (n % 58) (omega (arith, z, p)) (omega arith),
          )
      | inr e ↦
          let (c, t, q, other) = begins f (n / 58) (ground (arith, e)) (omega (arith, h)) in
          (
            c,
            t ++ letter (n % 58) base58_alphabet ∷ [],
            rw (more, low_digits) (back ∙ ap (λ s. s ++ letter (n % 58) base58_alphabet ∷ []) q),
            other,
          )
    ]
  where
    nothing : (f c : ℕ) → reverse (letters (low_digits 58 f 0)) ++ c ∷ [] ≡ c ∷ []
    nothing zero c = refl
    nothing (suc f) c = refl

leading-letters : (f n : ℕ) → n < 58 ^ f → leading b'1' (reverse (letters (low_digits 58 f n))) ≡ 0
unfolding leading low_digits letters
leading-letters zero n h = refl
leading-letters (suc f) n h = elim (Bool-cases (n == 0)) [
  | inl e ↦ rw (e, low_digits) refl
  | inr e ↦
      let (c, t, q, other) = begins (suc f) n (ground (arith, e)) h in
      ap (leading b'1') q ∙ rw (other, leading) refl
]

-- Two digits for each byte are enough.
fuel_bound : (bs : List ℕ) → All (λ b. b < 256) bs → value_of 256 bs < 58 ^ (length bs * 2)
fuel_bound [] h = omega arith
fuel_bound (b ∷ bs) (h, hs) =
    let p : 58 ^ (length (b ∷ bs) * 2) ≡ 58 * 58 ^ suc (length bs * 2) =
      ap (λ n. 58 ^ n) (omega arith) ∙ power_step (suc (length bs * 2)) in
    omega (arith, p, power_step (length bs * 2), h, fuel_bound bs hs)

length-letters : (ds : List ℕ) → length (letters ds) ≡ length ds
unfolding letters
length-letters [] = refl
length-letters (d ∷ ds) = omega (arith, length-letters ds)

length-reverse : (s : List ℕ) → length (reverse s) ≡ length s
length-reverse [] = refl
length-reverse (c ∷ s) =
    ap length (reverse-cons c s)
    ∙ length-append (reverse s) (c ∷ [])
    ∙ omega (arith, length-reverse s)

-- What a text is decoded to, by the number it reads and the ones in front of it.
decode_base58_lem :
    (t : Text) (n : ℕ) (bs : List ℕ)
    → bs ≢ []
    → read_base58 0 t ≡ some n
    → zeros (leading b'1' t) ++ min_bytes (length t) n ≡ bs
    → decode_base58 t ≡ some bs
unfolding decode_base58 min_bytes low_digits leading zeros
decode_base58_lem [] n bs some_bytes e p = absurd (some_bytes (sym p))
decode_base58_lem (c ∷ t) n bs some_bytes e p = rw (e, decode_base58) (ap (λ x. some x) p)

-- Any bytes but none at all come back from their Base58 text.
pub decode_base58-encode_base58 :
    (bs : List ℕ) → bs ≢ [] → All (λ b. b < 256) bs → decode_base58 (encode_base58 bs) ≡ some bs
unfolding encode_base58 min_bytes
decode_base58-encode_base58 bs some_bytes h =
    let n = big_endian 0 bs in
    let k = leading 0 bs in
    let ds = low_digits 58 (length bs * 2) n in
    let back = reverse (letters ds) in
    let s = splits bs h in
    let spelled : encode_base58 bs ≡ ones k ++ back =
      reverse-append (letters ds) (ones k) ∙ ap (λ o. o ++ back) (reverse-ones k) in
    let fits : n < 58 ^ (length bs * 2) =
      subst (λ m. m < 58 ^ (length bs * 2)) (value_of-reverse bs)
        (subst (λ m. value_of 256 (reverse bs) < 58 ^ (m * 2)) (length-reverse bs)
          (fuel_bound (reverse bs) (All-reverse (λ b. b < 256) bs h))) in
    let digits : value_of 58 ds ≡ n = value_of-low_digits (length bs * 2) n fits in
    let read : read_base58 0 (ones k ++ back) ≡ some n =
      read_base58-ones k back
      ∙ read_base58-letters ds (low_digits-All (length bs * 2) n)
      ∙ ap (λ m. some m) digits in
    let front : leading b'1' (ones k ++ back) ≡ k =
      leading-ones k back ∙ omega (arith, leading-letters (length bs * 2) n fits) in
    let rest = behind_zeros bs in
    let value : value_of 256 (reverse rest) ≡ n = value_of-reverse rest ∙ s.value in
    let enough : length ds ≤ length (ones k ++ back) =
      omega (arith, length-append (ones k) back, length-reverse (letters ds), length-letters ds) in
    let below : value_of 256 (reverse rest) < 58 ^ length ds =
      omega (arith, value, digits, value_of_small ds (low_digits-All (length bs * 2) n)) in
    let bytes : min_bytes (length (ones k ++ back)) n ≡ rest =
      ap (λ m. reverse (low_digits 256 (length (ones k ++ back)) m)) (sym value)
      ∙ ap reverse (
          low_digits-value_of (length ds) (length (ones k ++ back)) (reverse rest) enough
            (All-reverse (λ b. b < 256) rest s.small) s.tight below)
      ∙ reverse-reverse rest in
    ap decode_base58 spelled
    ∙ decode_base58_lem (ones k ++ back) n bs some_bytes read (
        ap (λ m. zeros m ++ min_bytes (length (ones k ++ back)) n) front
        ∙ ap (λ r. zeros k ++ r) bytes
        ∙ s.joined)
