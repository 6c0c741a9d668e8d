-- ===== src/Source/Base58/Digits.antt =====
-- The letters of Base58 and the values of digits.
use mathlib.Core.Path.{subst}
use open_chain.Prelude.{
  ℕ, zero, suc, ◌+◌, ◌*◌, ◌/◌, ◌^◌, ◌<◌, ◌≡◌, refl, sym, ap, ◌∙◌, Bool, true, false, ◌&&◌, Option,
  none, some, List, [], ◌∷◌, ◌==◌, length, All, arith, Bool-cases, inl, inr,
}
use open_chain.Source.Base58.{base58_alphabet, index_of, letter, low_digits}

-- The letters below n are found where they stand.
is_some : ℕ → Option ℕ → Bool
is_some i none = false
is_some i (some j) = i == j

abbrev found_below : ℕ → Bool
found_below zero = true
found_below (suc n) =
    is_some n (index_of (letter n base58_alphabet) base58_alphabet) && found_below n

all_found : found_below 58 ≡ true
unfolding index_of letter is_some
all_found = refl

is_some_lem : (i : ℕ) (o : Option ℕ) → is_some i o ≡ true → o ≡ some i
unfolding is_some
is_some_lem i none e = cc
is_some_lem i (some j) e = ground (arith, e)

found_below_lem :
    (n i : ℕ)
    → found_below n ≡ true
    → i < n
    → index_of (letter i base58_alphabet) base58_alphabet ≡ some i
found_below_lem zero i e h = absurd (omega arith)
found_below_lem (suc n) i e h = elim (Bool-cases (n == i)) [
  | inl p ↦
      let q : n ≡ i = ground (arith, p) in
      subst (λ j. index_of (letter j base58_alphabet) base58_alphabet ≡ some j) q
        (is_some_lem n (index_of (letter n base58_alphabet) base58_alphabet) (ground (arith, e)))
  | inr p ↦ found_below_lem n i (ground (arith, e)) (ground (arith, p, h))
]

pub index_of-letter :
    (i : ℕ) → i < 58 → index_of (letter i base58_alphabet) base58_alphabet ≡ some i
index_of-letter i h = found_below_lem 58 i all_found h

pub index_of-one : index_of b'1' base58_alphabet ≡ some 0
unfolding index_of
index_of-one = refl

-- A letter of a digit that is not zero is not the letter of zero.
pub letter_not_one : (i : ℕ) → 0 < i → i < 58 → (letter i base58_alphabet == b'1') ≡ false
letter_not_one i lo hi = elim (Bool-cases (letter i base58_alphabet == b'1')) [
  | inr e ↦ e
  | inl e ↦
      let p : letter i base58_alphabet ≡ b'1' = ground (arith, e) in
      let q = sym (index_of-letter i hi) ∙ ap (λ c. index_of c base58_alphabet) p ∙ index_of-one in
      absurd (ground (arith, q, lo))
]

-- The value of digits, the low one first.
abbrev pub value_of : ℕ → List ℕ → ℕ
value_of base [] = 0
value_of base (d ∷ ds) = d + base * value_of base ds

pub value_of-low_digits : (f n : ℕ) → n < 58 ^ f → value_of 58 (low_digits 58 f n) ≡ n
unfolding low_digits
value_of-low_digits zero n h = omega arith
value_of-low_digits (suc f) n h = elim (Bool-cases (n == 0)) [
  | inl e ↦ rw (e, low_digits) (ground (arith, e))
  | inr e ↦ rw (e, low_digits) (omega (arith, h, value_of-low_digits f (n / 58) (omega (arith, h))))
]

pub low_digits-All : (f n : ℕ) → All (λ d. d < 58) (low_digits 58 f n)
unfolding low_digits
low_digits-All zero n = tt
low_digits-All (suc f) n = elim (Bool-cases (n == 0)) [
  | inl e ↦ rw (e, low_digits) tt
  | inr e ↦ rw (e, low_digits) (omega arith, low_digits-All f (n / 58))
]

pub power_step : (n : ℕ) → 58 ^ suc n ≡ 58 * 58 ^ n
power_step n = omega arith

pub value_of_small : (ds : List ℕ) → All (λ d. d < 58) ds → value_of 58 ds < 58 ^ length ds
value_of_small [] h = omega arith
value_of_small (d ∷ ds) (h, hs) =
    let p : 58 ^ length (d ∷ ds) ≡ 58 * 58 ^ length ds = power_step (length ds) in
    omega (arith, p, h, value_of_small ds hs)
