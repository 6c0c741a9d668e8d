-- ===== src/Source/Base58/Bytes.antt =====
-- Bytes and their value: zeros in front, and the rest, which the value gives back.
use mathlib.Core.Path.{subst}
use mathlib.Core.List.{reverse, reverse-cons, reverse-reverse}
use open_chain.Prelude.{
  ℕ, zero, suc, ◌+◌, ◌*◌, ◌/◌, ◌%◌, ◌^◌, ◌≤◌, ◌<◌, ◌≡◌, refl, sym, ap, ◌∙◌, false, List, [], ◌∷◌,
  ◌++◌, ◌==◌, if◌then◌else◌, All, arith, Bool-cases, inl, inr,
}
use open_chain.Bridge.Words.{big_endian, zeros}
use open_chain.Source.Base58.Digits.{value_of}
use open_chain.Source.Base58.{leading, low_digits}

-- Every end of a list has a value above zero.
abbrev pub Tight : List ℕ → Type 0
Tight [] = Unit
Tight (b ∷ bs) = (0 < value_of 256 (b ∷ bs)) × Tight bs

pub low_digits-value_of :
    (m f : ℕ) (bs : List ℕ)
    → m ≤ f
    → All (λ b. b < 256) bs
    → Tight bs
    → value_of 256 bs < 58 ^ m
    → low_digits 256 f (value_of 256 bs) ≡ bs
unfolding low_digits
low_digits-value_of m zero [] le hs ts h = refl
low_digits-value_of m (suc f) [] le hs ts h = refl
low_digits-value_of zero f (b ∷ bs) le hs (t, ts) h = absurd (omega (arith, t, h))
low_digits-value_of (suc m) zero (b ∷ bs) le hs ts h = absurd (omega arith)
low_digits-value_of (suc m) (suc f) (b ∷ bs) le (hb, hs) (t, ts) h =
    let n = value_of 256 (b ∷ bs) in
    let up : n / 256 ≡ value_of 256 bs = omega (arith, hb) in
    let down : n % 256 ≡ b = omega (arith, hb) in
    let some_left : (n == 0) ≡ false = ground (arith, t) in
    rw (some_left, up, down, low_digits)
      (ap (λ x. b ∷ x) (low_digits-value_of m f bs (omega arith) hs ts (omega (arith, h))))

-- Both readings of bytes agree.
big_endian-snoc :
    (acc b : ℕ) (bs : List ℕ) → big_endian acc (bs ++ b ∷ []) ≡ big_endian acc bs * 256 + b
unfolding big_endian
big_endian-snoc acc b [] = refl
big_endian-snoc acc b (c ∷ bs) = big_endian-snoc (acc * 256 + c) b bs

pub big_endian-reverse : (bs : List ℕ) → big_endian 0 (reverse bs) ≡ value_of 256 bs
unfolding big_endian
big_endian-reverse [] = refl
big_endian-reverse (b ∷ bs) =
    ap (big_endian 0) (reverse-cons b bs)
    ∙ big_endian-snoc 0 b (reverse bs)
    ∙ omega (arith, big_endian-reverse bs)

pub value_of-reverse : (bs : List ℕ) → value_of 256 (reverse bs) ≡ big_endian 0 bs
value_of-reverse bs = sym (big_endian-reverse (reverse bs)) ∙ ap (big_endian 0) (reverse-reverse bs)

Tight-snoc :
    (h : ℕ) (bs : List ℕ) → 0 < h → (0 < value_of 256 (bs ++ h ∷ [])) × Tight (bs ++ h ∷ [])
Tight-snoc h [] p = (omega (arith, p), (omega (arith, p), tt))
Tight-snoc h (b ∷ bs) p =
    let (q, t) = Tight-snoc h bs p in (omega (arith, q), (omega (arith, q), t))

-- The bytes behind the zeros in front.
abbrev pub behind_zeros : List ℕ → List ℕ
behind_zeros [] = []
behind_zeros (b ∷ bs) = if b == 0 then behind_zeros bs else b ∷ bs

pub record Splits (bs : List ℕ) : Type 0 where
  pub joined : zeros (leading 0 bs) ++ behind_zeros bs ≡ bs
  pub value : big_endian 0 (behind_zeros bs) ≡ big_endian 0 bs
  pub small : All (λ b. b < 256) (behind_zeros bs)
  pub tight : Tight (reverse (behind_zeros bs))

pub splits : (bs : List ℕ) → All (λ b. b < 256) bs → Splits bs
unfolding leading zeros big_endian
splits [] h = record { joined = refl; value = refl; small = tt; tight = tt }
splits (b ∷ bs) (h, hs) = elim (Bool-cases (b == 0)) [
  | inl e ↦
      let z : b ≡ 0 = ground (arith, e) in
      let s = splits bs hs in
      record {
        joined =
            rw (e, leading, behind_zeros, zeros)
              (ap (λ r. 0 ∷ r) s.joined ∙ ap (λ x. x ∷ bs) (sym z));
        value = rw (e, z, behind_zeros) s.value;
        small = rw (e, behind_zeros) s.small;
        tight = rw (e, behind_zeros) s.tight;
      }
  | inr e ↦ record {
    joined = rw (e, leading, behind_zeros, zeros) refl;
    value = rw (e, behind_zeros) refl;
    small = rw (e, behind_zeros) (h, hs);
    tight =
        rw (e, behind_zeros)
          (subst Tight (sym (reverse-cons b bs)) (Tight-snoc b (reverse bs) (ground (arith, e))).1);
  }
]
