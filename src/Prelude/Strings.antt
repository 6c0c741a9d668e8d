-- ===== src/Prelude/Strings.antt =====
-- Go strings as lists of bytes. Letters are ASCII: `strings.EqualFold` and `strings.ToLower` fold
-- A-Z only, which is what addresses, hashes and identifiers hold.
use Prim.Native.Char.{code}
use Prim.Native.Nat.{ℕ, ◌+◌}
use Prim.Native.String.{String}
use mathlib.Core.Path.{ap, ◌∙◌, ◌≡◌, refl, ap₂}
use mathlib.Core.Logic.{◌↔◌}
use mathlib.Core.Bool.{Bool, true, false, ◌&&◌, ◌||◌}
use mathlib.Core.Option.{Option, none, some}
use open_chain.Prelude.Lists.{All, All-reverse}
use mathlib.Core.List.{reverse, reverse-reverse, List, [], ◌∷◌, map}
use native.Mathlib.Omega.{arith}
use open_chain.Prelude.Tests.{ltb, leb, ◌==◌, if◌then◌else◌}

abbrev pub Text : Type 0
Text = List ℕ

-- The bytes of an ASCII literal.
abbrev pub codes : String → Text
codes String.[] = []
codes (String.◌∷◌ c s) = code c ∷ codes s

-- `a == b` of Go strings.
unfoldable pub same : Text → Text → Bool
same [] [] = true
same [] (d ∷ t) = false
same (c ∷ s) [] = false
same (c ∷ s) (d ∷ t) = c == d && same s t

pub same_iff : (s t : Text) → (same s t ≡ true) ↔ (s ≡ t)
unfolding same
same_iff [] [] = (λ h. refl, λ h. refl)
same_iff [] (d ∷ t) = (λ h. cc, λ h. cc)
same_iff (c ∷ s) [] = (λ h. cc, λ h. cc)
same_iff (c ∷ s) (d ∷ t) =
    let ih = same_iff s t in (λ h. ground (arith, ih), λ h. ground (arith, ih))

pub same_refl : (s : Text) → same s s ≡ true
same_refl s = (same_iff s s).1 refl

pub same_comm : (s t : Text) → same s t ≡ same t s
same_comm s t = ground (arith, same_iff s t, same_iff t s)

-- `a < b` of Go strings: lexicographic by bytes.
unfoldable pub before : Text → Text → Bool
before [] [] = false
before [] (d ∷ t) = true
before (c ∷ s) [] = false
before (c ∷ s) (d ∷ t) = if ltb c d then true else if ltb d c then false else before s t

pub before_irrefl : (s : Text) → before s s ≡ false
unfolding before
before_irrefl [] = refl
before_irrefl (c ∷ s) = ground (arith, before_irrefl s)

pub before_trans : (r s t : Text) → before r s ≡ true → before s t ≡ true → before r t ≡ true
unfolding before
before_trans [] [] t h k = cc
before_trans [] (d ∷ s) [] h k = cc
before_trans [] (d ∷ s) (e ∷ t) h k = refl
before_trans (c ∷ r) [] t h k = cc
before_trans (c ∷ r) (d ∷ s) [] h k = cc
before_trans (c ∷ r) (d ∷ s) (e ∷ t) h k = ground (arith, before_trans r s t)

-- Two texts that neither comes before the other are one text.
pub before_antisym : (s t : Text) → before s t ≡ false → before t s ≡ false → s ≡ t
unfolding before
before_antisym [] [] h k = refl
before_antisym [] (d ∷ t) h k = cc
before_antisym (c ∷ s) [] h k = cc
before_antisym (c ∷ s) (d ∷ t) h k = ground (arith, before_antisym s t)

unfoldable pub lower : ℕ → ℕ
lower c = if leb b'A' c && leb c b'Z' then c + 32 else c

-- `strings.ToLower`
abbrev pub to_lower : Text → Text
to_lower = map lower

-- `strings.EqualFold`
unfoldable pub equal_fold : Text → Text → Bool
equal_fold s t = same (to_lower s) (to_lower t)

unfoldable pub is_empty : Text → Bool
is_empty [] = true
is_empty (c ∷ s) = false

pub lower_idem : (c : ℕ) → lower (lower c) ≡ lower c
unfolding lower
lower_idem c = ground arith

pub to_lower_idem : (s : Text) → to_lower (to_lower s) ≡ to_lower s
to_lower_idem [] = refl
to_lower_idem (c ∷ s) = ap₂ ◌∷◌ (lower_idem c) (to_lower_idem s)

pub equal_fold_refl : (s : Text) → equal_fold s s ≡ true
unfolding equal_fold
equal_fold_refl s = same_refl (to_lower s)

-- Space, and the control characters 9 to 13.
unfoldable pub is_space : ℕ → Bool
is_space c = c == 32 || (leb 9 c && leb c 13)

trim_left : Text → Text
trim_left [] = []
trim_left (c ∷ s) = if is_space c then trim_left s else c ∷ s

-- `strings.TrimSpace`
unfoldable pub trim_space : Text → Text
unfolding trim_left is_space
trim_space s = reverse (trim_left (reverse (trim_left s)))

-- A text without blanks is left alone.
trim_left-solid : (s : Text) → All (λ c. is_space c ≡ false) s → trim_left s ≡ s
unfolding trim_left
trim_left-solid [] h = refl
trim_left-solid (c ∷ s) (h, hs) = rw (h, trim_left) refl

pub trim_space-solid : (s : Text) → All (λ c. is_space c ≡ false) s → trim_space s ≡ s
unfolding trim_space
trim_space-solid s h =
    ap (λ t. reverse (trim_left (reverse t))) (trim_left-solid s h)
    ∙ ap reverse (trim_left-solid (reverse s) (All-reverse (λ c. is_space c ≡ false) s h))
    ∙ reverse-reverse s

-- `strings.TrimPrefix` and `strings.HasPrefix`
unfoldable pub strip_prefix? : Text → Text → Option Text
strip_prefix? [] s = some s
strip_prefix? (c ∷ p) [] = none
strip_prefix? (c ∷ p) (d ∷ s) = if c == d then strip_prefix? p s else none

unfoldable pub trim_prefix : Text → Text → Text
unfolding strip_prefix?
trim_prefix p s = elim (strip_prefix? p s) [ none ↦ s | some r ↦ r ]
