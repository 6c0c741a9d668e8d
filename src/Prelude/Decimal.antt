-- ===== src/Prelude/Decimal.antt =====
-- Decimal numbers as text: `strconv.Itoa` and `(*big.Int).String` of a number that is not negative, and
-- the reading of digits.
use Prim.Native.Nat.{ℕ, zero, suc, ◌+◌, ◌-◌, ◌*◌, ◌/◌, ◌%◌, ◌<◌}
use mathlib.Core.Path.{◌≡◌, refl, ◌∙◌}
use mathlib.Core.Bool.{Bool, ◌&&◌}
use mathlib.Core.List.{[], ◌∷◌}
use mathlib.Core.Logic.{inl, inr}
use mathlib.Core.Option.{Option, none, some}
use native.Mathlib.Omega.{arith}
use open_chain.Prelude.Tests.{ltb, leb, if◌then◌else◌, Bool-cases}
use open_chain.Prelude.Strings.{Text}

-- The digits of `n` in front of `out`, with fuel; a number below the fuel has no more digits.
digits : ℕ → ℕ → Text → Text
digits zero n out = out
digits (suc fuel) n out =
    let more = digits fuel (n / 10) ((b'0' + n % 10) ∷ out) in
    if ltb n 10 then (b'0' + n) ∷ out else more

unfoldable pub itoa : ℕ → Text
unfolding digits
itoa n = digits (suc n) n []

unfoldable pub is_digit : ℕ → Bool
is_digit c = leb b'0' c && leb c b'9'

-- The number that digits spell behind `n`; `none` at anything but a digit.
unfoldable pub read_digits : ℕ → Text → Option ℕ
unfolding is_digit
read_digits n [] = some n
read_digits n (c ∷ s) =
    let rest = read_digits (n * 10 + (c - b'0')) s in if is_digit c then rest else none

read_digits-digits :
    (fuel n : ℕ) (out : Text) → n < fuel → read_digits 0 (digits fuel n out) ≡ read_digits n out
unfolding digits read_digits
read_digits-digits zero n out h = elim h [ ]
read_digits-digits (suc fuel) n out h = elim (Bool-cases (ltb n 10)) [
  | inl small ↦ rw small (ground arith)
  | inr large ↦
      rw large
        (read_digits-digits fuel (n / 10) ((b'0' + n % 10) ∷ out) (ground arith) ∙ ground arith)
]

-- The print of a number reads back.
pub read_digits-itoa : (n : ℕ) → read_digits 0 (itoa n) ≡ some n
unfolding itoa
read_digits-itoa n = read_digits-digits (suc n) n [] (omega arith) ∙ unfold read_digits in refl
