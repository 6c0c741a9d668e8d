-- ===== src/Prelude/Sets.antt =====
-- A Go map from texts to struct{} as the list of its keys.
use Prim.Native.Nat.{ℕ, suc, ◌+◌, ◌≤◌, ◌<◌}
use mathlib.Core.Path.{◌≡◌, refl, ap}
use mathlib.Core.Bool.{Bool, true, false, not, ◌||◌}
use mathlib.Core.List.{List, [], ◌∷◌, ◌++◌}
use mathlib.Core.Logic.{inl, inr}
use mathlib.Core.Path.{subst}
use native.Mathlib.Omega.{arith}
use open_chain.Prelude.Tests.{if◌then◌else◌, Bool-cases}
use open_chain.Prelude.Lists.{All, length, keep}
use open_chain.Prelude.Strings.{Text, same, same_iff, same_comm}

unfoldable pub contains : Text → List Text → Bool
contains k [] = false
contains k (j ∷ js) = if same k j then true else contains k js

pub contains-cons :
    (k j : Text) (js : List Text) → contains k (j ∷ js) ≡ (if same k j then true else contains k js)
unfolding contains
contains-cons k j js = refl

pub contains-append :
    (k : Text) (js is : List Text) → contains k (js ++ is) ≡ contains k js || contains k is
unfolding contains
contains-append k [] is = refl
contains-append k (j ∷ js) is = ground (arith, contains-append k js is)

-- How many different texts a list holds: each is counted where it stands last.
unfoldable pub distinct_texts : List Text → ℕ
unfolding contains
distinct_texts [] = 0
distinct_texts (k ∷ ks) = if contains k ks then distinct_texts ks else suc (distinct_texts ks)

-- The same, less those that another list holds.
abbrev pub distinct_beside : List Text → List Text → ℕ
distinct_beside seen [] = 0
distinct_beside seen (k ∷ ks) =
    if contains k ks || contains k seen
    then distinct_beside seen ks
    else suc (distinct_beside seen ks)

pub distinct_beside-nil : (ks : List Text) → distinct_beside [] ks ≡ distinct_texts ks
unfolding distinct_texts contains
distinct_beside-nil [] = refl
distinct_beside-nil (k ∷ ks) = ground (arith, distinct_beside-nil ks)

-- No key twice.
abbrev pub IsDistinct : List Text → Type 0
IsDistinct [] = Unit
IsDistinct (k ∷ ks) = (contains k ks ≡ false) × IsDistinct ks

abbrev without : Text → List Text → List Text
without k js = keep (λ j. not (same k j)) js

length-without-le : (k : Text) (js : List Text) → length (without k js) ≤ length js
length-without-le k [] = omega arith
length-without-le k (j ∷ js) = ground (arith, length-without-le k js)

length-without :
    (k : Text) (js : List Text) → contains k js ≡ true → length (without k js) < length js
unfolding contains
length-without k [] h = absurd (ground (arith, h))
length-without k (j ∷ js) h = elim (Bool-cases (same k j)) [
  | inl e ↦ ground (arith, e, length-without-le k js)
  | inr e ↦ ground (arith, e, length-without k js)
]

contains-without :
    (i k : Text) (js : List Text)
    → contains i js ≡ true
    → same i k ≡ false
    → contains i (without k js) ≡ true
unfolding contains
contains-without i k [] h n = absurd (ground (arith, h))
contains-without i k (j ∷ js) h n = elim (Bool-cases (same k j)) [
  | inl e ↦
      let p : k ≡ j = (same_iff k j).0 e in
      let q : same i j ≡ false = subst (λ t. same i t ≡ false) p n in
      ground (arith, e, q, h, contains-without i k js)
  | inr e ↦ ground (arith, e, contains-without i k js)
]

-- Distinct keys that all stand in a list are no more than the list has.
pub length-le-IsDistinct :
    (ks js : List Text) → IsDistinct ks → All (λ k. contains k js ≡ true) ks → length ks ≤ length js
length-le-IsDistinct [] js d h = omega arith
length-le-IsDistinct (k ∷ ks) js (new, d) (h, hs) =
    omega (arith, length-without k js h, length-le-IsDistinct ks (without k js) d (rest ks new hs))
  where
    rest :
        (is : List Text)
        → contains k is ≡ false
        → All (λ i. contains i js ≡ true) is
        → All (λ i. contains i (without k js) ≡ true) is
    rest [] n a = tt
    rest (i ∷ is) n (a, more) =
        let apart : same i k ≡ false = unfold contains in ground (arith, n, same_comm i k) in
        let left : contains k is ≡ false = unfold contains in ground (arith, n) in
        (contains-without i k js a apart, rest is left more)

module _ (k : Text) (seen : List Text) where
  -- A new text takes one from the count where it stands later.
  pub distinct_beside_new :
      contains k seen ≡ false
      → (ks : List Text)
      → distinct_beside seen ks ≡ distinct_beside (k ∷ seen) ks + (if contains k ks then 1 else 0)
  unfolding contains
  distinct_beside_new h [] = refl
  distinct_beside_new h (j ∷ js) = elim (Bool-cases (same k j)) [
    | inl e ↦
        let p : k ≡ j = (same_iff k j).0 e in
        let new : contains j seen ≡ false = subst (λ t. contains t seen ≡ false) p h in
        let later : contains k js ≡ contains j js = ap (λ t. contains t js) p in
        ground (arith, e, new, later, same_comm k j, distinct_beside_new h js)
    | inr e ↦ ground (arith, e, same_comm k j, distinct_beside_new h js)
  ]
