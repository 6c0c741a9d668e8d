-- ===== src/Prelude/Dict.antt =====
-- A Go map with texts for keys, as the list of its entries in the order of insertion.
use Prim.Native.Nat.{suc, ◌+◌, ◌≤◌}
use mathlib.Core.Path.{◌≡◌, refl, ap, ◌∙◌}
use mathlib.Core.Path.{subst}
use mathlib.Core.Bool.{true}
use mathlib.Core.Option.{Option, none, some}
use mathlib.Core.List.{List, [], ◌∷◌}
use mathlib.Core.Logic.{inl, inr}
use native.Mathlib.Omega.{arith}
use open_chain.Prelude.Tests.{if◌then◌else◌, Bool-cases}
use open_chain.Prelude.Lists.{All, length}
use open_chain.Prelude.Sets.{contains, IsDistinct}
use open_chain.Prelude.Strings.{Text, same, same_iff}

module _ {ℓ} {V : Type ℓ} where
  abbrev pub keys : List (Text × V) → List Text
  keys [] = []
  keys ((j, v) ∷ d) = j ∷ keys d

  abbrev pub values : List (Text × V) → List V
  values [] = []
  values ((j, v) ∷ d) = v ∷ values d

  unfoldable pub get : Text → List (Text × V) → Option V
  get k [] = none
  get k ((j, v) ∷ d) = if same k j then some v else get k d

  unfoldable pub get_or : Text → V → List (Text × V) → V
  get_or k z [] = z
  get_or k z ((j, v) ∷ d) = if same k j then v else get_or k z d

  unfoldable pub assign : Text → V → List (Text × V) → List (Text × V)
  assign k v [] = (k, v) ∷ []
  assign k v ((j, w) ∷ d) = if same k j then (j, v) ∷ d else (j, w) ∷ assign k v d

  pub get_or-assign :
      (k j : Text) (z v : V) (d : List (Text × V))
      → get_or j z (assign k v d) ≡ (if same j k then v else get_or j z d)
  unfolding get_or assign
  get_or-assign k j z v [] = refl
  get_or-assign k j z v ((i, w) ∷ d) =
      ground
        (arith, same_iff k j, same_iff j k, same_iff k i, same_iff j i, get_or-assign k j z v d)

  pub contains-assign :
      (k j : Text) (v : V) (d : List (Text × V))
      → contains j (keys (assign k v d)) ≡ (if same j k then true else contains j (keys d))
  unfolding contains assign
  contains-assign k j v [] = refl
  contains-assign k j v ((i, w) ∷ d) =
      ground
        (arith, same_iff k j, same_iff j k, same_iff k i, same_iff j i, contains-assign k j v d)

  pub IsDistinct-assign :
      (k : Text) (v : V) (d : List (Text × V))
      → IsDistinct (keys d)
      → IsDistinct (keys (assign k v d))
  unfolding assign contains
  IsDistinct-assign k v [] h = (refl, tt)
  IsDistinct-assign k v ((i, w) ∷ d) (n, h) = elim (Bool-cases (same k i)) [
    | inl e ↦ rw e (n, h)
    | inr e ↦ rw e (
      contains-assign k i v d ∙ ground (arith, e, n, same_iff k i, same_iff i k),
      IsDistinct-assign k v d h,
    )
  ]

  pub length-assign :
      (k : Text) (v : V) (d : List (Text × V)) → length (assign k v d) ≤ length d + 1
  unfolding assign
  length-assign k v [] = omega arith
  length-assign k v ((j, w) ∷ d) = ground (arith, length-assign k v d)

  pub length-values : (d : List (Text × V)) → length (values d) ≡ length d
  length-values [] = refl
  length-values ((j, v) ∷ d) = ap suc (length-values d)

  module _ {κ} (P : Text × V → Type κ) where
    pub All-assign :
        (k : Text) (v : V) (d : List (Text × V)) → P (k, v) → All P d → All P (assign k v d)
    unfolding assign
    All-assign k v [] p h = (p, tt)
    All-assign k v ((j, w) ∷ d) p (q, h) = elim (Bool-cases (same k j)) [
      | inl e ↦ rw e (subst (λ i. P (i, v)) ((same_iff k j).0 e) p, h)
      | inr e ↦ rw e (q, All-assign k v d p h)
    ]

  module _ {κ} (P : V → Type κ) where
    abbrev pub AllValues : List (Text × V) → Type κ
    AllValues = All (λ (e : Text × V). P e.1)

    pub AllValues-assign :
        (k : Text) (v : V) (d : List (Text × V)) → P v → AllValues d → AllValues (assign k v d)
    unfolding assign
    AllValues-assign k v [] p h = (p, tt)
    AllValues-assign k v ((j, w) ∷ d) p (q, h) = elim (Bool-cases (same k j)) [
      | inl e ↦ rw e (p, h)
      | inr e ↦ rw e (q, AllValues-assign k v d p h)
    ]

    pub All-values : (d : List (Text × V)) → AllValues d → All P (values d)
    All-values [] h = tt
    All-values ((j, v) ∷ d) (p, h) = (p, All-values d h)
