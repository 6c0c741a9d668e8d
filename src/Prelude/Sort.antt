-- ===== src/Prelude/Sort.antt =====
-- `sort.Slice` by a `less` function, as an insertion sort. Where `less` orders any two elements that are
-- not alike the result is the only sorted one; elements that are alike keep their order here.
use Prim.Native.Nat.{suc}
use mathlib.Core.Path.{◌≡◌, refl, ap, ◌∙◌}
use mathlib.Core.Bool.{Bool, true, false}
use mathlib.Core.List.{List, [], ◌∷◌, Perm}
use mathlib.Core.List.Perm
use mathlib.Core.Logic.{inl, inr}
use open_chain.Prelude.Tests.{if◌then◌else◌, Bool-cases}
use open_chain.Prelude.Lists.{All, length}

module _ {ℓ} {A : Type ℓ} (less : A → A → Bool) where
  unfoldable pub insert : A → List A → List A
  insert x [] = x ∷ []
  insert x (y ∷ ys) = if less y x then y ∷ insert x ys else x ∷ y ∷ ys

  unfoldable pub sort : List A → List A
  unfolding insert
  sort [] = []
  sort (x ∷ xs) = insert x (sort xs)

  insert-perm : (x : A) (ys : List A) → Perm (insert x ys) (x ∷ ys)
  unfolding insert
  insert-perm x [] = Perm.refl (x ∷ [])
  insert-perm x (y ∷ ys) = elim (Bool-cases (less y x)) [
    | inl e ↦ rw e (Perm.trans (Perm.cons y (insert-perm x ys)) (Perm.swap x y ys))
    | inr e ↦ rw e (Perm.refl (x ∷ y ∷ ys))
  ]

  pub sort-perm : (xs : List A) → Perm (sort xs) xs
  unfolding sort
  sort-perm [] = Perm.refl []
  sort-perm (x ∷ xs) = Perm.trans (insert-perm x (sort xs)) (Perm.cons x (sort-perm xs))

  length-insert : (x : A) (ys : List A) → length (insert x ys) ≡ suc (length ys)
  unfolding insert
  length-insert x [] = refl
  length-insert x (y ∷ ys) = elim (Bool-cases (less y x)) [
    | inl e ↦ rw e (ap suc (length-insert x ys))
    | inr e ↦ rw e refl
  ]

  pub length-sort : (xs : List A) → length (sort xs) ≡ length xs
  unfolding sort
  length-sort [] = refl
  length-sort (x ∷ xs) = length-insert x (sort xs) ∙ ap suc (length-sort xs)

  module _ {κ} (P : A → Type κ) where
    All-insert : (x : A) (ys : List A) → P x → All P ys → All P (insert x ys)
    unfolding insert
    All-insert x [] p h = (p, tt)
    All-insert x (y ∷ ys) p (h, hs) = elim (Bool-cases (less y x)) [
      | inl e ↦ rw e (h, All-insert x ys p hs)
      | inr e ↦ rw e (p, (h, hs))
    ]

    pub All-sort : (xs : List A) → All P xs → All P (sort xs)
    unfolding sort
    All-sort [] h = tt
    All-sort (x ∷ xs) (h, hs) = All-insert x (sort xs) h (All-sort xs hs)

  -- No element stands before one that is less.
  abbrev pub IsSorted : List A → Type ℓ
  IsSorted [] = Unit
  IsSorted (x ∷ xs) = All (λ y. less y x ≡ false) xs × IsSorted xs

  module _ (asym : (x y : A) → less x y ≡ true → less y x ≡ false)
      (trans : (x y z : A) → less y x ≡ false → less z y ≡ false → less z x ≡ false) where
    insert-IsSorted : (x : A) (ys : List A) → IsSorted ys → IsSorted (insert x ys)
    unfolding insert
    insert-IsSorted x [] h = (tt, tt)
    insert-IsSorted x (y ∷ ys) (h, hs) = elim (Bool-cases (less y x)) [
      | inl e ↦
          rw e (All-insert (λ z. less z y ≡ false) x ys (asym y x e) h, insert-IsSorted x ys hs)
      | inr e ↦ rw e ((e, All-after y x ys e h), (h, hs))
    ]
      where
        All-after :
            (y x : A) (zs : List A)
            → less y x ≡ false
            → All (λ z. less z y ≡ false) zs
            → All (λ z. less z x ≡ false) zs
        All-after y x [] e k = tt
        All-after y x (z ∷ zs) e (k, ks) = (trans x y z e k, All-after y x zs e ks)

    pub sort-IsSorted : (xs : List A) → IsSorted (sort xs)
    unfolding sort
    sort-IsSorted [] = tt
    sort-IsSorted (x ∷ xs) = insert-IsSorted x (sort xs) (sort-IsSorted xs)
