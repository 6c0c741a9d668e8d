-- ===== src/Bridge/Hashes.antt =====
-- appendUnique and newHashes of internal/bridge/bridge.go: the response hashes that an evidence record
-- keeps.
use open_chain.Prelude.{
  ℕ, suc, ◌≡◌, refl, ap, ◌∙◌, sym, true, false, ◌||◌, List, [], ◌∷◌, ◌++◌, Text, same, same_iff,
  same_refl, ltb, if◌then◌else◌, length, drop, tally, is_empty, arith, Bool-cases, inl, inr,
}
use open_chain.Prelude.Sets.{contains}

-- The loop of appendUnique with what it has seen.
unfoldable pub unique : List Text → List Text → List Text
unique seen [] = []
unique seen (v ∷ vs) =
    let skip = is_empty v || contains v seen in
    let rest = unique (if skip then seen else v ∷ seen) vs in if skip then rest else v ∷ rest

-- appendUnique
unfoldable pub append_unique : List Text → List Text → List Text
append_unique values more = unique [] (values ++ more)

-- newHashes
unfoldable pub new_hashes : List Text → List Text → List Text
new_hashes before after =
    append_unique []
      (if ltb (length after) (length before) then after else drop (length before) after)

-- How often the loop keeps a text.
abbrev share : Text → List Text → List Text → ℕ
share k seen vs = if is_empty k || contains k seen then 0 else (if contains k vs then 1 else 0)

unique-skip :
    (v : Text) (seen vs : List Text)
    → is_empty v || contains v seen ≡ true
    → unique seen (v ∷ vs) ≡ unique seen vs
unfolding unique
unique-skip v seen vs e = rw e refl

unique-keep :
    (v : Text) (seen vs : List Text)
    → is_empty v || contains v seen ≡ false
    → unique seen (v ∷ vs) ≡ v ∷ unique (v ∷ seen) vs
unfolding unique
unique-keep v seen vs e = rw e refl

contains-cons :
    (k j : Text) (js : List Text) → contains k (j ∷ js) ≡ (if same k j then true else contains k js)
unfolding contains
contains-cons k j js = refl

tally-cons :
    (k j : Text) (js : List Text)
    → tally (same k) (j ∷ js) ≡ (if same k j then suc (tally (same k) js) else tally (same k) js)
tally-cons k j js = refl

-- One step, for a text that is the first element, and for another one.
share-same :
    (v : Text) (seen vs : List Text)
    → ((s : List Text) → tally (same v) (unique s vs) ≡ share v s vs)
    → tally (same v) (unique seen (v ∷ vs)) ≡ share v seen (v ∷ vs)
share-same v seen vs ih = elim (Bool-cases (is_empty v || contains v seen)) [
  | inl e ↦ ap (tally (same v)) (unique-skip v seen vs e) ∙ ih seen ∙ ground (arith, e)
  | inr e ↦
      ap (tally (same v)) (unique-keep v seen vs e)
      ∙ ground (
        arith,
        e,
        ih (v ∷ seen),
        same_refl v,
        contains-cons v v seen,
        contains-cons v v vs,
        tally-cons v v (unique (v ∷ seen) vs),
      )
]

share-other :
    (k v : Text) (seen vs : List Text)
    → same k v ≡ false
    → ((s : List Text) → tally (same k) (unique s vs) ≡ share k s vs)
    → tally (same k) (unique seen (v ∷ vs)) ≡ share k seen (v ∷ vs)
share-other k v seen vs n ih = elim (Bool-cases (is_empty v || contains v seen)) [
  | inl e ↦
      ap (tally (same k)) (unique-skip v seen vs e)
      ∙ ih seen
      ∙ ground (arith, n, contains-cons k v vs)
  | inr e ↦
      ap (tally (same k)) (unique-keep v seen vs e)
      ∙ ground (
        arith,
        n,
        ih (v ∷ seen),
        contains-cons k v seen,
        contains-cons k v vs,
        tally-cons k v (unique (v ∷ seen) vs),
      )
]

unique_lem : (k : Text) (vs seen : List Text) → tally (same k) (unique seen vs) ≡ share k seen vs
unfolding unique contains
unique_lem k [] seen = ground arith
unique_lem k (v ∷ vs) seen = elim (Bool-cases (same k v)) [
  | inl e ↦
      let p : v ≡ k = sym ((same_iff k v).0 e) in
      rw p (share-same k seen vs (λ s. unique_lem k vs s))
  | inr e ↦ share-other k v seen vs e (λ s. unique_lem k vs s)
]

-- A text stands in the result of appendUnique once if it is not empty and one of the lists has it, and
-- otherwise not at all.
pub tally-append_unique :
    (k : Text) (values more : List Text)
    → tally (same k) (append_unique values more)
      ≡ (if is_empty k then 0 else (if contains k (values ++ more) then 1 else 0))
unfolding append_unique contains
tally-append_unique k values more = unique_lem k (values ++ more) [] ∙ ground arith
