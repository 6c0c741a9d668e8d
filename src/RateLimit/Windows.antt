-- ===== src/RateLimit/Windows.antt =====
-- The window map: one entry for a client, and what a sweep removes.
use open_chain.Prelude.{
  ℕ, ◌≡◌, refl, Option, none, some, [], ◌∷◌, Text, same, same_iff, if◌then◌else◌, arith, Bool-cases,
  inl, inr,
}
use open_chain.RateLimit.{RequestWindow, Windows, lookup, put, is_over, sweep}

pub lookup-put :
    (k j : Text) (w : RequestWindow) (ws : Windows)
    → lookup j (put k w ws) ≡ (if same j k then some w else lookup j ws)
unfolding lookup put
lookup-put k j w [] = refl
lookup-put k j w ((i, x) ∷ ws) =
    ground (arith, lookup-put k j w ws, same_iff k i, same_iff j i, same_iff j k)

-- No client has two entries.
abbrev pub IsMap : Windows → Type 0
IsMap [] = Unit
IsMap ((k, w) ∷ ws) = (lookup k ws ≡ none) × IsMap ws

pub IsMap-put : (k : Text) (w : RequestWindow) (ws : Windows) → IsMap ws → IsMap (put k w ws)
unfolding put
IsMap-put k w [] h = (unfold lookup in refl, tt)
IsMap-put k w ((j, x) ∷ ws) (h, hs) = elim (Bool-cases (same k j)) [
  | inl e ↦ rw e (h, hs)
  | inr e ↦
      rw e (ground (arith, lookup-put k j w ws, same_iff k j, same_iff j k), IsMap-put k w ws hs)
]

-- What a sweep at the time `now` leaves of an entry.
abbrev pub swept : ℕ → Option RequestWindow → Option RequestWindow
swept now none = none
swept now (some w) = if is_over now w then none else some w

pub lookup-sweep :
    (now : ℕ) (c : Text) (ws : Windows)
    → IsMap ws
    → lookup c (sweep now ws) ≡ swept now (lookup c ws)
unfolding lookup sweep
lookup-sweep now c [] h = refl
lookup-sweep now c ((j, x) ∷ ws) (h, hs) = ground (arith, lookup-sweep now c ws hs, same_iff c j)

lookup-sweep-none :
    (now : ℕ) (c : Text) (ws : Windows) → lookup c ws ≡ none → lookup c (sweep now ws) ≡ none
unfolding lookup sweep
lookup-sweep-none now c [] h = refl
lookup-sweep-none now c ((j, x) ∷ ws) h = ground (arith, lookup-sweep-none now c ws)

pub IsMap-sweep : (now : ℕ) (ws : Windows) → IsMap ws → IsMap (sweep now ws)
unfolding sweep
IsMap-sweep now [] h = tt
IsMap-sweep now ((k, w) ∷ ws) (h, hs) = elim (Bool-cases (is_over now w)) [
  | inl e ↦ rw e (IsMap-sweep now ws hs)
  | inr e ↦ rw e (lookup-sweep-none now k ws h, IsMap-sweep now ws hs)
]
