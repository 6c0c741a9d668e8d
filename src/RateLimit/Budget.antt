-- ===== src/RateLimit/Budget.antt =====
-- The size of the map, and how many requests of one client pass.
use open_chain.Prelude.{
  ℕ, suc, ◌≤◌, ◌≡◌, refl, Bool, not, some, [], ◌∷◌, Text, same, same_iff, leb, if◌then◌else◌,
  length, length-keep, arith, inl, inr, Bool-cases, Option-cases,
}
use open_chain.RateLimit.{
  max_tracked_clients, RequestWindow, Windows, RequestLimiter, lookup, put, is_over, sweep,
  make_room, admit, spend, allow,
}

length-put-some :
    (k : Text) (w v : RequestWindow) (ws : Windows)
    → lookup k ws ≡ some v
    → length (put k w ws) ≡ length ws
unfolding lookup put
length-put-some k w v [] h = cc
length-put-some k w v ((j, x) ∷ ws) h = ground (arith, length-put-some k w v ws)

length-put : (k : Text) (w : RequestWindow) (ws : Windows) → length (put k w ws) ≤ suc (length ws)
unfolding put
length-put k w [] = omega arith
length-put k w ((j, x) ∷ ws) = ground (arith, length-put k w ws)

lookup-put :
    (k j : Text) (w : RequestWindow) (ws : Windows)
    → lookup j (put k w ws) ≡ (if same j k then some w else lookup j ws)
unfolding lookup put
lookup-put k j w [] = refl
lookup-put k j w ((i, x) ∷ ws) =
    ground (arith, lookup-put k j w ws, same_iff k i, same_iff j i, same_iff j k)

length-make_room : (now : ℕ) (ws : Windows) → length (make_room now ws) ≤ length ws
unfolding make_room sweep
length-make_room now ws = ground (arith, length-keep (λ e. not (is_over now e.1)) ws)

module _ (l : RequestLimiter) (client : Text) (now : ℕ)
    (room : length l.windows ≤ max_tracked_clients) where
  abbrev Tracks : Bool × RequestLimiter → Type 0
  Tracks r = (length r.1.windows ≤ max_tracked_clients) × (r.1.limit ≡ l.limit)

  admit-Tracks : Tracks (admit l client now)
  unfolding admit
  admit-Tracks = elim (Bool-cases (leb max_tracked_clients (length (make_room now l.windows)))) [
    | inl full ↦ rw full (omega (arith, length-make_room now l.windows), refl)
    | inr free ↦ rw free (
      ground (
        arith,
        length-put client (record { started = now; requests = 1 }) (make_room now l.windows),
      ),
      refl,
    )
  ]

  spend-Tracks :
      (w : RequestWindow) → lookup client l.windows ≡ some w → Tracks (spend l client now w)
  unfolding spend
  spend-Tracks w e = elim (Bool-cases (is_over now w)) [
    | inl over ↦ rw over (
      omega (arith, length-put-some client (record { started = now; requests = 1 }) w l.windows e),
      refl,
    )
    | inr live ↦ elim (Bool-cases (leb l.limit w.requests)) [
      | inl spent ↦ rw (live, spent) (room, refl)
      | inr left ↦
          rw (live, left)
            (
              omega (
                arith,
                length-put-some client (record { started = w.started; requests = suc w.requests }) w
                    l.windows e,
              ),
              refl,
            )
    ]
  ]

  -- The limiter never tracks more than ten thousand clients, and keeps its limit.
  pub allow_tracked :
      (length (allow l client now).1.windows ≤ max_tracked_clients)
      × ((allow l client now).1.limit ≡ l.limit)
  unfolding allow
  allow_tracked = elim (Option-cases (lookup client l.windows)) [
    | inl e ↦ rw (e, allow) admit-Tracks
    | inr (w, e) ↦ rw (e, allow) (spend-Tracks w e)
  ]
