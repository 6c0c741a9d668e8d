-- ===== src/RateLimit/PerClient.antt =====
-- How many requests of one client pass within a minute.
use native.Mathlib.Nat.{le_trans}
use open_chain.Prelude.{
  ℕ, suc, ◌+◌, ◌*◌, ◌-◌, ◌≤◌, ◌<◌, ◌≡◌, refl, Bool, true, false, Option, none, some, List, [], ◌∷◌,
  Text, same, same_refl, same_iff, leb, if◌then◌else◌, length, arith, inl, inr, Bool-cases,
  Option-cases, max,
}
use open_chain.RateLimit.{
  max_tracked_clients, minute, RequestWindow, Windows, RequestLimiter, lookup, put, is_over,
  make_room, admit, spend, allow, allowed, new_request_limiter,
}
use open_chain.RateLimit.Windows.{lookup-put, IsMap, IsMap-put, lookup-sweep, IsMap-sweep}

-- The requests that a client can still have passed up to one minute after `t0`: what is left of its
-- window, and one whole budget if that window began before `t0` or there is none.
abbrev left_for : ℕ → ℕ → Option RequestWindow → ℕ
left_for t0 limit none = max 1 limit
left_for t0 limit (some w) =
    if leb t0 w.started then limit - w.requests else limit - w.requests + max 1 limit

-- The ways in which a call of Allow can go.
data View (l : RequestLimiter) (c : Text) (now : ℕ) : Bool × RequestLimiter → Type 0 where
  full :
      lookup c l.windows ≡ none
      → View l c now (false, record l { windows = make_room now l.windows })
  opened_new :
      lookup c l.windows ≡ none
      → View l c now (
        true,
        record l {
          windows = put c (record { started = now; requests = 1 }) (make_room now l.windows);
        },
      )
  opened_again :
      (w : RequestWindow)
      → lookup c l.windows ≡ some w
      → is_over now w ≡ true
      → View l c now
          (true, record l { windows = put c (record { started = now; requests = 1 }) l.windows })
  spent : (w : RequestWindow) → lookup c l.windows ≡ some w → View l c now (false, l)
  counted :
      (w : RequestWindow)
      → lookup c l.windows ≡ some w
      → w.requests < l.limit
      → View l c now (
        true,
        record l {
          windows = put c (record { started = w.started; requests = suc w.requests }) l.windows;
        },
      )

admit-View :
    (l : RequestLimiter) (c : Text) (now : ℕ)
    → lookup c l.windows ≡ none
    → View l c now (admit l c now)
unfolding admit
admit-View l c now e =
    elim (Bool-cases (leb max_tracked_clients (length (make_room now l.windows)))) [
      | inl f ↦ rw f (full e)
      | inr f ↦ rw f (opened_new e)
    ]

spend-View :
    (l : RequestLimiter) (c : Text) (now : ℕ) (w : RequestWindow)
    → lookup c l.windows ≡ some w
    → View l c now (spend l c now w)
unfolding spend
spend-View l c now w e = elim (Bool-cases (is_over now w)) [
  | inl f ↦ rw f (opened_again w e f)
  | inr f ↦ elim (Bool-cases (leb l.limit w.requests)) [
    | inl g ↦ rw (f, g) (spent w e)
    | inr g ↦ rw (f, g) (counted w e (ground arith))
  ]
]

allow-View : (l : RequestLimiter) (c : Text) (now : ℕ) → View l c now (allow l c now)
unfolding allow
allow-View l c now = elim (Option-cases (lookup c l.windows)) [
  | inl e ↦ rw (e, allow) (admit-View l c now e)
  | inr (w, e) ↦ rw (e, allow) (spend-View l c now w e)
]

-- Only windows that began a minute ago or more are swept, and none of those began after `t0`.
make_room-keeps :
    (t0 now limit : ℕ) (c : Text) (ws : Windows)
    → IsMap ws
    → now < t0 + minute
    → left_for t0 limit (lookup c (make_room now ws)) ≤ left_for t0 limit (lookup c ws)
unfolding make_room is_over
make_room-keeps t0 now limit c ws m h = ground (arith, lookup-sweep now c ws m)

make_room-none :
    (now : ℕ) (c : Text) (ws : Windows)
    → IsMap ws
    → lookup c ws ≡ none
    → lookup c (make_room now ws) ≡ none
unfolding make_room
make_room-none now c ws m h = ground (arith, lookup-sweep now c ws m)

IsMap-make_room : (now : ℕ) (ws : Windows) → IsMap ws → IsMap (make_room now ws)
unfolding make_room
IsMap-make_room now ws m = elim (Bool-cases (leb max_tracked_clients (length ws))) [
  | inl e ↦ rw e (IsMap-sweep now ws m)
  | inr e ↦ rw e m
]

module _ (l : RequestLimiter) (c : Text) (t0 now : ℕ) (m : IsMap l.windows) (lo : t0 ≤ now)
    (hi : now < t0 + minute) where
  abbrev cost : Bool × RequestLimiter → ℕ
  cost r = (if r.0 then 1 else 0) + left_for t0 l.limit (lookup c r.1.windows)

  -- A step costs the client what it is granted.
  own_step :
      (r : Bool × RequestLimiter)
      → View l c now r
      → cost r ≤ left_for t0 l.limit (lookup c l.windows)
  unfolding is_over
  own_step r (full e) = ground (arith, make_room-none now c l.windows m e)
  own_step r (opened_new e) = ground (
    arith,
    lookup-put c c (record { started = now; requests = 1 }) (make_room now l.windows),
    same_refl c,
  )
  own_step r (opened_again w e f) =
      ground (arith, lookup-put c c (record { started = now; requests = 1 }) l.windows, same_refl c)
  own_step r (spent w e) = omega arith
  own_step r (counted w e lt) = ground (
    arith,
    lookup-put c c (record { started = w.started; requests = suc w.requests }) l.windows,
    same_refl c,
  )

  other_step :
      (d : Text) (r : Bool × RequestLimiter)
      → same c d ≡ false
      → View l d now r
      → left_for t0 l.limit (lookup c r.1.windows) ≤ left_for t0 l.limit (lookup c l.windows)
  other_step d r ne (full e) = make_room-keeps t0 now l.limit c l.windows m hi
  other_step d r ne (opened_new e) =
      rw (lookup-put d c (record { started = now; requests = 1 }) (make_room now l.windows), ne)
        (make_room-keeps t0 now l.limit c l.windows m hi)
  other_step d r ne (opened_again w e f) =
      rw (lookup-put d c (record { started = now; requests = 1 }) l.windows, ne) (omega arith)
  other_step d r ne (spent w e) = omega arith
  other_step d r ne (counted w e lt) =
      rw (lookup-put d c (record { started = w.started; requests = suc w.requests }) l.windows, ne)
        (omega arith)

  View-IsMap :
      (d : Text) (r : Bool × RequestLimiter)
      → View l d now r
      → IsMap r.1.windows × (r.1.limit ≡ l.limit)
  View-IsMap d r (full e) = (IsMap-make_room now l.windows m, refl)
  View-IsMap d r (opened_new e) =
      (IsMap-put d _ (make_room now l.windows) (IsMap-make_room now l.windows m), refl)
  View-IsMap d r (opened_again w e f) = (IsMap-put d _ l.windows m, refl)
  View-IsMap d r (spent w e) = (m, refl)
  View-IsMap d r (counted w e lt) = (IsMap-put d _ l.windows m, refl)

-- The requests of the list all come within one minute of `t0`.
abbrev pub Within : ℕ → List (Text × ℕ) → Type 0
Within t0 [] = Unit
Within t0 ((c, now) ∷ rest) = (t0 ≤ now) × (now < t0 + minute) × Within t0 rest

allowed_left :
    (t0 : ℕ) (c : Text) (l : RequestLimiter) (reqs : List (Text × ℕ))
    → IsMap l.windows
    → Within t0 reqs
    → allowed c l reqs ≤ left_for t0 l.limit (lookup c l.windows)
unfolding allowed
allowed_left t0 c l [] m h = omega arith
allowed_left t0 c l ((d, now) ∷ rest) m (lo, hi, h) =
    let r = allow l d now in
    let (m', kept) = View-IsMap l c t0 now m lo hi d r (allow-View l d now) in
    let ih : allowed c r.1 rest ≤ left_for t0 l.limit (lookup c r.1.windows) =
      rw kept at (allowed_left t0 c r.1 rest m' h) in
    elim (Bool-cases (same c d)) [
      | inl e ↦
          let v : View l c now r = rw ((same_iff c d).0 e) (allow-View l d now) in
          rw e (ground (arith, ih, own_step l c t0 now m lo hi r v))
      | inr e ↦ rw e (le_trans ih (other_step l c t0 now m lo hi d r e (allow-View l d now)))
    ]

-- In any minute, whatever the state and whatever other clients send, at most twice the limit of one
-- client's requests pass (a fixed window can burst at its boundary); a limit of 0 counts as 1.
pub minute_budget :
    (t0 : ℕ) (c : Text) (l : RequestLimiter) (reqs : List (Text × ℕ))
    → IsMap l.windows
    → Within t0 reqs
    → allowed c l reqs ≤ 2 * max 1 l.limit
minute_budget t0 c l reqs m h = ground (arith, allowed_left t0 c l reqs m h)

-- In the first minute of a limiter at most the limit passes.
pub first_minute_budget :
    (t0 limit : ℕ) (c : Text) (reqs : List (Text × ℕ))
    → Within t0 reqs
    → allowed c (new_request_limiter limit) reqs ≤ max 1 limit
unfolding new_request_limiter lookup
first_minute_budget t0 limit c reqs h = allowed_left t0 c (new_request_limiter limit) reqs tt h
