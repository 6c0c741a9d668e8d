-- ===== src/Tests/RateLimit.antt =====
-- The limiter at a few requests: internal/api/rate_limit.go.
use open_chain.Prelude.{
  ℕ, ◌+◌, ◌*◌, ◌≤◌, ◌≡◌, refl, none, List, [], ◌∷◌, Text, codes, arith, length, max, same,
}
use open_chain.RateLimit.{
  RequestLimiter, allow, allowed, new_request_limiter, max_tracked_clients, lookup, put, minute,
  is_over, make_room,
}
use open_chain.RateLimit.Budget.{allow_tracked}
use open_chain.RateLimit.PerClient.{minute_budget, first_minute_budget}

-- A client that spent its window of two calls just before time `minute`.
abbrev spent : RequestLimiter
spent = record { limit = 2; windows = (codes "a", record { started = 0; requests = 2 }) ∷ [] }

abbrev at_boundary : List (Text × ℕ)
at_boundary =
    (codes "a", minute)
    ∷ (codes "b", minute + 1)
    ∷ (codes "a", minute + 2)
    ∷ (codes "a", minute + 3)
    ∷ []

two_pass : allowed (codes "a") spent at_boundary ≡ 2
unfolding allowed allow lookup put is_over make_room same
two_pass = refl

allow_tracked_example :
    (length (allow spent (codes "b") 7).1.windows ≤ max_tracked_clients)
    × ((allow spent (codes "b") 7).1.limit ≡ 2)
allow_tracked_example = allow_tracked spent (codes "b") 7 (omega arith)

is_a_map : lookup (codes "a") [] ≡ none
unfolding lookup
is_a_map = refl

minute_budget_example : allowed (codes "a") spent at_boundary ≤ 2 * max 1 2
minute_budget_example =
    minute_budget minute (codes "a") spent at_boundary (is_a_map, tt) (omega arith)

first_minute_budget_example : allowed (codes "a") (new_request_limiter 2) at_boundary ≤ max 1 2
first_minute_budget_example = first_minute_budget minute 2 (codes "a") at_boundary (omega arith)
