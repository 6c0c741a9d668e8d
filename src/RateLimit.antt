-- ===== src/RateLimit.antt =====
-- RequestLimiter, the fixed per-client budget of public calls: apps/backend/internal/api/rate_limit.go.
-- The map is an association list with one entry for a key; the mutex makes a call one step. The clock
-- is an argument, in nanoseconds.
pub mod Budget
pub mod Windows
pub mod PerClient
use open_chain.Prelude.{
  ℕ, suc, ◌+◌, ◌*◌, ◌-◌, Bool, true, false, not, ◌&&◌, Option, none, some, List, [], ◌∷◌, Text,
  codes, same, ltb, leb, if◌then◌else◌, length, keep, is_empty,
}

abbrev pub max_tracked_clients : ℕ
max_tracked_clients = 10_000

abbrev pub minute : ℕ
minute = 60 * 1_000_000_000

pub record RequestWindow : Type 0 where
  pub started : ℕ
  pub requests : ℕ

abbrev pub Windows : Type 0
Windows = List (Text × RequestWindow)

pub record RequestLimiter : Type 0 where
  pub limit : ℕ
  pub windows : Windows

unfoldable pub new_request_limiter : ℕ → RequestLimiter
new_request_limiter limit = record { limit = limit; windows = [] }

unfoldable pub lookup : Text → Windows → Option RequestWindow
lookup k [] = none
lookup k ((j, w) ∷ ws) = if same k j then some w else lookup k ws

-- windows[client] = w
unfoldable pub put : Text → RequestWindow → Windows → Windows
put k w [] = (k, w) ∷ []
put k w ((j, v) ∷ ws) = if same k j then (j, w) ∷ ws else (j, v) ∷ put k w ws

-- now.Sub(w.started) >= time.Minute; a clock that went back gives a negative difference, here 0.
unfoldable pub is_over : ℕ → RequestWindow → Bool
is_over now w = leb minute (now - w.started)

-- The sweep over a full map.
unfoldable pub sweep : ℕ → Windows → Windows
sweep now ws = keep (λ e. not (is_over now e.1)) ws

-- The branch of a client that the map does not hold, before its window is opened.
unfoldable pub make_room : ℕ → Windows → Windows
make_room now ws = if leb max_tracked_clients (length ws) then sweep now ws else ws

open_window : RequestLimiter → Windows → Text → ℕ → Bool × RequestLimiter
open_window l ws client now =
    (true, record l { windows = put client (record { started = now; requests = 1 }) ws })

-- A client that the map does not hold.
admit : RequestLimiter → Text → ℕ → Bool × RequestLimiter
unfolding open_window
admit l client now =
    let ws = make_room now l.windows in
    if leb max_tracked_clients (length ws)
    then (false, record l { windows = ws })
    else open_window l ws client now

-- A client with a window.
spend : RequestLimiter → Text → ℕ → RequestWindow → Bool × RequestLimiter
unfolding open_window
spend l client now w =
    if is_over now w
    then open_window l l.windows client now
    else if leb l.limit w.requests
    then (false, l)
    else (
      true,
      record l {
        windows = put client (record { started = w.started; requests = suc w.requests }) l.windows;
      },
    )

-- Allow
unfoldable pub allow : RequestLimiter → Text → ℕ → Bool × RequestLimiter
unfolding admit spend
allow l client now = elim (lookup client l.windows) [
  | none ↦ admit l client now
  | some w ↦ spend l client now w
]

-- A run of requests, each of a client at a time: how many of one client's are allowed, and the state.
unfoldable pub allowed : Text → RequestLimiter → List (Text × ℕ) → ℕ
allowed client l [] = 0
allowed client l ((c, now) ∷ rest) =
    let n = allowed client (allow l c now).1 rest in
    if same client c then (if (allow l c now).0 then suc n else n) else n

-- The key of a request: the host of the remote address, or the first forwarded address behind a
-- trusted proxy. net.SplitHostPort and the parsing of the header are arguments.
unfoldable pub with_client_key :
    (remote : Text) (split_host : Text → Option Text) (forwarded : Option Text) (trust_proxy : Bool)
    → Text
with_client_key remote split_host forwarded trust_proxy =
    let direct : Text = elim (split_host remote) [ none ↦ remote | some host ↦ host ] in
    if trust_proxy then elim forwarded [ none ↦ direct | some f ↦ f ] else direct

-- clientKey
unfoldable pub client_key : Option Text → Text
client_key none = codes "unknown"
client_key (some k) = if is_empty k then codes "unknown" else k
