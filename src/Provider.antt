-- ===== src/Provider.antt =====
-- Provider errors, the bounded retry delay and the request counters: apps/backend/internal/adapter/
-- provider.go. Durations are nanoseconds; `RetryAfter` is signed, as int64 is.
pub mod Delay
use open_chain.Prelude.{
  trim_space, ℕ, ◌+◌, ◌-◌, ◌*◌, ◌^◌, min, Bool, true, false, ◌&&◌, ◌||◌, not, Option, none, some,
  ◌∷◌, [], Text, codes, ltb, leb, ◌==◌, if◌then◌else◌, ◌++◌,
}
use open_chain.Prelude.Int.{ℤ, pos, negsuc, ltb_ℤ, wrap_i64}
use open_chain.Prelude.Decimal.{itoa, read_digits}

abbrev pub second : ℕ
second = 1_000_000_000

pub record ProviderError : Type 0 where
  pub provider : Text
  pub status_code : ℕ
  pub retry_after : ℤ

-- What errors.As finds: a provider's error anywhere in the chain, or none.
pub data FetchError : Type 0 where
  provider_error : ProviderError → FetchError
  other_error : Text → FetchError

-- ProviderError.Error
unfoldable pub error_text : ProviderError → Text
error_text e =
    if ltb 0 e.status_code
    then e.provider ++ (codes " returned HTTP " ++ itoa e.status_code)
    else e.provider ++ codes " request failed"

-- The range of an int; strconv.Atoi fails beyond it.
abbrev max_int : ℕ
max_int = 2 ^ 63 - 1

in_range : Option ℕ → Option ℕ
in_range none = none
in_range (some n) = if leb n max_int then some n else none

-- strconv.Atoi of a text without a minus sign: digits behind an optional plus. A negative number is
-- no positive one, which is all that is asked of it here.
positive_atoi : Text → Option ℕ
positive_atoi [] = none
positive_atoi (c ∷ s) =
    if c == b'+'
    then elim s [ [] ↦ none | d ∷ r ↦ in_range (read_digits 0 (d ∷ r)) ]
    else in_range (read_digits 0 (c ∷ s))

-- retryAfter of a Retry-After header. `until` is http.ParseTime with
-- time.Until: the time left before the date that a text names.
unfoldable pub retry_after : (until : Text → Option ℤ) → Text → ℤ
unfolding positive_atoi in_range
retry_after until value =
    let dated : ℤ = elim (until value) [
      | none ↦ pos 0
      | some left ↦ if ltb_ℤ left (pos 0) then pos 0 else left
    ] in
    elim (positive_atoi (trim_space value)) [
      | none ↦ dated
      | some seconds ↦ if ltb 0 seconds then wrap_i64 (seconds * second) else dated
    ]

-- The status is one that a retry may mend: none at all, 408, 429, or 500 and above.
unfoldable pub is_transient : ℕ → Bool
is_transient status =
    not (not (status == 0) && (not (status == 408) && (not (status == 429) && ltb status 500)))

later_of : ℕ → ℤ → ℕ
later_of delay (pos n) = if ltb delay n then n else delay
later_of delay (negsuc n) = delay

-- RetryDelay: `none` where it says not to retry.
unfoldable pub retry_delay : FetchError → ℕ → Option ℕ
unfolding is_transient later_of
retry_delay (other_error m) attempt = none
retry_delay (provider_error e) attempt =
    if is_transient e.status_code
    then (let attempt = if ltb attempt 1 then 1 else attempt in
        let delay = second * 2 ^ min (attempt - 1) 2 in
        some (min (later_of delay e.retry_after) (10 * second)))
    else none

-- The counters behind ProviderHealth. A nil *providerMetrics counts nothing and has no value here.
pub record ProviderHealth : Type 0 where
  pub provider : Text
  pub max_concurrent : ℕ
  pub requests_per_second : ℕ
  pub requests : ℕ
  pub failures : ℕ
  pub throttled : ℕ
  pub last_success_at : Option ℕ
  pub last_failure_at : Option ℕ

unfoldable pub new_provider_metrics : Text → ℕ → ProviderHealth
new_provider_metrics provider rate = record {
  provider = provider;
  max_concurrent = 1;
  requests_per_second = rate;
  requests = 0;
  failures = 0;
  throttled = 0;
  last_success_at = none;
  last_failure_at = none;
}

unfoldable pub request : ProviderHealth → ℕ → ProviderHealth
request h delay = record h {
  requests = h.requests + 1;
  throttled = if ltb 0 delay then h.throttled + 1 else h.throttled;
}

unfoldable pub success : ProviderHealth → ℕ → ProviderHealth
success h now = record h { last_success_at = some now }

unfoldable pub failure : ProviderHealth → ℕ → ProviderHealth
failure h now = record h { failures = h.failures + 1; last_failure_at = some now }
