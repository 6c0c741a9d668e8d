-- ===== src/Provider/Delay.antt =====
-- The bounds of the retry delay.
use open_chain.Prelude.{
  ℕ, zero, suc, ◌*◌, ◌^◌, ◌-◌, min, ◌≤◌, ◌≡◌, ◌≢◌, ◌↔◌, refl, ap, ◌⊎◌, true, none, some, arith,
  if◌then◌else◌, ltb,
}
use open_chain.Prelude.Int.{ℤ, pos, negsuc}
use open_chain.Provider.{
  second, ProviderError, FetchError, provider_error, other_error, is_transient, later_of,
  retry_delay,
}

delay_steps : (m : ℕ) → m ≤ 2 → (second ≤ second * 2 ^ m) × (second * 2 ^ m ≤ 4 * second)
delay_steps zero h = omega arith
delay_steps (suc zero) h = omega arith
delay_steps (suc (suc zero)) h = omega arith
delay_steps (suc (suc (suc m))) h = absurd (omega arith)

later_of_bounds : (delay : ℕ) (r : ℤ) → delay ≤ later_of delay r
unfolding later_of
later_of_bounds delay (pos n) = ground arith
later_of_bounds delay (negsuc n) = omega arith

-- Every delay lies between one and ten seconds, whatever the attempt and the Retry-After header say.
pub retry_delay_bounds :
    (e : FetchError) (attempt : ℕ) {d : ℕ}
    → retry_delay e attempt ≡ some d
    → (second ≤ d) × (d ≤ 10 * second)
unfolding retry_delay
retry_delay_bounds (other_error m) attempt h = cc
retry_delay_bounds (provider_error e) attempt {d} h =
    let k = min ((if ltb attempt 1 then 1 else attempt) - 1) 2 in
    let steps = delay_steps k (omega arith) in
    ground (arith, steps.0, later_of_bounds (second * 2 ^ k) e.retry_after)

-- A status that a retry may mend.
abbrev pub Transient : ℕ → Type 0
Transient status = (status ≡ 0) ⊎ (status ≡ 408) ⊎ (status ≡ 429) ⊎ (500 ≤ status)

Transient-iff : (status : ℕ) → (is_transient status ≡ true) ↔ Transient status
unfolding is_transient
Transient-iff status = (λ h. ground arith, λ h. ground arith)

-- A failure is retried exactly if it comes from a provider with no HTTP status, 408, 429, or a status
-- of 500 and above; the attempt's number does not matter.
pub retry_delay_iff :
    (e : FetchError) (attempt : ℕ)
    → (retry_delay e attempt ≢ none)
      ↔ ((p : ProviderError) × (e ≡ provider_error p) × Transient p.status_code)
unfolding retry_delay
retry_delay_iff (other_error m) attempt = (λ h. absurd (h refl), λ (p, e, t). cc)
retry_delay_iff (provider_error x) attempt = (
  λ h. (x, refl, (Transient-iff x.status_code).0 (ground (arith, h))),
  λ (p, e, t).
      let again = (Transient-iff p.status_code).1 t in
      let same_error : p ≡ x = cc in
      ground (arith, again, ap (λ (y : ProviderError). y.status_code) same_error),
)
