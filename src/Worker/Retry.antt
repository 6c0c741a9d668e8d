-- ===== src/Worker/Retry.antt =====
-- resolveWithRetry: up to three calls of the engine, with a delay between them. What the engine answers
-- to an attempt, and whether the context is done before an attempt's timer fires, are arguments.
use open_chain.Prelude.{
  ℕ, zero, suc, ◌+◌, ◌*◌, ◌≤◌, ◌<◌, ◌≡◌, ◌≢◌, ◌-◌, ap, refl, inl, inr, Bool, false, Option, none,
  some, List, [], ◌∷◌, ◌==◌, if◌then◌else◌, arith, length, All, Bool-cases,
}
use open_chain.Provider.{second, FetchError, retry_delay}
use open_chain.Provider.Delay.{retry_delay_bounds}

abbrev pub trace_provider_max_attempts : ℕ
trace_provider_max_attempts = 3

-- What one call of ResolveGraph returns.
pub data Answer {ℓ} (A : Type ℓ) : Type ℓ where
  answered : A → Answer A
  refused : FetchError → Answer A

-- What resolveWithRetry returns: a result, the provider's error, ctx.Err(), or the error behind the loop.
pub data Outcome {ℓ} (A : Type ℓ) : Type ℓ where
  resolved : A → Outcome A
  provider_failed : FetchError → Outcome A
  context_done : Outcome A
  exhausted : Outcome A

module _ {ℓ} {A : Type ℓ} where
  -- Behind an error that may be retried: the last attempt, the end of the context, or the next round.
  after_delay : FetchError → ℕ → ℕ → Bool → Outcome A × List ℕ → Outcome A × List ℕ
  after_delay e delay attempt cancelled (o, waits) =
      if attempt == trace_provider_max_attempts
      then (provider_failed e, [])
      else if cancelled
      then (context_done, delay ∷ [])
      else (o, delay ∷ waits)

  after_error : FetchError → Option ℕ → ℕ → Bool → Outcome A × List ℕ → Outcome A × List ℕ
  after_error e none attempt cancelled rest = (provider_failed e, [])
  after_error e (some delay) attempt cancelled rest = after_delay e delay attempt cancelled rest

  round : Answer A → ℕ → Bool → Outcome A × List ℕ → Outcome A × List ℕ
  round (answered x) attempt cancelled rest = (resolved x, [])
  round (refused e) attempt cancelled rest =
      after_error e (retry_delay e attempt) attempt cancelled rest

module _ {ℓ} {A : Type ℓ} (resolve : ℕ → Answer A) (cancelled : ℕ → Bool) where
  -- The loop with `left` rounds to go: what it returns, and the delays that it waited for.
  retry_loop : ℕ → ℕ → Outcome A × List ℕ
  retry_loop zero attempt = (exhausted, [])
  retry_loop (suc left) attempt =
      let rest = retry_loop left (attempt + 1) in
      round (resolve attempt) attempt (cancelled attempt) rest

  unfoldable pub resolve_with_retry : Outcome A × List ℕ
  unfolding retry_loop round after_error after_delay
  resolve_with_retry = retry_loop trace_provider_max_attempts 1

module _ {ℓ} {A : Type ℓ} where
  -- What a run of the loop from an attempt on does, with `left` rounds to go.
  record Behaves (left : ℕ) (r : Outcome A × List ℕ) : Type ℓ where
    few : length r.1 < left
    bounded : All (λ d. (second ≤ d) × (d ≤ 10 * second)) r.1
    not_exhausted : r.0 ≢ exhausted

  delay-Behaves :
      (e : FetchError) (d left attempt : ℕ) (cancelled : Bool) (rest : Outcome A × List ℕ)
      → suc left + attempt ≡ suc trace_provider_max_attempts
      → (second ≤ d) × (d ≤ 10 * second)
      → (0 < left → Behaves left rest)
      → Behaves (suc left) (after_delay e d attempt cancelled rest)
  unfolding after_delay
  delay-Behaves e d left attempt c rest h b ih = elim (Bool-cases (attempt == 3)) [
    | inl last ↦ rw last (record { few = omega arith; bounded = tt; not_exhausted = λ e. cc })
    | inr more ↦
        let r = ih (ground arith) in
        rw more (elim (Bool-cases c) [
          | inl done ↦
              rw done (record { few = ground arith; bounded = (b, tt); not_exhausted = λ e. cc })
          | inr on ↦ rw on (record {
            few = omega (arith, r.few);
            bounded = (b, r.bounded);
            not_exhausted = r.not_exhausted;
          })
        ])
  ]

  refused-Behaves :
      (e : FetchError) (o : Option ℕ) (left attempt : ℕ) (cancelled : Bool)
      (rest : Outcome A × List ℕ)
      → suc left + attempt ≡ suc trace_provider_max_attempts
      → ((d : ℕ) → o ≡ some d → (second ≤ d) × (d ≤ 10 * second))
      → (0 < left → Behaves left rest)
      → Behaves (suc left) (after_error e o attempt cancelled rest)
  unfolding after_error
  refused-Behaves e none left attempt c rest h ok ih = record {
    few = omega arith;
    bounded = tt;
    not_exhausted = λ e. cc;
  }
  refused-Behaves e (some d) left attempt c rest h ok ih =
      delay-Behaves e d left attempt c rest h (ok d refl) ih

  round-Behaves :
      (a : Answer A) (left attempt : ℕ) (cancelled : Bool) (rest : Outcome A × List ℕ)
      → suc left + attempt ≡ suc trace_provider_max_attempts
      → (0 < left → Behaves left rest)
      → Behaves (suc left) (round a attempt cancelled rest)
  unfolding round
  round-Behaves (answered x) left attempt c rest h ih = record {
    few = omega arith;
    bounded = tt;
    not_exhausted = λ e. cc;
  }
  round-Behaves (refused e) left attempt c rest h ih =
      refused-Behaves e (retry_delay e attempt) left attempt c rest h
        (λ d k. retry_delay_bounds e attempt k) ih

module _ {ℓ} {A : Type ℓ} (resolve : ℕ → Answer A) (cancelled : ℕ → Bool) where
  loop-Behaves :
      (left attempt : ℕ)
      → left + attempt ≡ suc trace_provider_max_attempts
      → 0 < left
      → Behaves left (retry_loop resolve cancelled left attempt)
  unfolding retry_loop
  loop-Behaves zero attempt h k = elim k [ ]
  loop-Behaves (suc left) attempt h k =
      round-Behaves (resolve attempt) left attempt (cancelled attempt)
        (retry_loop resolve cancelled left (attempt + 1)) h
        (loop-Behaves left (attempt + 1) (omega arith))

  -- The queue waits at most twice between calls of the engine, so calls it at most three times, waits
  -- one to ten seconds each time, and never falls out of its loop into the "attempts exhausted" error.
  pub resolve_with_retry_bounds :
      (length (resolve_with_retry resolve cancelled).1 ≤ 2)
      × All (λ d. (second ≤ d) × (d ≤ 10 * second)) (resolve_with_retry resolve cancelled).1
      × ((resolve_with_retry resolve cancelled).0 ≢ exhausted)
  unfolding resolve_with_retry
  resolve_with_retry_bounds =
      let b = loop-Behaves 3 1 refl (omega arith) in
      (omega (arith, b.few), b.bounded, b.not_exhausted)

module _ {ℓ} {A : Type ℓ} (resolve : ℕ → Answer A) (cancelled : ℕ → Bool) where
  -- An attempt that fails in a way that may be retried, with the context not done before the next one.
  abbrev pub FailsFor : ℕ → Type ℓ
  FailsFor i =
      (e : FetchError) × (d : ℕ) × (resolve i ≡ refused e)
      × (retry_delay e i ≡ some d)
      × (cancelled i ≡ false)

  loop_resolves :
      (gap left attempt k : ℕ) (x : A)
      → left + attempt ≡ suc trace_provider_max_attempts
      → gap < left
      → k ≡ gap + attempt
      → resolve k ≡ answered x
      → ((i : ℕ) → attempt ≤ i → i < k → FailsFor i)
      → (retry_loop resolve cancelled left attempt).0 ≡ resolved x
  unfolding retry_loop round after_error after_delay
  loop_resolves gap zero attempt k x h g at a f = elim g [ ]
  loop_resolves zero (suc left) attempt k x h g at a f =
      let now : attempt ≡ k = omega arith in cc (ap resolve now, a)
  loop_resolves (suc gap) (suc left) attempt k x h g at a f =
      let (e, d, r, delayed, c) = f attempt (omega arith) (omega arith) in
      let ih =
        loop_resolves gap left (attempt + 1) k x (omega arith) (omega arith) (omega arith) a
          (λ i lo hi. f i (omega arith) hi) in
      let more : (attempt == trace_provider_max_attempts) ≡ false = ground arith in
      rw (r, round, delayed, after_error, after_delay, more, c) ih

  -- The queue returns the answer of the first attempt that has one, if that is one of three and the
  -- attempts before it failed in ways that may be retried, with the context alive.
  pub resolve_with_retry_resolves :
      (k : ℕ) (x : A)
      → 1 ≤ k
      → k ≤ trace_provider_max_attempts
      → resolve k ≡ answered x
      → ((i : ℕ) → 1 ≤ i → i < k → FailsFor i)
      → (resolve_with_retry resolve cancelled).0 ≡ resolved x
  unfolding resolve_with_retry
  resolve_with_retry_resolves k x lo hi a f =
      loop_resolves (k - 1) 3 1 k x refl (omega arith) (omega arith) a f
