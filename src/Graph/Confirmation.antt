-- ===== src/Graph/Confirmation.antt =====
-- When an observation counts as confirmed: isProvisional, confirmationThreshold and
-- confirmationSourceStatus of internal/tracing/graph.go.
use open_chain.Prelude.{
  ℕ, ◌+◌, ◌≤◌, ◌<◌, ◌≡◌, ◌↔◌, refl, Bool, true, false, ◌||◌, Option, none, some, [], ◌∷◌, ◌++◌,
  Text, codes, same, if◌then◌else◌, is_empty, strip_prefix?, arith, Option-cases, inl, inr,
}
use open_chain.Prelude.Int.{ℤ, pos, negsuc, ltb_ℤ, leb_ℤ, sub_ℤ}
use open_chain.Source.{SourceStatus}

-- confirmationThreshold
unfoldable pub confirmation_threshold : Text → Option ℕ
confirmation_threshold network =
    if same network (codes "ethereum-mainnet") || same network (codes "bnb-chain")
    then some 64
    else if same network (codes "base-mainnet")
        || (same network (codes "optimism-mainnet") || same network (codes "arbitrum-one"))
    then some 120
    else if same network (codes "polygon-mainnet")
    then some 256
    else none

-- The test against a threshold: block and head are int64, and both are positive where they are subtracted.
unfoldable pub is_recent : ℕ → ℤ → ℤ → Bool
is_recent threshold block head =
    if leb_ℤ block (pos 0) || (leb_ℤ head (pos 0) || ltb_ℤ head block)
    then true
    else ltb_ℤ (sub_ℤ head block) (pos threshold)

-- isProvisional
unfoldable pub is_provisional : Text → ℤ → SourceStatus → Bool
unfolding is_recent
is_provisional network block source = elim (confirmation_threshold network) [
  | none ↦ true
  | some threshold ↦ is_recent threshold block source.latest_chain_block
]

-- strings.Contains
unfoldable pub has_substring : Text → Text → Bool
has_substring p [] = is_empty p
has_substring p (c ∷ s) =
    let rest = has_substring p s in elim (strip_prefix? p (c ∷ s)) [ none ↦ rest | some r ↦ true ]

abbrev pub remain_provisional : Text
remain_provisional = codes "observations remain provisional"

-- The warning that confirmationSourceStatus adds.
unfoldable pub warned : SourceStatus → SourceStatus
warned status =
    let space = if is_empty status.warning then [] else codes " " in
    if has_substring remain_provisional status.warning then status else record status {
      warning =
          status.warning
          ++ (space
              ++ codes
                  "Confirmation-backed status is unavailable for this network; observations remain provisional.");
    }

-- confirmationSourceStatus
unfoldable pub confirmation_source_status : Text → SourceStatus → SourceStatus
unfolding warned
confirmation_source_status network status = elim (confirmation_threshold network) [
  | none ↦ warned status
  | some threshold ↦ if ltb_ℤ (pos 0) status.latest_chain_block then status else warned status
]

is_recent_iff :
    (threshold : ℕ) (block head : ℤ)
    → (is_recent threshold block head ≡ false)
      ↔ ((b h : ℕ) × (block ≡ pos b) × (head ≡ pos h) × (0 < b) × (b + threshold ≤ h))
unfolding is_recent
is_recent_iff threshold (pos b) (pos h) = (
  λ e. (b, h, refl, refl, ground (arith, e), ground (arith, e)),
  λ (x, y, p, q, lo, far). ground arith,
)
is_recent_iff threshold (pos b) (negsuc h) =
    (λ e. absurd (ground (arith, e)), λ (x, y, p, q, lo, far). absurd (ground arith))
is_recent_iff threshold (negsuc b) head =
    (λ e. absurd (ground (arith, e)), λ (x, y, p, q, lo, far). absurd (ground arith))

-- An observation is not provisional exactly if the network has a threshold, both heights are positive, and
-- the head of the chain is at least the threshold above the block.
pub is_provisional_iff :
    (network : Text) (block : ℤ) (source : SourceStatus)
    → (is_provisional network block source ≡ false) ↔ (
        (threshold : ℕ) × (b : ℕ) × (h : ℕ) × (confirmation_threshold network ≡ some threshold)
        × (block ≡ pos b)
        × (source.latest_chain_block ≡ pos h)
        × (0 < b)
        × (b + threshold ≤ h))
unfolding is_provisional
is_provisional_iff network block source = elim (Option-cases (confirmation_threshold network)) [
  | inl e ↦ (
    λ p. absurd (ground (arith, p, e)),
    λ (threshold, b, h, t, pb, ph, lo, far). absurd (ground (arith, e, t)),
  )
  | inr (threshold, e) ↦
      let i = is_recent_iff threshold block source.latest_chain_block in
      (
        λ p.
            let (b, h, pb, ph, lo, far) = i.0 (rw (e, is_provisional) at p) in
            (threshold, b, h, e, pb, ph, lo, far),
        λ (other, b, h, t, pb, ph, lo, far).
            let same_one : threshold ≡ other = ground (arith, e, t) in
            rw (e, is_provisional) (i.1 (b, h, pb, ph, lo, rw same_one far)),
      )
]
