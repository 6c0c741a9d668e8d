-- ===== src/Bridge/Destination/Finalized.antt =====
-- When a transition counts as finalized.
use open_chain.Prelude.{
  ℕ, ◌+◌, ◌≤◌, ◌<◌, ◌≡◌, refl, sym, ◌∙◌, true, false, ◌&&◌, Option, none, some, List, [], ◌∷◌, Text,
  codes, arith, Bool-cases, inl, inr,
}
use open_chain.Bridge.Events.{LogItem, BridgeEvent, confirmed, has_matching_finalization}
use open_chain.Bridge.Messages.{Endpoint}
use open_chain.Bridge.Transition.{Transition, initiated, relayed, finalized, failed}
use open_chain.Bridge.Destination.{
  EvmClient, with_heights, apply_confirmations, observed_at, log_block, settle, settled, open_as,
  after_failure, with_receipt, after_relay, with_logs, complete_destination,
}

-- A block of a height, so far below a head as a side asks for.
abbrev pub Deep : Endpoint → Option ℕ → ℕ → Type 0
Deep e head block = (h : ℕ) × (head ≡ some h) × (0 < block) × (block + e.confirmations ≤ h)

module _ (source destination : Endpoint) where
  -- Neither side is confirmed without its head.
  with_heights_lem :
      (t : Transition) (a b : Option ℕ)
      → t.source_confirmed ≡ false
      → (with_heights source destination t a b).source_confirmed ≡ true
      → (with_heights source destination t a b).destination_confirmed ≡ true
      → Deep source a t.source_block_number × Deep destination b t.destination_block_number
  unfolding with_heights confirmed
  with_heights_lem t (some a) (some b) f p q = (
    (a, refl, ground (arith, p), ground (arith, p)),
    (b, refl, ground (arith, q), ground (arith, q)),
  )
  with_heights_lem t (some a) none f p q = absurd (ground (arith, f, p))
  with_heights_lem t none b f p q = absurd (ground (arith, f, p))

  lifecycle-with_heights :
      (t : Transition) (a b : Option ℕ)
      → ((with_heights source destination t a b).lifecycle ≡ t.lifecycle)
  unfolding with_heights
  lifecycle-with_heights t (some a) (some b) = refl
  lifecycle-with_heights t (some a) none = refl
  lifecycle-with_heights t none b = refl

module _ (keccak : Text → Text) (near far : EvmClient) (source destination : Endpoint) where
  -- What a finalized transition rests on: a relay of its message that the destination's client gave, in a
  -- transaction whose receipt has the finalization, and both sides deep enough.
  abbrev pub Final : BridgeEvent → Transition → List Text → Type 0
  Final event t hs =
      (log : LogItem) × (logs receipt : List LogItem) × (a b c : List Text) × ((far.logs_of
          destination.messenger (keccak (codes "RelayedMessage(bytes32)")) t.message_id hs).0
        ≡ some (log ∷ logs))
      × ((far.receipt_logs log.transaction_hash a).0 ≡ some receipt)
      × (has_matching_finalization keccak receipt destination.bridge event ≡ true)
      × Deep source (near.latest_block b).0 t.source_block_number
      × Deep destination (far.latest_block c).0 (log_block log)

  lifecycle-apply_confirmations :
      (t : Transition) (hs : List Text)
      → (apply_confirmations near far source destination t hs).0.lifecycle ≡ t.lifecycle
  unfolding apply_confirmations
  lifecycle-apply_confirmations t hs = lifecycle-with_heights source destination _ _ _

  settle_lem :
      (t : Transition)
      → t.lifecycle ≡ relayed
      → (settle t).lifecycle ≡ finalized
      → (t.source_confirmed ≡ true) × (t.destination_confirmed ≡ true)
  unfolding settle
  settle_lem t l e = elim (Bool-cases (t.source_confirmed && t.destination_confirmed)) [
    | inl y ↦ (ground (arith, y), ground (arith, y))
    | inr n ↦ absurd (ground (arith, e, n, l))
  ]

  -- Both heights of a transition that was finalized behind its confirmations.
  settled-Deep :
      (t : Transition) (hs : List Text)
      → t.lifecycle ≡ relayed
      → t.source_confirmed ≡ false
      → (settled (apply_confirmations near far source destination t hs)).0.lifecycle ≡ finalized
      → (b c : List Text) × Deep source (near.latest_block b).0 t.source_block_number
        × Deep destination (far.latest_block c).0 t.destination_block_number
  unfolding settled apply_confirmations
  settled-Deep t hs l f e =
      let after = apply_confirmations near far source destination t hs in
      let (p, q) = settle_lem after.0 (lifecycle-apply_confirmations t hs ∙ l) e in
      let (near_deep, far_deep) =
        with_heights_lem source destination _ (near.latest_block hs).0
          (far.latest_block (near.latest_block hs).1).0 f p q in
      (hs, (near.latest_block hs).1, near_deep, far_deep)

  with_receipt-Deep :
      (event : BridgeEvent) (r : Option (List LogItem)) (t : Transition) (hs : List Text)
      → t.lifecycle ≡ relayed
      → t.source_confirmed ≡ false
      → (with_receipt keccak near far source destination event r t hs).0.lifecycle ≡ finalized
      → (receipt : List LogItem) × (b c : List Text) × (r ≡ some receipt)
        × (has_matching_finalization keccak receipt destination.bridge event ≡ true)
        × Deep source (near.latest_block b).0 t.source_block_number
        × Deep destination (far.latest_block c).0 t.destination_block_number
  unfolding with_receipt open_as
  with_receipt-Deep event none t hs l f e = absurd (ground (arith, e))
  with_receipt-Deep event (some receipt) t hs l f e =
      elim (Bool-cases (has_matching_finalization keccak receipt destination.bridge event)) [
        | inr n ↦ absurd (ground (arith, e, n))
        | inl y ↦
            let (b, c, near_deep, far_deep) = settled-Deep t hs l f (rw (y, with_receipt) at e) in
            (receipt, b, c, refl, y, near_deep, far_deep)
      ]

  with_logs-Relayed :
      (event : BridgeEvent) (before : List Text) (r f : Option (List LogItem)) (t : Transition)
      (hs : List Text)
      → t.lifecycle ≡ initiated
      → t.source_confirmed ≡ false
      → (with_logs keccak near far source destination event before r f t hs).0.lifecycle ≡ finalized
      → (log : LogItem) × (logs receipt : List LogItem) × (a b c : List Text) × (r
          ≡ some (log ∷ logs))
        × ((far.receipt_logs log.transaction_hash a).0 ≡ some receipt)
        × (has_matching_finalization keccak receipt destination.bridge event ≡ true)
        × Deep source (near.latest_block b).0 t.source_block_number
        × Deep destination (far.latest_block c).0 (log_block log)
  unfolding with_logs after_relay after_failure observed_at open_as
  with_logs-Relayed event before (some (log ∷ logs)) (some fs) t hs l n e =
      let a = (far.block_timestamp (log_block log) hs).1 in
      let (receipt, b, c, p, y, near_deep, far_deep) =
        with_receipt-Deep event (far.receipt_logs log.transaction_hash a).0 _ _ refl n e in
      (log, logs, receipt, a, b, c, refl, p, y, near_deep, far_deep)
  with_logs-Relayed event before (some []) (some (log ∷ logs)) t hs l n e =
      let m : failed ≡ finalized = sym (lifecycle-apply_confirmations _ _) ∙ e in
      absurd (ground (arith, m))
  with_logs-Relayed event before (some []) (some []) t hs l n e =
      absurd (ground (arith, e, l, lifecycle-apply_confirmations t hs))
  with_logs-Relayed event before none f t hs l n e = absurd (ground (arith, e))
  with_logs-Relayed event before (some []) none t hs l n e = absurd (ground (arith, e))
  with_logs-Relayed event before (some (log ∷ logs)) none t hs l n e = absurd (ground (arith, e))

  -- A transition that begins as initiated is finalized by completeDestination only if the client of
  -- the destination has a relay of its message, the receipt of that relay's transaction has the matching
  -- finalization, and the blocks of both sides lie as deep as they have to.
  pub complete_destination-Final :
      (event : BridgeEvent) (t : Transition) (hs : List Text)
      → t.lifecycle ≡ initiated
      → t.source_confirmed ≡ false
      → (complete_destination keccak near far source destination event t hs).0.lifecycle ≡ finalized
      → Final event t hs
  unfolding complete_destination
  complete_destination-Final event t hs l f e = with_logs-Relayed event hs _ _ _ _ l f e
