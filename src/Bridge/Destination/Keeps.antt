-- ===== src/Bridge/Destination/Keeps.antt =====
-- What completeDestination leaves alone.
use open_chain.Prelude.{
  ℕ, ◌≡◌, inl, inr, refl, ◌&&◌, Option, none, some, List, [], ◌∷◌, Text, Bool-cases,
}
use open_chain.Bridge.Events.{LogItem, BridgeEvent, has_matching_finalization}
use open_chain.Bridge.Messages.{Endpoint}
use open_chain.Bridge.Destination.{
  EvmClient, apply_confirmations, with_heights, with_receipt, after_relay, after_failure, with_logs,
  complete_destination, observed_at, open_as, settle, settled,
}
use open_chain.Bridge.Transition.{Transition}

module _ (keccak : Text → Text) (near far : EvmClient) (source destination : Endpoint) where
  -- What completeDestination leaves alone.
  abbrev pub Keeps : Transition → Transition → Type 0
  Keeps s t =
      (t.source_transaction_hash ≡ s.source_transaction_hash) × (t.message_id ≡ s.message_id)

  with_heights-Keeps :
      (t : Transition) (a b : Option ℕ) → Keeps t (with_heights source destination t a b)
  unfolding with_heights
  with_heights-Keeps t (some a) (some b) = (refl, refl)
  with_heights-Keeps t (some a) none = (refl, refl)
  with_heights-Keeps t none b = (refl, refl)

  apply_confirmations-Keeps :
      (t : Transition) (hs : List Text)
      → Keeps t (apply_confirmations near far source destination t hs).0
  unfolding apply_confirmations
  apply_confirmations-Keeps t hs = with_heights-Keeps _ _ _

  settle-Keeps : (s t : Transition) → Keeps s t → Keeps s (settle t)
  unfolding settle
  settle-Keeps s t k = elim (Bool-cases (t.source_confirmed && t.destination_confirmed)) [
    | inl e ↦ rw (e, settle) k
    | inr e ↦ rw (e, settle) k
  ]

  with_receipt-Keeps :
      (event : BridgeEvent) (r : Option (List LogItem)) (t : Transition) (hs : List Text)
      → Keeps t (with_receipt keccak near far source destination event r t hs).0
  unfolding with_receipt open_as settled
  with_receipt-Keeps event none t hs = (refl, refl)
  with_receipt-Keeps event (some logs) t hs =
      elim (Bool-cases (has_matching_finalization keccak logs destination.bridge event)) [
        | inl e ↦
            rw (e, with_receipt)
              (settle-Keeps t (apply_confirmations near far source destination t hs).0
                (apply_confirmations-Keeps t hs))
        | inr e ↦ rw (e, with_receipt) (refl, refl)
      ]

  with_logs-Keeps :
      (event : BridgeEvent) (before : List Text) (r f : Option (List LogItem)) (t : Transition)
      (hs : List Text)
      → Keeps t (with_logs keccak near far source destination event before r f t hs).0
  unfolding with_logs after_relay after_failure observed_at open_as
  with_logs-Keeps event before (some (log ∷ logs)) (some fs) t hs = with_receipt-Keeps event _ _ _
  with_logs-Keeps event before (some []) (some (log ∷ logs)) t hs = apply_confirmations-Keeps _ _
  with_logs-Keeps event before (some []) (some []) t hs = apply_confirmations-Keeps t hs
  with_logs-Keeps event before none f t hs = (refl, refl)
  with_logs-Keeps event before (some []) none t hs = (refl, refl)
  with_logs-Keeps event before (some (log ∷ logs)) none t hs = (refl, refl)

  pub complete_destination-Keeps :
      (event : BridgeEvent) (t : Transition) (hs : List Text)
      → Keeps t (complete_destination keccak near far source destination event t hs).0
  unfolding complete_destination
  complete_destination-Keeps event t hs = with_logs-Keeps event hs _ _ _ _
