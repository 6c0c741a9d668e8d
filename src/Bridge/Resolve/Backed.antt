-- ===== src/Bridge/Resolve/Backed.antt =====
-- What the transitions of one candidate rest on.
use mathlib.Core.Path.{subst}
use mathlib.Core.List.{Mem}
use open_chain.Prelude.{
  ◌≡◌, ◌≢◌, ◌⊎◌, inl, inr, refl, ap, sym, ◌∙◌, some, List, [], ◌∷◌, Text, to_lower, All, All-Mem,
  arith, Option-cases,
}
use open_chain.Transfers.{TransferItem}
use open_chain.Bridge.Events.{LogItem, BridgeEvent, Route, decode_initiations, canonical_route}
use open_chain.Bridge.Messages.{
  SentMessage, Endpoint, decode_sent_messages, valued, matching_message, message_id,
}
use open_chain.Bridge.Destination.{EvmClient, complete_destination}
use open_chain.Bridge.Destination.Finalized.{Final, complete_destination-Final}
use open_chain.Bridge.Transition.{
  Transition, Lifecycle, initiated, relayed, finalized, failed, unresolved,
}
use open_chain.Bridge.Resolve.{
  StandardBridge, unresolved_transition, initiated_transition, with_route, with_message,
  each_initiation, with_initiations, resolve_candidate,
}
use open_chain.Bridge.Destination.Keeps.{complete_destination-Keeps}

lifecycle_cases : (l : Lifecycle) → (l ≡ finalized) ⊎ (l ≢ finalized)
lifecycle_cases initiated = inr (λ e. absurd (cc))
lifecycle_cases relayed = inr (λ e. absurd (cc))
lifecycle_cases finalized = inl refl
lifecycle_cases failed = inr (λ e. absurd (cc))
lifecycle_cases unresolved = inr (λ e. absurd (cc))

pub some_injective : {A : Type 0} → {x y : A} → some x ≡ some y → x ≡ y
some_injective e = cc

module _ (keccak sha256 : Text → Text) (a : StandardBridge) where
  module _ (near far : EvmClient) (source destination : Endpoint) where
    -- The evidence of a finalized transition: an initiation in the receipt of the candidate, the message
    -- that carries it, its route, and what completeDestination asks for.
    abbrev pub Proven : TransferItem → Transition → Type 0
    Proven c t =
        (before hashes hs : List Text) × (logs : List LogItem) × (event : BridgeEvent)
        × (messages : List SentMessage) × (m : SentMessage) × (route : Route) × ((near.receipt_logs
              c.hash before).0
            ≡ some logs)
        × Mem event (decode_initiations keccak logs source.bridge)
        × (decode_sent_messages keccak logs source.messenger ≡ some messages)
        × (matching_message keccak (valued keccak logs source.messenger messages) event source
              destination
            ≡ some m)
        × (canonical_route a.registry source.network destination.network event ≡ some route)
        × (message_id keccak m ≡ some t.message_id)
        × Final keccak near far source destination event
            (initiated_transition keccak sha256 a source destination c event route t.message_id
              hashes)
            hs

    abbrev pub Backed : TransferItem → Transition → Type 0
    Backed c t =
        (t.source_transaction_hash ≡ to_lower c.hash) × ((t.lifecycle ≢ finalized) ⊎ Proven c t)

    unresolved_transition-Backed :
        (c : TransferItem) (reason : Text) (hashes : List Text)
        → Backed c (unresolved_transition keccak sha256 a source destination c reason hashes)
    unfolding unresolved_transition
    unresolved_transition-Backed c reason hashes = (refl, inl (λ e. absurd (cc)))

    module _ (c : TransferItem) (before hashes : List Text) (logs : List LogItem)
        (messages : List SentMessage) (read : (near.receipt_logs c.hash before).0 ≡ some logs)
        (sent : decode_sent_messages keccak logs source.messenger ≡ some messages) where
      -- The messages with their values.
      abbrev values_of : List SentMessage
      values_of = valued keccak logs source.messenger messages

      completed-Backed :
          (event : BridgeEvent) (hs : List Text) (m : SentMessage) (route : Route) (message : Text)
          → Mem event (decode_initiations keccak logs source.bridge)
          → matching_message keccak values_of event source destination ≡ some m
          → canonical_route a.registry source.network destination.network event ≡ some route
          → message_id keccak m ≡ some message
          → Backed c
              (complete_destination keccak near far source destination event
                (initiated_transition keccak sha256 a source destination c event route message
                  hashes)
                hs).0
      unfolding initiated_transition unresolved_transition
      completed-Backed event hs m route message mem e f g =
          let t =
            initiated_transition keccak sha256 a source destination c event route message hashes in
          let after = (complete_destination keccak near far source destination event t hs).0 in
          let (hash, q) =
            complete_destination-Keeps keccak near far source destination event t hs in
          (
            hash,
            elim (lifecycle_cases after.lifecycle) [
              | inr other ↦ inl other
              | inl done ↦ inr (
                before,
                hashes,
                hs,
                logs,
                event,
                messages,
                m,
                route,
                read,
                mem,
                sent,
                e,
                f,
                g ∙ ap (λ x. some x) (sym q),
                subst
                    (λ x.
                      Final keccak near far source destination event
                        (initiated_transition keccak sha256 a source destination c event route x
                          hashes)
                        hs)
                    (sym q)
                    (complete_destination-Final keccak near far source destination event t hs refl
                      refl done),
              )
            ],
          )

      with_message-Backed :
          (event : BridgeEvent) (hs : List Text)
          → Mem event (decode_initiations keccak logs source.bridge)
          → Backed c
              (with_message keccak sha256 a source destination c near far hashes event
                (matching_message keccak values_of event source destination)
                hs).0
      unfolding with_message with_route
      with_message-Backed event hs mem =
          elim (Option-cases (matching_message keccak values_of event source destination)) [
            | inl e ↦ rw (e, with_message) (unresolved_transition-Backed c _ hashes)
            | inr (m, e) ↦
                elim (Option-cases
                  (canonical_route a.registry source.network destination.network event)) [
                    | inl f ↦
                        rw (e, f, with_message, with_route)
                          (unresolved_transition-Backed c _ hashes)
                    | inr (route, f) ↦ elim (Option-cases (message_id keccak m)) [
                      | inl g ↦
                          rw (e, f, g, with_message, with_route)
                            (unresolved_transition-Backed c _ hashes)
                      | inr (message, g) ↦
                          rw (e, f, g, with_message, with_route)
                            (completed-Backed event hs m route message mem e f g)
                    ]
                  ]
          ]

      each_initiation-Backed :
          (events : List BridgeEvent) (hs : List Text)
          → All (λ event. Mem event (decode_initiations keccak logs source.bridge)) events
          → All
              (Backed c)
              (each_initiation keccak sha256 a source destination c near far hashes values_of events
                hs).0
      unfolding each_initiation
      each_initiation-Backed [] hs tt = tt
      each_initiation-Backed (event ∷ events) hs (m, ms) =
          (with_message-Backed event hs m, each_initiation-Backed events _ ms)

    with_initiations-Backed :
        (c : TransferItem) (before hashes : List Text) (logs : List LogItem)
        (events : List BridgeEvent) (hs : List Text) (r : List Transition × List Text)
        → (near.receipt_logs c.hash before).0 ≡ some logs
        → All (λ event. Mem event (decode_initiations keccak logs source.bridge)) events
        → with_initiations keccak sha256 a source destination c near far hashes logs events hs
          ≡ some r
        → All (Backed c) r.0
    unfolding with_initiations
    with_initiations-Backed c before hashes logs [] hs r read ms e =
        let p : ([], hs) ≡ r = cc in
        subst (λ (r : List Transition × List Text). All (Backed c) r.0) p tt
    with_initiations-Backed c before hashes logs (event ∷ events) hs r read ms e =
        elim (Option-cases (decode_sent_messages keccak logs source.messenger)) [
          | inl n ↦ absurd (ground (arith, e, n))
          | inr (messages, sent) ↦
              let p : each_initiation keccak sha256 a source destination c near far hashes
                    (valued keccak logs source.messenger messages) (event ∷ events) hs
                  ≡ r =
                ground (arith, e, sent) in
              subst (λ (r : List Transition × List Text). All (Backed c) r.0) p
                (each_initiation-Backed c before hashes logs messages read sent (event ∷ events) hs
                  ms)
        ]

    pub resolve_candidate-Backed :
        (c : TransferItem) (hs : List Text) (r : List Transition × List Text)
        → resolve_candidate keccak sha256 a source destination c near far hs ≡ some r
        → All (Backed c) r.0
    unfolding resolve_candidate
    resolve_candidate-Backed c hs r e = elim (Option-cases (near.receipt_logs c.hash hs).0) [
      | inl n ↦
          let p = some_injective (rw (n, resolve_candidate) at e) in
          subst (λ (r : List Transition × List Text). All (Backed c) r.0) p
            (unresolved_transition-Backed c _ [], tt)
      | inr (logs, read) ↦
          with_initiations-Backed c hs _ logs _ _ r read
            (All-Mem (decode_initiations keccak logs source.bridge))
            (rw (read, resolve_candidate) at e)
    ]
