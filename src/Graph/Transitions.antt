-- ===== src/Graph/Transitions.antt =====
-- Bridge evidence on its way into a trace: bridgeSourceTransferID and resolveBridgeTransitions of
-- internal/tracing/graph.go. The adapters' Resolve is the argument `resolve`, `none` its error.
pub mod Unique
use open_chain.Prelude.{
  ℕ, Bool, true, false, not, ◌&&◌, ◌||◌, Option, none, some, List, [], ◌∷◌, ◌++◌, Text, same,
  if◌then◌else◌, is_empty, equal_fold,
}
use open_chain.Transfers.{Asset, TransferItem, Transfer}
use open_chain.Bridge.Transition.{Transition}

-- The tests of the loop.
unfoldable pub is_source_of : Transition → Transfer → Bool
is_source_of b t =
    equal_fold t.transaction_hash b.source_transaction_hash
    && (equal_fold t.to_address b.source_bridge_address
        && (same t.amount_base_units b.amount_base_units
            && (same t.asset.kind b.asset.kind
                && (is_empty b.asset.contract_address
                    || equal_fold t.asset.contract_address b.canonical_source_token))))

-- The loop, with `matched` of the source.
unfoldable pub match_source : Transition → Text → List Transfer → Text
match_source b matched [] = matched
match_source b matched (t ∷ ts) =
    let rest = match_source b (if is_source_of b t then t.id else matched) ts in
    if is_source_of b t && not (is_empty matched) then [] else rest

-- bridgeSourceTransferID
unfoldable pub bridge_source_transfer_id : Transition → List Transfer → Text
bridge_source_transfer_id b ts = match_source b [] ts

-- The transitions of one adapter that can be linked.
unfoldable pub link_sources : List Transfer → List Transition → List Transition
link_sources persisted [] = []
link_sources persisted (b ∷ bs) =
    let id = bridge_source_transfer_id b persisted in
    let rest = link_sources persisted bs in
    if is_empty id then rest else (record b { source_transfer_id = id }) ∷ rest

-- An adapter's answers are for the network and the transfers of the trace.
abbrev pub BridgeAdapter : Type 0
BridgeAdapter = Text → List TransferItem → Option (List Transition)

adapters_loop :
    Text → List TransferItem → List Transfer → List BridgeAdapter → Option (List Transition)
adapters_loop network ts persisted [] = some []
adapters_loop network ts persisted (resolve ∷ rs) =
    let rest = adapters_loop network ts persisted rs in
    elim (resolve network ts) [
      | none ↦ none
      | some items ↦ elim rest [
        | none ↦ none
        | some more ↦ some (link_sources persisted items ++ more)
      ]
    ]

-- resolveBridgeTransitions; without adapters or transfers the result is empty as well.
unfoldable pub resolve_bridge_transitions :
    Text → List BridgeAdapter → List TransferItem → List Transfer → Option (List Transition)
unfolding adapters_loop
resolve_bridge_transitions network adapters [] persisted = some []
resolve_bridge_transitions network adapters (t ∷ ts) persisted =
    adapters_loop network (t ∷ ts) persisted adapters
