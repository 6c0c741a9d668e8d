-- ===== src/Graph/Transitions/Unique.antt =====
-- A transition is linked exactly to a transfer that is the only one it fits.
use open_chain.Prelude.{
  ◌≡◌, refl, false, List, [], ◌∷◌, Text, is_empty, keep, map, All, Bool-cases, inl, inr,
}
use open_chain.Transfers.{Transfer}
use open_chain.Bridge.Transition.{Transition}
use open_chain.Graph.Transitions.{is_source_of, match_source, bridge_source_transfer_id}

-- The one text of a list of one, and otherwise the empty text.
abbrev pub the_only : List Text → Text
the_only [] = []
the_only (i ∷ []) = i
the_only (i ∷ j ∷ is) = []

-- The ids of the transfers that fit a transition.
abbrev pub source_ids : Transition → List Transfer → List Text
source_ids b ts = map (λ (t : Transfer). t.id) (keep (is_source_of b) ts)

match_source_found :
    (b : Transition) (i : Text) (ts : List Transfer)
    → is_empty i ≡ false
    → match_source b i ts ≡ the_only (i ∷ source_ids b ts)
unfolding match_source
match_source_found b i [] n = refl
match_source_found b i (t ∷ ts) n = elim (Bool-cases (is_source_of b t)) [
  | inl e ↦ rw (e, n, keep) refl
  | inr e ↦ rw (e, keep) (match_source_found b i ts n)
]

-- bridgeSourceTransferID gives the id of the stored transfer that fits a transition if there is one such
-- transfer only, and otherwise the empty id; no stored transfer's id is empty.
pub bridge_source_transfer_id-the_only :
    (b : Transition) (ts : List Transfer)
    → All (λ t. is_empty t.id ≡ false) ts
    → bridge_source_transfer_id b ts ≡ the_only (source_ids b ts)
unfolding bridge_source_transfer_id match_source is_empty
bridge_source_transfer_id-the_only b [] h = refl
bridge_source_transfer_id-the_only b (t ∷ ts) (h, hs) = elim (Bool-cases (is_source_of b t)) [
  | inl e ↦ rw (e, keep) (match_source_found b t.id ts h)
  | inr e ↦ rw (e, keep) (bridge_source_transfer_id-the_only b ts hs)
]
